-- ===== src/Demo/Auth/Leaving.antt =====
-- Logging out of the server of demo-app/cmd/auth/main.go.
use platforma.Base.{◌≡◌, inl, inr, String, List, none, some}
use platforma.Base.Text.{Text}
use platforma.Log.Logger.{Context}
use platforma.Session.{SessionDb}
use platforma.Auth.Service.{AuthEnv}
use platforma.Auth.Http.{Request, logout_handler}
use platforma.Auth.Domain.Logout.{SessionRows, logged_out}
use platforma.Demo.Auth.{auth_domain}
use platforma.Demo.Serving.{at, traced_context, traced_headers}
use platforma.Demo.Auth.Routes.{api, logout_route, page_group, page_group_route}
use platforma.Demo.Auth.Profile.{Refused, guarded, page_route, storage}

module _ {W : Type 0} (env : AuthEnv W) (db : SessionDb W) (new_id : Context → String) where
  -- Over a table of sessions from which a DELETE removes its row: after POST /auth/logout with a
  -- session's cookie was answered with 200, a request for /api/profile with that cookie gets the
  -- authentication middleware's own answer, 401 or 500 with "failed to get user", and never runs the
  -- handler of the page: also without RecoverMiddleware the page's group does not panic.
  pub logout_profile :
      SessionRows db
      → (first later : Request W) (id : Text) (ctx₁ ctx₂ : Context) (h₁ h₂ : List (String × String))
        (w : W)
      → first.method ≡ "POST"
      → first.cookies (auth_domain env db).service.session_cookie_name ≡ some id
      → (at (api env db new_id) "/auth/logout" ctx₁ h₁ first w).0.status ≡ some 200
      → later.cookies (auth_domain env db).service.session_cookie_name ≡ some id
      → let w₁ = (at (api env db new_id) "/auth/logout" ctx₁ h₁ first w).1 in
        let reply = (at (api env db new_id) "/api/profile" ctx₂ h₂ later w₁).0 in
        (reply.panic ≡ none) × Refused reply × ((page_group env db ctx₂ h₂ later w₁).0.panic ≡ none)
  logout_profile rows first later id ctx₁ ctx₂ h₁ h₂ w post sent done kept =
      let s = (auth_domain env db).service in
      let w₁ = (logout_handler env s first w).1 in
      let logout = logout_route env db new_id ctx₁ h₁ first w post in
      let answered : (logout_handler env s first w).0.status ≡ 200 =
        let e = rw logout at done in cc in
      let ctx' = traced_context new_id ctx₂ in
      let h' = traced_headers new_id ctx₂ h₂ in
      let ((calm, outcome), _) = guarded env s ctx' h' later w₁ in
      rw (logout, page_route env db new_id ctx₂ h₂ later w₁)
        (
          calm,
          elim outcome [
            | inr refused ↦ refused
            | inl (user, value, sent', found, _, _) ↦
                let same : value ≡ id = cc in
                absurd (
                  logged_out env db rows s (storage env db new_id) first id w user post sent
                    answered (rw same at found))
          ],
          rw (page_group_route env db ctx₂ h₂ later w₁) (guarded env s ctx₂ h₂ later w₁).0.0,
        )
