-- ===== src/Auth/Domain/Logout.antt =====
-- From logging out to being unknown: the handlers of auth/ over the sessions of session/.
use platforma.Base.{◌≡◌, ◌≢◌, ◌⊎◌, inl, inr, refl, String, Option, some, arith}
use platforma.Base.Text.{Text}
use platforma.Base.Errors.{Error, ok, err, Result-cases}
use platforma.Base.Action.{Command}
use platforma.Session.{
  SessionDb, session_storage, user_id_of_session, repository_get, repository_delete,
}
use platforma.Auth.Service.{
  AuthEnv, Service, User, UserCleanupJob, get_from_session, delete_session,
}
use platforma.Auth.Http.{Request, Response, Handler, logout_handler, get_handler}
use platforma.Auth.Http.Statuses.{middleware_wrap_lem}
use platforma.Auth.Domain.{Domain, new_domain, serve_domain, serve_mux, find_route}

-- A row that a DELETE removed is not found again.
pub record SessionRows {W : Type 0} (db : SessionDb W) : Type 0 where
  pub removed :
      (id : Text) (w : W)
      → (db.delete_session id w).0 ≡ ok tt
      → (e : Error) × ((db.select_session id (db.delete_session id w).1).0 ≡ err e)

module _ {W : Type 0} (env : AuthEnv W) (db : SessionDb W) (rows : SessionRows db) where
  module _ (s : Service W) (storage : s.auth_storage ≡ session_storage db) where
    -- A session that has been logged out leads to no user.
    pub logged_out :
        (r : Request W) (id : Text) (w : W) (user : User)
        → r.method ≡ "POST"
        → r.cookies s.session_cookie_name ≡ some id
        → (logout_handler env s r w).0.status ≡ 200
        → (get_from_session env s id (logout_handler env s r w).1).0 ≢ ok user
    unfolding logout_handler delete_session repository_delete
    logged_out r id w user post sent done = elim (Result-cases (db.delete_session id w).0) [
      | inr (e, failed) ↦ absurd (ground (arith, storage, post, sent, failed, done))
      | inl (_, deleted) ↦
          let (e, missing) = rows.removed id w deleted in
          λ found.
            unfold get_from_session user_id_of_session repository_get in
            ground (arith, storage, post, sent, deleted, missing, found)
    ]

    get_handler_refuses :
        (r : Request W) (id : Text) (w : W)
        → r.cookies s.session_cookie_name ≡ some id
        → ((user : User) → (get_from_session env s id w).0 ≢ ok user)
        → (get_handler env s r w).0.status ≢ 200
    unfolding get_handler
    get_handler_refuses r id w sent unknown = elim (Result-cases (get_from_session env s id w).0) [
      | inl (user, found) ↦ absurd (unknown user found)
      | inr (e, failed) ↦ λ fine. ground (arith, sent, failed, fine)
    ]

  module _ (cookie : Text) (username_validator password_validator : Option (Text → Option Error))
      (enqueuer : Option (UserCleanupJob → Command W)) where
    -- The API, with session/ as the session storage.
    abbrev domain : Domain W
    domain =
        new_domain env (session_storage db) cookie username_validator password_validator enqueuer

    abbrev api : String → Handler W
    api path = serve_domain domain path

    -- Over a table of sessions from which a DELETE removes its row: after POST /logout with a
    -- session's cookie was answered with 200, every request with that cookie, whatever its method, is
    -- answered with 401 or 500 by the middleware, whatever handler it guards, and GET /me does not
    -- answer one with 200.
    pub logout_then_unknown :
        (first later asking : Request W) (id : Text) (w : W)
        → first.method ≡ "POST"
        → first.cookies domain.service.session_cookie_name ≡ some id
        → (api "/logout" first w).0.status ≡ 200
        → later.cookies domain.service.session_cookie_name ≡ some id
        → asking.cookies domain.service.session_cookie_name ≡ some id
        → asking.method ≡ "GET"
        → let w₁ = (api "/logout" first w).1 in
          ((response : Response) × (w₂ : W) × ((response.status ≡ 401) ⊎ (response.status ≡ 500))
            × ((next : Handler W) → domain.middleware next later w₁ ≡ (response, w₂)))
          × ((api "/me" asking w₁).0.status ≢ 200)
    unfolding new_domain serve_mux find_route
    logout_then_unknown first later asking id w post sent done kept asked get =
        let s = domain.service in
        let logout : api "/logout" first w ≡ logout_handler env s first w = rw post refl in
        let w₁ = (logout_handler env s first w).1 in
        let me : api "/me" asking w₁ ≡ get_handler env s asking w₁ = rw get refl in
        let unknown : (user : User) → (get_from_session env s id w₁).0 ≢ ok user =
          λ user. logged_out s refl first id w user post sent (rw logout at done) in
        rw logout (
          elim (middleware_wrap_lem env s later w₁) [
            | inr guarded ↦ guarded
            | inl (user, value, sent', found, _, _) ↦
                let same : value ≡ id = cc in absurd (unknown user (rw same at found))
          ],
          rw me (get_handler_refuses s refl asking id w₁ asked unknown),
        )
