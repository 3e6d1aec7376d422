-- ===== src/Demo/Auth/Profile.antt =====
-- Who gets the page for users of demo-app/cmd/auth/main.go.
use platforma.Base.{
  ◌≡◌, ◌∙◌, refl, ◌⊎◌, inl, inr, String, List, [], ◌∷◌, ◌++◌, none, some, arith, Bool-cases,
  Option-cases,
}
use platforma.Base.Dict.{lookup, lookup-insert}
use platforma.Base.Text.{Text, codes}
use platforma.Base.Errors.{Error, is_error, ok, Result-cases}
use platforma.Log.Logger.{Context}
use platforma.Session.{SessionDb, session_storage}
use platforma.Auth.Service.{AuthEnv, Service, User, get_from_session}
use platforma.Auth.Http.{
  message, no_body, Request, Cookie, middleware_failure, register_handler, login_handler,
}
use platforma.Demo.Replies.{
  Reply, with_headers, answered, text, recover_middleware, auth_middleware,
}
use platforma.Auth.Domain.{new_domain}
use platforma.Auth.Domain.Journey.{Journey, handlers_known}
use platforma.Demo.Auth.{auth_domain, profile}
use platforma.Demo.Serving.{at, root, traced_context, traced_headers}
use platforma.Demo.Auth.Routes.{
  api, register_route, login_route, profile_route, page_group, page_group_route,
}

-- What the middleware answers itself: nothing behind 401, and its own message behind 500.
abbrev pub Refused : Reply → Type 0
Refused reply =
    ((reply.status ≡ some 401) × (reply.pages ≡ answered no_body ∷ []))
    ⊎ ((reply.status ≡ some 500) × (reply.pages ≡ answered (message "failed to get user") ∷ []))

failure-Refused :
    (e : Error) (reply : Reply)
    → reply.status ≡ some (middleware_failure e).status
    → reply.pages ≡ answered (middleware_failure e).body ∷ []
    → Refused reply
unfolding middleware_failure
failure-Refused e reply h p = elim (Bool-cases (is_error e "auth.ErrUserNotFound")) [
  | inl unknown ↦ inl (ground (arith, unknown), ground (arith, unknown))
  | inr other ↦ inr (ground (arith, other), ground (arith, other))
]

module _ {W : Type 0} (env : AuthEnv W) (s : Service W) where
  -- The page for the user of the session that the cookie names, or a refusal.
  abbrev pub Guarded : Request W → W → Reply → Type 0
  Guarded r w reply =
      (reply.panic ≡ none)
      × (((user : User) × (value : Text) × (r.cookies s.session_cookie_name ≡ some value)
            × ((get_from_session env s value w).0 ≡ ok user)
            × (reply.status ≡ some 200)
            × (reply.pages ≡ text (codes "Welcome, " ++ user.username) ∷ []))
          ⊎ Refused reply)

  -- Behind the middleware, the handler of the page needs no RecoverMiddleware.
  pub guarded :
      (ctx : Context) (headers : List (String × String)) (r : Request W) (w : W)
      → let reply = (auth_middleware env s profile root ctx headers r w).0 in
        Guarded r w reply × (reply.headers ≡ headers)
  unfolding middleware_failure
  guarded ctx headers r w = elim (Option-cases (r.cookies s.session_cookie_name)) [
    | inl none_sent ↦ (
      (ground (arith, none_sent), inr (inl (ground (arith, none_sent), ground (arith, none_sent)))),
      ground (arith, none_sent),
    )
    | inr (value, sent) ↦ elim (Result-cases (get_from_session env s value w).0) [
      | inl (user, found) ↦ (
        (
          ground (arith, sent, found),
          inl (user, value, sent, found, ground (arith, sent, found), ground (arith, sent, found)),
        ),
        ground (arith, sent, found),
      )
      | inr (e, failed) ↦ (
        (
          ground (arith, sent, failed),
          inr (
              failure-Refused e (auth_middleware env s profile root ctx headers r w).0
                (ground (arith, sent, failed)) (ground (arith, sent, failed))),
        ),
        ground (arith, sent, failed),
      )
    ]
  ]

  -- And RecoverMiddleware changes nothing.
  pub unrecovered :
      (ctx : Context) (headers : List (String × String)) (r : Request W) (w : W)
      → recover_middleware (auth_middleware env s profile) root ctx headers r w
        ≡ auth_middleware env s profile root ctx headers r w
  unrecovered ctx headers r w = let ((calm, _), _) = guarded ctx headers r w in rw calm refl

  welcomed :
      (ctx : Context) (headers : List (String × String)) (r : Request W) (user : User)
      (value : Text) (w : W)
      → r.cookies s.session_cookie_name ≡ some value
      → (get_from_session env s value w).0 ≡ ok user
      → let reply = (auth_middleware env s profile root ctx headers r w).0 in
        (reply.status ≡ some 200) × (reply.pages ≡ text (codes "Welcome, " ++ user.username) ∷ [])
  welcomed ctx headers r user value w sent found =
      (ground (arith, sent, found), ground (arith, sent, found))

module _ {W : Type 0} (env : AuthEnv W) (db : SessionDb W) (new_id : Context → String) where
  pub storage : (auth_domain env db).service.auth_storage ≡ session_storage db
  unfolding new_domain
  storage = refl

  pub page_route :
      (ctx : Context) (headers : List (String × String)) (r : Request W) (w : W)
      → at (api env db new_id) "/api/profile" ctx headers r w
        ≡ auth_middleware env
            (auth_domain env db).service
            profile
            root
            (traced_context new_id ctx)
            (traced_headers new_id ctx headers)
            r
            w
  page_route ctx headers r w =
      profile_route env db new_id ctx headers r w
      ∙ unrecovered env (auth_domain env db).service (traced_context new_id ctx)
          (traced_headers new_id ctx headers) r w

  -- A request for /api/profile, whatever its method, gets the page that welcomes the user of the
  -- session that its cookie names, or the authentication middleware's own answer, 401 or 500 with
  -- "failed to get user", and the response carries the trace ID. Nothing panics, and neither does the
  -- group of the page without RecoverMiddleware around it: its handler never runs without a user.
  pub profile-Guarded :
      (ctx : Context) (headers : List (String × String)) (r : Request W) (w : W)
      → let reply = (at (api env db new_id) "/api/profile" ctx headers r w).0 in
        Guarded env (auth_domain env db).service r w reply
        × (lookup "Platforma-Trace-Id" reply.headers ≡ some (new_id ctx))
        × ((page_group env db ctx headers r w).0.panic ≡ none)
  profile-Guarded ctx headers r w =
      let s = (auth_domain env db).service in
      let ctx' = traced_context new_id ctx in
      let headers' = traced_headers new_id ctx headers in
      let (page, kept) = guarded env s ctx' headers' r w in
      rw (page_route ctx headers r w) (
        page,
        rw kept (lookup-insert "Platforma-Trace-Id" "Platforma-Trace-Id" (new_id ctx) headers),
        rw (page_group_route env db ctx headers r w) (guarded env s ctx headers r w).0.0,
      )

  -- Over tables that keep the rows put into them, with a bcrypt whose hashes fit what they are made
  -- of and UUIDs that are not empty: after POST /auth/register was answered with 201, if POST
  -- /auth/login with the same body sets a cookie, then a request for /api/profile with that cookie,
  -- whatever its method, is answered with 200 and a page that welcomes the username registered.
  pub register_login_profile :
      Journey env db
      → (username password : Text) (first second third : Request W) (c : Cookie)
        (ctx₁ ctx₂ ctx₃ : Context) (h₁ h₂ h₃ : List (String × String)) (w : W)
      → first.method ≡ "POST"
      → first.fields ≡ some (username, password)
      → (at (api env db new_id) "/auth/register" ctx₁ h₁ first w).0.status ≡ some 201
      → let w₁ = (at (api env db new_id) "/auth/register" ctx₁ h₁ first w).1 in
        second.method ≡ "POST"
        → second.fields ≡ some (username, password)
        → (at (api env db new_id) "/auth/login" ctx₂ h₂ second w₁).0.cookie ≡ some c
        → let w₂ = (at (api env db new_id) "/auth/login" ctx₂ h₂ second w₁).1 in
          third.cookies c.name ≡ some c.value
          → let reply = (at (api env db new_id) "/api/profile" ctx₃ h₃ third w₂).0 in
            (reply.status ≡ some 200) × (reply.pages ≡ text (codes "Welcome, " ++ username) ∷ [])
  register_login_profile journey username password first second third c ctx₁ ctx₂ ctx₃ h₁ h₂ h₃ w m₁
        f₁ r₁ m₂ f₂ r₂ sent =
      let s = (auth_domain env db).service in
      let register = register_route env db new_id ctx₁ h₁ first w m₁ in
      let created : (register_handler env s first w).0.status ≡ 201 =
        let e = rw register at r₁ in cc in
      let w₁ = (register_handler env s first w).1 in
      let login : at (api env db new_id) "/auth/login" ctx₂ h₂ second
            (at (api env db new_id) "/auth/register" ctx₁ h₁ first w).1
          ≡ with_headers (traced_headers new_id ctx₂ h₂) (login_handler env s second w₁) =
        rw register (login_route env db new_id ctx₂ h₂ second w₁ m₂) in
      let w₂ = (login_handler env s second w₁).1 in
      let (user, named, cookie_name, known) =
        handlers_known env db journey s username password first second c w storage m₁ f₁ created m₂
          f₂ (rw login at r₂) in
      let sent' : third.cookies s.session_cookie_name ≡ some c.value = rw (← cookie_name) sent in
      rw (login, page_route ctx₃ h₃ third w₂, ← named)
        (welcomed env s (traced_context new_id ctx₃) (traced_headers new_id ctx₃ h₃) third user
          c.value w₂ sent' known)
