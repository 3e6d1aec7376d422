-- ===== src/Auth/Http/Statuses.antt =====
-- Which requests the handlers of auth/ accept.
use platforma.Base.{
  ◌≡◌, ◌≢◌, ◌↔◌, ◌⊎◌, inl, inr, refl, none, some, arith, str_eq, eq_iff, Option-cases, Bool-cases,
  subst,
}
use platforma.Base.Text.{Text, codes, text_eq, text_eq_iff}
use platforma.Base.Errors.{ok, Result-cases}
use platforma.Auth.Service.{
  AuthEnv, Service, User, get_from_session, create_with_login_and_password,
  create_session_from_username_and_password,
}
use platforma.Auth.Http.{
  Cookie, Request, Response, Handler, register_handler, register_failure, login_handler,
  login_failure, middleware_wrap, middleware_failure, authenticated, session_cookie, note_user,
  no_body,
}

module _ {W : Type 0} (env : AuthEnv W) (s : Service W) where
  -- The register handler answers 201 exactly for a POST whose body decodes and whose registration
  -- succeeds.
  pub register_handler-created_iff :
      (r : Request W) (w : W)
      → ((register_handler env s r w).0.status ≡ 201) ↔ (
          (r.method ≡ "POST")
          × (login : Text) × (password : Text) × (r.fields ≡ some (login, password))
          × ((create_with_login_and_password env s login password w).0 ≡ ok tt))
  unfolding register_handler register_failure
  register_handler-created_iff r w = (
    λ h. elim (Bool-cases (str_eq r.method "POST")) [
      | inr other ↦ absurd (ground (arith, other))
      | inl post ↦ elim (Option-cases r.fields) [
        | inl empty ↦ absurd (ground (arith, post, empty))
        | inr ((login, password), decoded) ↦
            elim (Result-cases (create_with_login_and_password env s login password w).0) [
              | inr (e, failed) ↦ absurd (ground (arith, post, decoded, failed))
              | inl (_, created) ↦
                  ((eq_iff r.method "POST").0 post, login, password, decoded, created)
            ]
      ]
    ],
    λ c. ground (arith, eq_iff r.method "POST"),
  )

  abbrev pub Sets : Request W → W → Cookie → Type 0
  Sets r w c =
      (r.method ≡ "POST")
      × (login : Text) × (password : Text) × (r.fields ≡ some (login, password))
      × ((create_session_from_username_and_password env s login password w).0 ≡ ok c.value)
      × (c.value ≢ codes "")
      × (c ≡ session_cookie env s c.value)

  -- The login handler sets a cookie exactly for a POST whose body decodes and whose login gives a
  -- session ID that is not empty, and it is then the session cookie with that ID.
  pub login_handler-cookie_iff :
      (r : Request W) (w : W) (c : Cookie)
      → ((login_handler env s r w).0.cookie ≡ some c) ↔ Sets r w c
  unfolding login_handler login_failure
  login_handler-cookie_iff r w k = (
    λ h. elim (Bool-cases (str_eq r.method "POST")) [
      | inr other ↦ absurd (ground (arith, other))
      | inl post ↦ elim (Option-cases r.fields) [
        | inl empty ↦ absurd (ground (arith, post, empty))
        | inr ((login, password), decoded) ↦
            elim (Result-cases
              (create_session_from_username_and_password env s login password w).0) [
                | inr (e, failed) ↦ absurd (ground (arith, post, decoded, failed))
                | inl (id, created) ↦ elim (Bool-cases (text_eq id (codes ""))) [
                  | inl empty ↦ absurd (ground (arith, post, decoded, created, empty))
                  | inr filled ↦
                      let e : session_cookie env s id ≡ k =
                        ground (arith, post, decoded, created, filled) in
                      subst (λ c. Sets r w c) e
                        (
                          (eq_iff r.method "POST").0 post,
                          login,
                          password,
                          decoded,
                          created,
                          λ same. ground (arith, filled, text_eq_iff id (codes "")),
                          refl,
                        )
                ]
              ]
      ]
    ],
    λ c.
        let (post, login, password, decoded, created, filled, e) = c in
        rw e (
          ground (
            arith,
            post,
            decoded,
            created,
            eq_iff r.method "POST",
            text_eq_iff k.value (codes ""),
            filled,
          )),
  )

  -- The middleware either passes the request on with the user of the session that its cookie
  -- names, or answers 401 or 500 in a way that does not depend on the next handler.
  pub middleware_wrap_lem :
      (r : Request W) (w : W)
      → ((user : User) × (value : Text) × (r.cookies s.session_cookie_name ≡ some value)
          × ((get_from_session env s value w).0 ≡ ok user)
          × (w' : W) × ((next : Handler W)
              → middleware_wrap env s next r w ≡ next (authenticated r user) w'))
        ⊎ ((response : Response) × (w' : W) × ((response.status ≡ 401) ⊎ (response.status ≡ 500))
            × ((next : Handler W) → middleware_wrap env s next r w ≡ (response, w')))
  unfolding middleware_wrap middleware_failure
  middleware_wrap_lem r w = elim (Option-cases (r.cookies s.session_cookie_name)) [
    | inl none_sent ↦ inr (
      record { status = 401; cookie = none; body = no_body },
      w,
      inl refl,
      λ next. ground (arith, none_sent),
    )
    | inr (value, sent) ↦ elim (Result-cases (get_from_session env s value w).0) [
      | inl (user, found) ↦ inl (
        user,
        value,
        sent,
        found,
        note_user env s r.add_attrs user (get_from_session env s value w).1,
        λ next. ground (arith, sent, found),
      )
      | inr (e, failed) ↦ inr (
        middleware_failure e,
        (get_from_session env s value w).1,
        ground arith,
        λ next. ground (arith, sent, failed),
      )
    ]
  ]
