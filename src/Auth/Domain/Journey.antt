-- ===== src/Auth/Domain/Journey.antt =====
-- From registering to being known: the handlers of auth/ over the sessions of session/.
use platforma.Base.{◌≡◌, ◌≢◌, refl, String, Option, none, some, arith, [], eq_iff}
use platforma.Base.Text.{Text, text_eq_iff}
use platforma.Base.Errors.{Error, ok}
use platforma.Base.Action.{Command}
use platforma.Session.{SessionDb, session_storage, create_session, user_id_of_session}
use platforma.Session.Expiry.{SessionTable, create_session-user_id_of_session}
use platforma.Auth.Service.{
  AuthEnv, Service, User, UserCleanupJob, salted, get, get_from_session,
  create_with_login_and_password, create_session_from_username_and_password,
}
use platforma.Auth.Service.Login.{
  create_with_login_and_password-CreatedUser, create_session_from_username_and_password_fits,
}
use platforma.Auth.Http.{
  Request, Cookie, Handler, json_username, register_handler, login_handler, get_handler,
}
use platforma.Auth.Http.Statuses.{register_handler-created_iff, login_handler-cookie_iff}
use platforma.Auth.Domain.{Domain, new_domain, serve_domain, serve_mux, find_route}

-- What the code relies on of the two tables and of the packages. `Stored` says that a user's row is
-- in the table of users: an INSERT puts it there, both SELECTs find it, and the statements of a
-- login leave it there.
pub record Journey {W : Type 0} (env : AuthEnv W) (db : SessionDb W) : Type 1 where
  pub Stored : User → W → Type 0
  pub inserted :
      (user : User) (w : W)
      → (env.insert_user user w).0 ≡ ok tt
      → Stored user (env.insert_user user w).1
  pub by_name :
      (user : User) (w : W)
      → Stored user w
      → (env.select_user_by_username user.username w).0 ≡ ok user
  pub by_id : (user : User) (w : W) → Stored user w → (env.select_user user.id w).0 ≡ ok user
  pub kept_by_name :
      (user : User) (name : Text) (w : W)
      → Stored user w
      → Stored user (env.select_user_by_username name w).1
  pub kept_by_session :
      (user : User) (id : Text) (w : W) → Stored user w → Stored user (create_session db id w).1
  pub kept_by_lookup :
      (user : User) (id : Text) (w : W) → Stored user w → Stored user (db.select_session id w).1
  pub sessions : SessionTable db
  pub matches :
      (text hash : Text) (w : W)
      → (env.generate_hash text w).0 ≡ ok hash
      → env.compare_hash hash text ≡ none
  pub uuid_filled : (w : W) → (env.new_uuid w).0 ≢ []

module _ {W : Type 0} (env : AuthEnv W) (db : SessionDb W) (journey : Journey env db) where
  open journey use {Stored}

  module _ (s : Service W) (storage : s.auth_storage ≡ session_storage db) where
    -- A session of a stored user is resolved to the user.
    session_resolves :
        (user : User) (id : Text) (w : W)
        → Stored user w
        → user.id ≢ []
        → (user_id_of_session db id w).0 ≡ ok user.id
        → (get_from_session env s id w).0 ≡ ok user
    unfolding get_from_session user_id_of_session get
    session_resolves user id w stored filled owned = ground (
      arith,
      storage,
      owned,
      filled,
      text_eq_iff user.id [],
      journey.by_id user (db.select_session id w).1 (journey.kept_by_lookup user id w stored),
    )

    -- A stored user whose password fits gets a session that leads back to the user.
    login_leads_back :
        (user : User) (username password id : Text) (w : W)
        → Stored user w
        → user.username ≡ username
        → user.id ≢ []
        → env.compare_hash user.password (salted password user.salt) ≡ none
        → (create_session_from_username_and_password env s username password w).0 ≡ ok id
        → (get_from_session env s id
            (create_session_from_username_and_password env s username password w).1).0
          ≡ ok user
    login_leads_back user username password id w stored named filled fit logged_in =
        let found : (env.select_user_by_username username w).0 ≡ ok user =
          rw (← named) (journey.by_name user w stored) in
        let w₁ = (env.select_user_by_username username w).1 in
        let login =
          create_session_from_username_and_password_fits env s user username password w found fit in
        let created : (create_session db user.id w₁).0 ≡ ok id =
          ground (arith, storage, login, logged_in) in
        let ends : (create_session_from_username_and_password env s username password w).1
            ≡ (create_session db user.id w₁).1 =
          ground (arith, storage, login) in
        rw ends (
          session_resolves user id (create_session db user.id w₁).1
            (journey.kept_by_session user user.id w₁ (journey.kept_by_name user username w stored))
            filled (create_session-user_id_of_session db journey.sessions user.id id w₁ created))

  module _ (s : Service W) (username password : Text) (r : Request W) (w : W)
      (post : r.method ≡ "POST") (body : r.fields ≡ some (username, password)) where
    register_handler-created :
        (register_handler env s r w).0.status ≡ 201
        → ((create_with_login_and_password env s username password w).0 ≡ ok tt)
          × ((register_handler env s r w).1
              ≡ (create_with_login_and_password env s username password w).1)
    register_handler-created h =
        let (_, login, word, fields, done) = (register_handler-created_iff env s r w).0 h in
        (cc, unfold register_handler in ground (arith, post, body))

    login_handler-logged_in :
        (c : Cookie)
        → (login_handler env s r w).0.cookie ≡ some c
        → ((create_session_from_username_and_password env s username password w).0 ≡ ok c.value)
          × (c.name ≡ s.session_cookie_name)
          × ((login_handler env s r w).1
              ≡ (create_session_from_username_and_password env s username password w).1)
    login_handler-logged_in c h =
        let (_, login, word, fields, done, _, same) = (login_handler-cookie_iff env s r w c).0 h in
        (cc, cc, unfold login_handler in ground (arith, post, body))

  -- A user who registers and logs in is known by the cookie.
  pub handlers_known :
      (s : Service W) (username password : Text) (first second : Request W) (c : Cookie) (w : W)
      → s.auth_storage ≡ session_storage db
      → first.method ≡ "POST"
      → first.fields ≡ some (username, password)
      → (register_handler env s first w).0.status ≡ 201
      → second.method ≡ "POST"
      → second.fields ≡ some (username, password)
      → (login_handler env s second (register_handler env s first w).1).0.cookie ≡ some c
      → let w₂ = (login_handler env s second (register_handler env s first w).1).1 in
        (user : User) × (user.username ≡ username)
        × (c.name ≡ s.session_cookie_name)
        × ((get_from_session env s c.value w₂).0 ≡ ok user)
  handlers_known s username password first second c w storage m₁ f₁ r₁ m₂ f₂ r₂ =
      let (done, w₁) = register_handler-created s username password first w m₁ f₁ r₁ in
      let u = create_with_login_and_password-CreatedUser env s username password w done in
      let stored : Stored u.user (register_handler env s first w).1 =
        rw (w₁, u.end) (journey.inserted u.user u.inserting u.inserted) in
      let (logged_in, cookie_name, w₂) =
        login_handler-logged_in s username password second (register_handler env s first w).1 m₂ f₂
          c r₂ in
      let filled : u.user.id ≢ [] = rw u.id_fresh (journey.uuid_filled u.naming) in
      let known =
        login_leads_back s storage u.user username password c.value
          (register_handler env s first w).1 stored u.named filled
          (journey.matches (salted password u.user.salt) u.user.password u.hashing u.hashed)
          logged_in in
      (u.user, u.named, cookie_name, rw w₂ known)

  get_handler-username :
      (s : Service W) (user : User) (r : Request W) (c : Cookie) (w : W)
      → r.method ≡ "GET"
      → r.cookies c.name ≡ some c.value
      → c.name ≡ s.session_cookie_name
      → (get_from_session env s c.value w).0 ≡ ok user
      → ((get_handler env s r w).0.status ≡ 200)
        × ((get_handler env s r w).0.body ≡ json_username user.username)
  unfolding get_handler
  get_handler-username s user r c w get sent cookie_name known =
      let sent' : r.cookies s.session_cookie_name ≡ some c.value = rw (← cookie_name) sent in
      (
        ground (arith, eq_iff r.method "GET", get, sent', known),
        ground (arith, eq_iff r.method "GET", get, sent', known),
      )

  module _ (cookie : Text) (username_validator password_validator : Option (Text → Option Error))
      (enqueuer : Option (UserCleanupJob → Command W)) where
    -- The API, with session/ as the session storage.
    abbrev domain : Domain W
    domain =
        new_domain env (session_storage db) cookie username_validator password_validator enqueuer

    abbrev api : String → Handler W
    api path = serve_domain domain path

    -- Over tables that keep the rows put into them, with a bcrypt whose hashes fit what they are made
    -- of and UUIDs that are not empty: after POST /register was answered with 201, if POST /login
    -- with the same body sets a cookie, then a request with that cookie is known as one of the user
    -- registered: GET /me answers 200 with the username.
    pub register_login_me :
        (username password : Text) (first second third : Request W) (c : Cookie) (w : W)
        → first.method ≡ "POST"
        → first.fields ≡ some (username, password)
        → (api "/register" first w).0.status ≡ 201
        → let w₁ = (api "/register" first w).1 in
          second.method ≡ "POST"
          → second.fields ≡ some (username, password)
          → (api "/login" second w₁).0.cookie ≡ some c
          → let w₂ = (api "/login" second w₁).1 in
            third.method ≡ "GET"
            → third.cookies c.name ≡ some c.value
            → let r = (api "/me" third w₂).0 in (r.status ≡ 200) × (r.body ≡ json_username username)
    unfolding new_domain serve_mux find_route
    register_login_me username password first second third c w m₁ f₁ r₁ m₂ f₂ r₂ m₃ sent =
        let s = domain.service in
        let register : api "/register" first w ≡ register_handler env s first w = rw m₁ refl in
        let login : api "/login" second (api "/register" first w).1
            ≡ login_handler env s second (register_handler env s first w).1 =
          rw (m₂, register) refl in
        let me : api "/me" third (api "/login" second (api "/register" first w).1).1
            ≡ get_handler env s third
                (login_handler env s second (register_handler env s first w).1).1 =
          rw (m₃, login) refl in
        let w₂ = (login_handler env s second (register_handler env s first w).1).1 in
        let (user, named, cookie_name, known) =
          handlers_known s username password first second c w refl m₁ f₁ (rw register at r₁) m₂ f₂
            (rw login at r₂) in
        rw (me, ← named) (get_handler-username s user third c w₂ m₃ sent cookie_name known)
