-- ===== src/Auth/Service.antt =====
-- auth/service.go, repository.go, model.go, cleanup.go and errors.go. `W` is the world: the SQL
-- server, the clock and the generators of random numbers. UserFromContext is the argument `user`.
pub mod Validation
pub mod Login
pub mod Deletion
use platforma.Base.{ℕ, String, ◌∷◌, ◌++◌, Bool, true, false, Option, none, some, ltb, if◌then◌else◌}
use platforma.Base.Text.{Text, codes, utf8_len, text_eq}
use platforma.Base.Errors.{Error, sentinel, join_two, Result, ok, err}
use platforma.Base.Action.{Action, Command, pure, fail, wrap_action, replace_error, ◌>>=◌}
use platforma.Session.{AuthStorage}

abbrev pub user_not_found : Error
user_not_found = sentinel "auth.ErrUserNotFound"

abbrev pub wrong_user_or_password : Error
wrong_user_or_password = sentinel "auth.ErrWrongUserOrPassword"

abbrev pub invalid_username : Error
invalid_username = sentinel "auth.ErrInvalidUsername"

abbrev pub short_username : Error
short_username = sentinel "auth.ErrShortUsername"

abbrev pub long_username : Error
long_username = sentinel "auth.ErrLongUsername"

abbrev pub invalid_password : Error
invalid_password = sentinel "auth.ErrInvalidPassword"

abbrev pub short_password : Error
short_password = sentinel "auth.ErrShortPassword"

abbrev pub long_password : Error
long_password = sentinel "auth.ErrLongPassword"

abbrev pub current_password_incorrect : Error
current_password_incorrect = sentinel "auth.ErrCurrentPasswordIncorrect"

pub data Status : Type 0 where
  active inactive deleted : Status

pub record User : Type 0 where
  pub id : Text
  pub username : Text
  pub password : Text
  pub salt : Text
  pub created : ℕ
  pub updated : ℕ
  pub status : Status

pub record UserCleanupJob : Type 0 where
  pub user_id : Text
  pub deleted_at : ℕ

-- What the code uses of the SQL server (one action per statement), of github.com/google/uuid, of
-- package time, and of golang.org/x/crypto/bcrypt.
pub record AuthEnv (W : Type 0) : Type 0 where
  pub select_user : Text → Action W User
  pub select_user_by_username : Text → Action W User
  pub insert_user : User → Command W
  pub update_user_password : (password salt id : Text) → Command W
  pub delete_user_row : Text → Command W
  pub new_uuid : W → Text × W
  pub time_now : W → ℕ × W
  pub generate_hash : Text → Action W Text
  pub compare_hash : (hash password : Text) → Option Error

-- The fields of Service that are not in the environment; nil is `none`.
pub record Service (W : Type 0) : Type 0 where
  pub auth_storage : AuthStorage W
  pub session_cookie_name : Text
  pub username_validator : Text → Option Error
  pub password_validator : Text → Option Error
  pub cleanup_enqueuer : Option (UserCleanupJob → Command W)

unfoldable pub default_password_validator : Text → Option Error
default_password_validator password =
    if ltb (utf8_len password) 8
    then some short_password
    else if ltb 100 (utf8_len password)
    then some long_password
    else none

unfoldable pub default_username_validator : Text → Option Error
default_username_validator username =
    if ltb (utf8_len username) 5
    then some short_username
    else if ltb 20 (utf8_len username)
    then some long_username
    else none

abbrev or_default {ℓ} : {A : Type ℓ} → Option A → A → A
or_default none d = d
or_default (some a) d = a

-- What is hashed: password + ":" + salt.
abbrev pub salted : (password salt : Text) → Text
salted password salt = password ++ b':' ∷ salt

module _ {W : Type 0} where
  unfoldable pub new_service :
      AuthStorage W
      → Text
      → (username_validator password_validator : Option (Text → Option Error))
      → Option (UserCleanupJob → Command W)
      → Service W
  new_service storage cookie username_validator password_validator enqueuer = record {
    auth_storage = storage;
    session_cookie_name = cookie;
    username_validator = or_default username_validator default_username_validator;
    password_validator = or_default password_validator default_password_validator;
    cleanup_enqueuer = enqueuer;
  }

  -- `if err != nil { return errors.Join(kind, err) }` on what a validator returns.
  abbrev reject : Error → Option Error → Command W
  reject kind none = pure tt
  reject kind (some e) = fail (join_two kind e)

  abbrev lift_error : Option Error → Command W
  lift_error none = pure tt
  lift_error (some e) = fail e

  abbrev read {ℓ} : {A : Type ℓ} → (W → A × W) → Action W A
  read f w = (ok (f w).0, (f w).1)

module _ {W : Type 0} (env : AuthEnv W) where
  -- Repository.Get, GetByUsername, Create, UpdatePassword and Delete.
  unfoldable pub repository_get : Text → Action W User
  repository_get id = wrap_action "failed to get user by id" (env.select_user id)

  unfoldable pub repository_get_by_username : Text → Action W User
  repository_get_by_username username =
      wrap_action "failed to get user by username" (env.select_user_by_username username)

  unfoldable pub repository_create : User → Command W
  repository_create user = wrap_action "failed to create user" (env.insert_user user)

  unfoldable pub repository_update_password : (id password salt : Text) → Command W
  repository_update_password id password salt =
      wrap_action "failed to update password" (env.update_user_password password salt id)

  unfoldable pub repository_delete : Text → Command W
  repository_delete id = wrap_action "failed to delete user" (env.delete_user_row id)

  -- Service.Get.
  unfoldable pub get : Text → Action W User
  unfolding repository_get
  get id = wrap_action "failed to get user" (repository_get id)

  module _ (s : Service W) where
    unfoldable pub get_from_session : Text → Action W User
    unfolding get text_eq
    get_from_session session_id = do
      user_id ←
          wrap_action "failed to get user id from request"
            (s.auth_storage.get_user_id_from_session_id session_id)
      if text_eq user_id (codes "") then fail user_not_found else get user_id

    -- The user that CreateWithLoginAndPassword builds.
    unfoldable pub new_user : (username hash salt : Text) → W → User × W
    new_user username hash salt w =
        let (id, w₁) = env.new_uuid w in
        let (created, w₂) = env.time_now w₁ in
        let (updated, w₃) = env.time_now w₂ in
        (
          record {
            id = id;
            username = username;
            password = hash;
            salt = salt;
            created = created;
            updated = updated;
            status = active;
          },
          w₃,
        )

    unfoldable pub create_with_login_and_password : (username password : Text) → Command W
    unfolding new_user repository_create
    create_with_login_and_password username password = do
      _ ← reject invalid_username (s.username_validator username)
      _ ← reject invalid_password (s.password_validator password)
      salt ← read env.new_uuid
      hash ←
          wrap_action "failed to generate password hash" (env.generate_hash (salted password salt))
      user ← read (new_user username hash salt)
      wrap_action "failed to create user" (repository_create user)

    unfoldable pub create_session_from_username_and_password :
        (username password : Text) → Action W Text
    unfolding repository_get_by_username
    create_session_from_username_and_password username password = do
      user ← replace_error wrong_user_or_password (repository_get_by_username username)
      _ ←
          replace_error wrong_user_or_password
            (lift_error (env.compare_hash user.password (salted password user.salt)))
      wrap_action "failed to create session" (s.auth_storage.create_session_for_user user.id)

    unfoldable pub delete_session : Text → Command W
    delete_session session_id =
        wrap_action "failed to delete session" (s.auth_storage.delete_session session_id)

    -- NewService leaves no validator nil.
    unfoldable pub change_password :
        Option User → (current_password new_password : Text) → Command W
    unfolding repository_update_password
    change_password none current_password new_password = fail user_not_found
    change_password (some user) current_password new_password = do
      _ ← reject invalid_password (s.password_validator new_password)
      _ ←
          replace_error current_password_incorrect
            (lift_error (env.compare_hash user.password (salted current_password user.salt)))
      salt ← read env.new_uuid
      hash ←
          wrap_action "failed to generate password hash"
            (env.generate_hash (salted new_password salt))
      wrap_action "failed to update password" (repository_update_password user.id hash salt)

    -- An error of the cleanup queue is logged only.
    abbrev enqueue_cleanup : Option (UserCleanupJob → Command W) → Text → Command W
    enqueue_cleanup none user_id w = (ok tt, w)
    enqueue_cleanup (some enqueue) user_id w =
        let (time, w₁) = env.time_now w in
        (ok tt, (enqueue (record { user_id = user_id; deleted_at = time }) w₁).1)

    unfoldable pub delete_user : Option User → Command W
    unfolding repository_delete
    delete_user none = fail user_not_found
    delete_user (some user) = do
      _ ←
          wrap_action "failed to delete user sessions"
            (s.auth_storage.delete_sessions_by_user_id user.id)
      _ ← wrap_action "failed to delete user" (repository_delete user.id)
      enqueue_cleanup s.cleanup_enqueuer user.id
