-- ===== src/Auth/Service/Validation.antt =====
-- The default validators, and what package bcrypt makes of the passwords they accept.
use platforma.Base.{◌≤◌, ◌<◌, ◌≡◌, ◌↔◌, ◌∷◌, Option, none, arith}
use platforma.Base.Text.{Text, utf8_len, utf8_len-append}
use platforma.Base.Errors.{Error, wrapped, err}
use platforma.Base.Action.{Command}
use platforma.Session.{AuthStorage}
use platforma.Auth.Service.{
  AuthEnv, UserCleanupJob, new_service, default_password_validator, default_username_validator,
  create_with_login_and_password, salted,
}

-- The default validators accept passwords of 8 to 100 bytes and usernames of 5 to 20 bytes.
pub default_validators_iff :
    (text : Text)
    → ((default_password_validator text ≡ none) ↔ ((8 ≤ utf8_len text) × (utf8_len text ≤ 100)))
      × ((default_username_validator text ≡ none) ↔ ((5 ≤ utf8_len text) × (utf8_len text ≤ 20)))
unfolding default_password_validator default_username_validator
default_validators_iff text = (ground arith, ground arith)

-- Documented of the packages: bcrypt refuses more than 72 bytes, and a UUID is printed in 36.
pub record HashLimit {W : Type 0} (env : AuthEnv W) : Type 0 where
  pub refused :
      (text : Text) (w : W)
      → 72 < utf8_len text
      → (e : Error) × ((env.generate_hash text w).0 ≡ err e)
  pub uuid_len : (w : W) → utf8_len (env.new_uuid w).0 ≡ 36

module _ {W : Type 0} (env : AuthEnv W) where
  salted_too_long :
      (password salt : Text)
      → utf8_len salt ≡ 36
      → 36 ≤ utf8_len password
      → 72 < utf8_len (salted password salt)
  unfolding utf8_len
  salted_too_long password salt k h = omega (arith, utf8_len-append password (b':' ∷ salt))

  -- With the default validators, a UUID of 36 bytes as salt, and a bcrypt that refuses more than 72
  -- bytes, no password of 36 to 100 bytes can be registered under a valid username, although the
  -- validator accepts it: hashing fails.
  pub create_with_login_and_password_too_long :
      (limit : HashLimit env) (storage : AuthStorage W) (cookie : Text)
      (enqueuer : Option (UserCleanupJob → Command W)) (username password : Text) (w : W)
      → default_username_validator username ≡ none
      → 36 ≤ utf8_len password
      → utf8_len password ≤ 100
      → let s = new_service storage cookie none none enqueuer in
        (e : Error) × (default_password_validator password ≡ none)
        × ((create_with_login_and_password env s username password w).0
            ≡ err (wrapped "failed to generate password hash" e))
  unfolding new_service create_with_login_and_password default_password_validator
  create_with_login_and_password_too_long limit storage cookie enqueuer username password w v long
        short =
      let (e, refused) =
        limit.refused (salted password (env.new_uuid w).0) (env.new_uuid w).1
          (salted_too_long password (env.new_uuid w).0 (limit.uuid_len w) long) in
      (e, ground arith, ground (arith, v, refused))
