-- ===== src/Auth/Service/Login.antt =====
-- Registering, logging in and changing the password.
use platforma.Base.{◌≡◌, ◌↔◌, ◌⊎◌, inl, inr, refl, none, some, arith, Option-cases}
use platforma.Base.Text.{Text}
use platforma.Base.Errors.{Error, ok, err, Result-cases}
use platforma.Base.Action.{wrap_action}
use platforma.Auth.Service.{
  AuthEnv, Service, User, active, salted, wrong_user_or_password, new_user,
  create_with_login_and_password, create_session_from_username_and_password, change_password,
}

-- What the code relies on: a row that was inserted is selected by its username, which is UNIQUE,
-- and a hash that bcrypt made fits the password it was made of.
pub record Accounts {W : Type 0} (env : AuthEnv W) : Type 0 where
  pub selected :
      (user : User) (w : W)
      → (env.insert_user user w).0 ≡ ok tt
      → (env.select_user_by_username user.username (env.insert_user user w).1).0 ≡ ok user
  pub matches :
      (text hash : Text) (w : W)
      → (env.generate_hash text w).0 ≡ ok hash
      → env.compare_hash hash text ≡ none

-- What the code relies on of bcrypt alone.
pub record Bcrypt {W : Type 0} (env : AuthEnv W) : Type 0 where
  pub fits :
      (text hash : Text) (w : W)
      → (env.generate_hash text w).0 ≡ ok hash
      → env.compare_hash hash text ≡ none

-- What a successful registration did: it hashed the salted password, and inserted the user.
pub record CreatedUser {W : Type 0} (env : AuthEnv W) (username password : Text) (w' : W)
    : Type 0 where
  pub user : User
  pub hashing : W
  pub naming : W
  pub inserting : W
  pub named : user.username ≡ username
  pub activated : user.status ≡ active
  pub id_fresh : user.id ≡ (env.new_uuid naming).0
  pub hashed : (env.generate_hash (salted password user.salt) hashing).0 ≡ ok user.password
  pub inserted : (env.insert_user user inserting).0 ≡ ok tt
  pub end : w' ≡ (env.insert_user user inserting).1

module _ {W : Type 0} (env : AuthEnv W) (s : Service W) where
  pub create_with_login_and_password-CreatedUser :
      (username password : Text) (w : W)
      → (create_with_login_and_password env s username password w).0 ≡ ok tt
      → CreatedUser env username password
          (create_with_login_and_password env s username password w).1
  unfolding create_with_login_and_password
  create_with_login_and_password-CreatedUser username password w h =
      elim (Option-cases (s.username_validator username)) [
        | inr (e, bad) ↦ absurd (ground (arith, bad))
        | inl good_username ↦ elim (Option-cases (s.password_validator password)) [
          | inr (e, bad) ↦ absurd (ground (arith, good_username, bad))
          | inl good_password ↦
              elim (Result-cases (env.generate_hash (salted password salt) w₁).0) [
                | inr (e, bad) ↦ absurd (ground (arith, good_username, good_password, bad))
                | inl (hash, hashed) ↦
                    elim (Result-cases (env.insert_user (user hash) (w₂ hash)).0) [
                      | inr (e, bad) ↦
                          absurd (ground (arith, good_username, good_password, hashed, bad))
                      | inl (_, inserted) ↦ record {
                        user = user hash;
                        hashing = w₁;
                        naming = (env.generate_hash (salted password salt) w₁).1;
                        inserting = w₂ hash;
                        named = refl;
                        activated = refl;
                        id_fresh = refl;
                        hashed = hashed;
                        inserted = inserted;
                        end = ground (arith, good_username, good_password, hashed, inserted);
                      }
                    ]
              ]
        ]
      ]
    where
      salt : Text
      salt = (env.new_uuid w).0

      w₁ : W
      w₁ = (env.new_uuid w).1

      built : Text → User × W
      built hash = new_user env s username hash salt (env.generate_hash (salted password salt) w₁).1

      user : Text → User
      user hash = (built hash).0

      w₂ : Text → W
      w₂ hash = (built hash).1

  -- A login whose user is found and whose password fits.
  pub create_session_from_username_and_password_fits :
      (user : User) (username password : Text) (w : W)
      → (env.select_user_by_username username w).0 ≡ ok user
      → env.compare_hash user.password (salted password user.salt) ≡ none
      → create_session_from_username_and_password env s username password w
        ≡ wrap_action "failed to create session"
            (s.auth_storage.create_session_for_user user.id)
            (env.select_user_by_username username w).1
  unfolding create_session_from_username_and_password
  create_session_from_username_and_password_fits user username password w found fit =
      ground (arith, found, fit)

  -- If inserted rows are found by their username and bcrypt's hashes fit what they are made of:
  -- after a registration succeeded, a login with the same username and password gets to the session
  -- storage with the new, active user, and its result is that of creating a session.
  pub create_with_login_and_password_login :
      (accounts : Accounts env) (username password : Text) (w : W)
      → (create_with_login_and_password env s username password w).0 ≡ ok tt
      → let w' = (create_with_login_and_password env s username password w).1 in
        (user : User) × (user.username ≡ username)
        × (user.status ≡ active)
        × (create_session_from_username_and_password env s username password w'
            ≡ wrap_action "failed to create session"
                (s.auth_storage.create_session_for_user user.id)
                (env.select_user_by_username username w').1)
  create_with_login_and_password_login accounts username password w h =
      let c = create_with_login_and_password-CreatedUser username password w h in
      (
        c.user,
        c.named,
        c.activated,
        create_session_from_username_and_password_fits c.user username password _
            (rw (c.end, ← c.named) (accounts.selected c.user c.inserting c.inserted))
            (accounts.matches (salted password c.user.salt) c.user.password c.hashing c.hashed),
      )

  -- Logging in fails with ErrWrongUserOrPassword, whether no such user is found or the password
  -- does not fit, and in no other case.
  pub create_session_from_username_and_password-wrong_iff :
      (username password : Text) (w : W)
      → ((create_session_from_username_and_password env s username password w).0
          ≡ err wrong_user_or_password)
        ↔ (((e : Error) × ((env.select_user_by_username username w).0 ≡ err e))
            ⊎ ((user : User) × (e : Error) × ((env.select_user_by_username username w).0 ≡ ok user)
                × (env.compare_hash user.password (salted password user.salt) ≡ some e)))
  unfolding create_session_from_username_and_password
  create_session_from_username_and_password-wrong_iff username password w = (
    λ h. elim (Result-cases (env.select_user_by_username username w).0) [
      | inr (e, missing) ↦ inl (e, missing)
      | inl (user, found) ↦
          elim (Option-cases (env.compare_hash user.password (salted password user.salt))) [
            | inr (e, unfit) ↦ inr (user, e, found, unfit)
            | inl fit ↦ absurd (ground (arith, found, fit))
          ]
    ],
    λ c. ground arith,
  )

  -- If bcrypt's hashes fit what they are made of: a password is changed only for a user whose current password fits, to one that the validator
  -- accepts; the row is then updated to a hash and a salt that the new password fits.
  pub change_password_succeeds :
      (bcrypt : Bcrypt env) (user : User) (current_password new_password : Text) (w : W)
      → (change_password env s (some user) current_password new_password w).0 ≡ ok tt
      → (hash salt : Text) × (w' : W) × (env.compare_hash user.password
            (salted current_password user.salt)
          ≡ none)
        × (s.password_validator new_password ≡ none)
        × (env.compare_hash hash (salted new_password salt) ≡ none)
        × (change_password env s (some user) current_password new_password w
            ≡ env.update_user_password hash salt user.id w')
  unfolding change_password
  change_password_succeeds bcrypt user current_password new_password w h =
      elim (Option-cases (s.password_validator new_password)) [
        | inr (e, bad) ↦ absurd (ground (arith, bad))
        | inl good ↦
            elim (Option-cases
              (env.compare_hash user.password (salted current_password user.salt))) [
                | inr (e, unfit) ↦ absurd (ground (arith, good, unfit))
                | inl fit ↦
                    elim (Result-cases (env.generate_hash (salted new_password salt) w₁).0) [
                      | inr (e, bad) ↦ absurd (ground (arith, good, fit, bad))
                      | inl (hash, hashed) ↦
                          let w₂ = (env.generate_hash (salted new_password salt) w₁).1 in
                          (
                            hash,
                            salt,
                            w₂,
                            fit,
                            good,
                            bcrypt.fits (salted new_password salt) hash w₁ hashed,
                            ground (arith, good, fit, hashed),
                          )
                    ]
              ]
      ]
    where
      salt : Text
      salt = (env.new_uuid w).0

      w₁ : W
      w₁ = (env.new_uuid w).1
