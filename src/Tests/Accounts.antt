-- ===== src/Tests/Accounts.antt =====
-- auth/ and session/ over a server that keeps its rows in two lists.
use platforma.Base.{
  true, ℕ, suc, ◌≡◌, ◌≢◌, ◌↔◌, ◌⊎◌, inl, inr, refl, ap, Bool, List, [], ◌∷◌, Option, none, some,
  arith, ltb, if◌then◌else◌,
}
use platforma.Base.Text.{Text, codes, text_eq, text_eq_refl, text_eq_iff, utf8_len}
use platforma.Base.Errors.{Error, foreign, wrapped, Result, ok, err, Result-cases}
use platforma.Base.Action.{wrap_action}
use platforma.Session.{
  Session, SessionDb, session_storage, is_expired, user_id_of_session, repository_delete_by_user_id,
  repository_get,
}
use platforma.Session.Expiry.{SessionTable}
use platforma.Auth.Service.{
  AuthEnv, Service, User, active, new_service, salted, default_username_validator,
  default_password_validator, create_with_login_and_password,
  create_session_from_username_and_password, change_password, delete_user, wrong_user_or_password,
}
use platforma.Auth.Service.Validation.{HashLimit, create_with_login_and_password_too_long}
use platforma.Auth.Service.Login.{
  Accounts, create_with_login_and_password_login,
  create_session_from_username_and_password-wrong_iff, change_password_succeeds, Bcrypt,
}
use platforma.Auth.Service.Deletion.{SessionStore, owner, delete_user_sessions}

-- The rows, newest first, and the time.
pub record Store : Type 0 where
  pub users : List User
  pub sessions : List Session
  pub time : ℕ

abbrev pub find {ℓ} : {A : Type ℓ} → (A → Bool) → List A → Result A
find p [] = err (foreign "sql: no rows in result set")
find p (x ∷ xs) = if p x then ok x else find p xs

abbrev pub remove {ℓ} : {A : Type ℓ} → (A → Bool) → List A → List A
remove p [] = []
remove p (x ∷ xs) = if p x then remove p xs else x ∷ remove p xs

abbrev pub some_uuid : Text
some_uuid = codes "6ba7b810-9dad-11d1-80b4-00c04fd430c8"

abbrev tick : Store → ℕ × Store
tick w = (w.time, record w { time = suc w.time })

abbrev pub session_db : SessionDb Store
session_db = record {
  select_session = λ id w. (find (λ s. text_eq s.id id) w.sessions, w);
  select_session_by_user = λ id w. (find (λ s. text_eq s.user id) w.sessions, w);
  insert_session = λ s w. (ok tt, record w { sessions = s ∷ w.sessions });
  delete_session =
      λ id w. (ok tt, record w { sessions = remove (λ s. text_eq s.id id) w.sessions });
  delete_sessions_by_user =
      λ id w. (ok tt, record w { sessions = remove (λ s. text_eq s.user id) w.sessions });
  new_session_id = λ w. (some_uuid, w);
  time_now = tick;
}

abbrev hash_of : Text → Result Text
hash_of text = if ltb 72 (utf8_len text) then err (foreign "bcrypt: password too long") else ok text

abbrev compare : Text → Text → Option Error
compare hash text = if text_eq hash text then none else some (foreign "bcrypt: mismatch")

abbrev pub env : AuthEnv Store
env = record {
  select_user = λ id w. (find (λ u. text_eq u.id id) w.users, w);
  select_user_by_username = λ name w. (find (λ u. text_eq u.username name) w.users, w);
  insert_user = λ u w. (ok tt, record w { users = u ∷ w.users });
  update_user_password = λ password salt id w. (ok tt, w);
  delete_user_row = λ id w. (ok tt, record w { users = remove (λ u. text_eq u.id id) w.users });
  new_uuid = λ w. (some_uuid, w);
  time_now = tick;
  generate_hash = λ text w. (hash_of text, w);
  compare_hash = compare;
}

abbrev pub service : Service Store
service = new_service (session_storage session_db) (codes "session") none none none

abbrev pub empty : Store
empty = record { users = []; sessions = []; time = 0 }

env-Accounts : Accounts env
unfolding text_eq
env-Accounts = record {
  selected = λ user w h. ground (arith, text_eq_refl user.username);
  matches = λ text hash w h. ground (arith, text_eq_refl hash);
}

env-Bcrypt : Bcrypt env
unfolding text_eq
env-Bcrypt = record { fits = λ text hash w h. ground (arith, text_eq_refl hash) }

env-HashLimit : HashLimit env
unfolding utf8_len
env-HashLimit = record {
  refused = λ text w h. (foreign "bcrypt: password too long", ground (arith, h));
  uuid_len = λ w. refl;
}

pub session_db-SessionTable : SessionTable session_db
unfolding text_eq
session_db-SessionTable = record { selected = λ s w h. ground (arith, text_eq_refl s.id) }

find_removed :
    (user_id id : Text) (rows : List Session) (s : Session)
    → find (λ r. text_eq r.id id) (remove (λ r. text_eq r.user user_id) rows) ≡ ok s
    → s.user ≢ user_id
find_removed user_id id [] s h e = cc
find_removed user_id id (r ∷ rows) s h e =
    ground (arith, find_removed user_id id rows s, text_eq_iff r.user user_id)

abbrev long_enough : Text
long_enough = codes "correct horse battery staple, correct horse"

create_with_login_and_password_too_long_example :
    (e : Error) × (default_password_validator long_enough ≡ none)
    × ((create_with_login_and_password env service (codes "alice") long_enough empty).0
        ≡ err (wrapped "failed to generate password hash" e))
unfolding default_username_validator utf8_len
create_with_login_and_password_too_long_example =
    create_with_login_and_password_too_long env env-HashLimit (session_storage session_db)
      (codes "session") none (codes "alice") long_enough empty refl (ground arith) (ground arith)

abbrev pub password : Text
password = codes "12345678"

abbrev pub alice : User
alice = record {
  id = some_uuid;
  username = codes "alice";
  password = salted password some_uuid;
  salt = some_uuid;
  created = 0;
  updated = 1;
  status = active;
}

abbrev pub registered : Store
registered = record { users = alice ∷ []; sessions = []; time = 2 }

alice_registers :
    create_with_login_and_password env service (codes "alice") password empty ≡ (ok tt, registered)
unfolding create_with_login_and_password new_service default_username_validator
    default_password_validator utf8_len
alice_registers = refl

create_with_login_and_password_login_example :
    let w = (create_with_login_and_password env service (codes "alice") password empty).1 in
    (user : User) × (user.username ≡ codes "alice")
    × (user.status ≡ active)
    × (create_session_from_username_and_password env service (codes "alice") password w
        ≡ wrap_action "failed to create session"
            (service.auth_storage.create_session_for_user user.id)
            (env.select_user_by_username (codes "alice") w).1)
create_with_login_and_password_login_example =
    create_with_login_and_password_login env service env-Accounts (codes "alice") password empty
      (ap (λ (p : Result (Unit {0}) × Store). p.0) alice_registers)

create_session_from_username_and_password-wrong_iff_example :
    ((create_session_from_username_and_password env service
        (codes "alice")
        (codes "guess")
        registered).0
      ≡ err wrong_user_or_password)
    ↔ (((e : Error) × ((env.select_user_by_username (codes "alice") registered).0 ≡ err e))
        ⊎ ((user : User) × (e : Error) × ((env.select_user_by_username (codes "alice") registered).0
              ≡ ok user)
            × (env.compare_hash user.password (salted (codes "guess") user.salt) ≡ some e)))
create_session_from_username_and_password-wrong_iff_example =
    create_session_from_username_and_password-wrong_iff env service (codes "alice") (codes "guess")
      registered

alice_changes_password :
    (change_password env service (some alice) password (codes "87654321") registered).0 ≡ ok tt
unfolding change_password new_service default_password_validator utf8_len text_eq
alice_changes_password = refl

change_password_succeeds_example :
    (hash salt : Text) × (w : Store) × (env.compare_hash alice.password (salted password alice.salt)
      ≡ none)
    × (service.password_validator (codes "87654321") ≡ none)
    × (env.compare_hash hash (salted (codes "87654321") salt) ≡ none)
    × (change_password env service (some alice) password (codes "87654321") registered
        ≡ env.update_user_password hash salt alice.id w)
change_password_succeeds_example =
    change_password_succeeds env service env-Bcrypt alice password (codes "87654321") registered
      alice_changes_password

service-SessionStore : SessionStore env service
unfolding new_service user_id_of_session repository_get repository_delete_by_user_id
service-SessionStore = record {
  cleared = λ user_id id w h o.
      elim (Result-cases
        (find (λ s. text_eq s.id id) (remove (λ s. text_eq s.user user_id) w.sessions))) [
          | inl (s, found) ↦ find_removed user_id id w.sessions s found (ground (arith, found))
          | inr (e, missing) ↦ ground (arith, missing)
        ];
  kept_by_delete = λ user_id id w. ground arith;
  kept_by_clock = λ id w. ground arith;
  kept_by_enqueue = λ job id w h. cc;
}

alice_deleted : (delete_user env service (some alice) registered).0 ≡ ok tt
unfolding delete_user new_service repository_delete_by_user_id
alice_deleted = refl

delete_user_sessions_example :
    owner env service some_uuid (delete_user env service (some alice) registered).1 ≢ ok alice.id
delete_user_sessions_example =
    delete_user_sessions env service service-SessionStore alice some_uuid registered alice_deleted

abbrev old_session : Session
old_session = record { id = codes "s"; user = alice.id; created = 0; expires = 10 }

abbrev pub much_later : Store
much_later = record { users = alice ∷ []; sessions = old_session ∷ []; time = 1000 }

-- The session has expired at the time of the store, and still leads to its user.
expired_session :
    (is_expired old_session much_later.time ≡ true)
    × ((user_id_of_session session_db (codes "s") much_later).0 ≡ ok alice.id)
unfolding text_eq is_expired user_id_of_session repository_get
expired_session = (refl, refl)
