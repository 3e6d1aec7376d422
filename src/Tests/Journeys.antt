-- ===== src/Tests/Journeys.antt =====
-- The API of auth/ on the server of Accounts: one user registers, logs in, asks who it is, and logs
-- out.
use platforma.Base.{◌≡◌, ◌≢◌, ◌⊎◌, refl, List, [], ◌∷◌, none, some, arith}
use platforma.Base.Text.{Text, codes, text_eq, text_eq_refl, utf8_len}
use platforma.Auth.Service.{
  delete_session, User, new_service, default_username_validator, default_password_validator,
  create_with_login_and_password, create_session_from_username_and_password,
}
use platforma.Auth.Http.{
  Response, Handler, logout_handler, Request, register_handler, login_handler,
}
use platforma.Auth.Domain.{serve_domain, new_domain, serve_mux, find_route}
use platforma.Auth.Domain.Logout.{SessionRows, logout_then_unknown}
use platforma.Base.Errors.{foreign, err}
use platforma.Auth.Domain.Journey.{Journey}
use platforma.Session.{Session, repository_delete, session_storage, create_session}
use platforma.Tests.Accounts.{
  find, remove, Store, session_db, session_db-SessionTable, env, empty, some_uuid,
}
use platforma.Tests.Answers.{alice_posts, request}

pub env-Journey : Journey env session_db
unfolding text_eq create_session
env-Journey = record {
  Stored = λ user w. (rest : List User) × (w.users ≡ user ∷ rest);
  inserted = λ user w h. (w.users, refl);
  by_name = λ user w s. let (rest, h) = s in ground (arith, h, text_eq_refl user.username);
  by_id = λ user w s. let (rest, h) = s in ground (arith, h, text_eq_refl user.id);
  kept_by_name = λ user name w s. s;
  kept_by_session = λ user id w s. s;
  kept_by_lookup = λ user id w s. s;
  sessions = session_db-SessionTable;
  matches = λ text hash w h. ground (arith, text_eq_refl hash);
  uuid_filled = λ w e. cc;
}

abbrev known : Request Store
known = record (request "GET" none) { cookies = λ name. some some_uuid }

abbrev after_register : Store
after_register =
    (serve_domain (new_domain env (session_storage session_db) (codes "session") none none none)
      "/register" alice_posts empty).1

abbrev after_login : Store
after_login =
    (serve_domain (new_domain env (session_storage session_db) (codes "session") none none none)
      "/login" alice_posts after_register).1

none_removed :
    (id : Text) (sessions : List Session)
    → find (λ s. text_eq s.id id) (remove (λ s. text_eq s.id id) sessions)
      ≡ err (foreign "sql: no rows in result set")
none_removed id [] = refl
none_removed id (s ∷ sessions) = ground (arith, none_removed id sessions)

pub session_db-SessionRows : SessionRows session_db
session_db-SessionRows = record {
  removed = λ id w h. (foreign "sql: no rows in result set", none_removed id w.sessions);
}

abbrev leaving : Request Store
leaving = record (request "POST" none) { cookies = λ name. some some_uuid }

abbrev after_logout : Store
after_logout =
    (serve_domain (new_domain env (session_storage session_db) (codes "session") none none none)
      "/logout" leaving after_login).1

logout_then_unknown_example :
    let d = new_domain env (session_storage session_db) (codes "session") none none none in
    ((response : Response) × (w : Store) × ((response.status ≡ 401) ⊎ (response.status ≡ 500))
      × ((next : Handler Store) → d.middleware next leaving after_logout ≡ (response, w)))
    × ((serve_domain d "/me" known after_logout).0.status ≢ 200)
unfolding new_domain serve_mux find_route register_handler login_handler logout_handler
    delete_session repository_delete new_service default_username_validator
    default_password_validator utf8_len text_eq create_with_login_and_password
    create_session_from_username_and_password create_session
logout_then_unknown_example =
    logout_then_unknown env session_db session_db-SessionRows (codes "session") none none none
      leaving leaving known some_uuid after_login refl refl refl refl refl refl
