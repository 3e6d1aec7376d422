-- ===== src/Tests/Demos.antt =====
-- demo-app/cmd/auth/main.go and demo-app/cmd/api/main.go, served.
use platforma.Base.{All, ◌≡◌, refl, String, ℕ, ◌+◌, [], ◌∷◌, ◌++◌, none, some}
use platforma.Base.Dict.{lookup}
use platforma.Base.Text.{Text, codes, text_eq, utf8_len}
use platforma.Log.{string}
use platforma.Log.Logger.{Context, package_key, background}
use platforma.Auth.Service.{
  delete_session, new_service, default_username_validator, default_password_validator,
  create_with_login_and_password, create_session_from_username_and_password,
}
use platforma.Session.{create_session, repository_delete}
use platforma.Auth.Http.{Cookie, Request, register_handler, login_handler, logout_handler}
use platforma.Auth.Domain.{new_domain}
use platforma.Demo.Replies.{text}
use platforma.Demo.Serving.{routing, at}
use platforma.Demo.Auth.{auth_domain, new_api}
use platforma.Demo.Auth.Routes.{api, page_group, IsServed, new_api-IsServed}
use platforma.Demo.Auth.Leaving.{logout_profile}
use platforma.Demo.Auth.Profile.{Guarded, Refused, profile-Guarded, register_login_profile}
use platforma.Demo.Api.Traces
use platforma.Tests.Accounts.{Store, session_db, env, empty, some_uuid, password}
use platforma.Tests.Answers.{alice_posts, cookie, request}
use platforma.Tests.Journeys.{env-Journey, session_db-SessionRows}

abbrev trace_id : Context → String
trace_id ctx = "7f3a"

new_api-IsServed_example :
    (new_api env session_db trace_id ≡ some (api env session_db trace_id))
    × All
        (IsServed env session_db trace_id background [] alice_posts empty)
        (auth_domain env session_db).handle_group
new_api-IsServed_example = new_api-IsServed env session_db trace_id background [] alice_posts empty

profile-Guarded_example :
    let r = request "GET" none in
    let reply = (at (api env session_db trace_id) "/api/profile" background [] r empty).0 in
    Guarded env (auth_domain env session_db).service r empty reply
    × (lookup "Platforma-Trace-Id" reply.headers ≡ some "7f3a")
    × ((page_group env session_db background [] r empty).0.panic ≡ none)
profile-Guarded_example =
    profile-Guarded env session_db trace_id background [] (request "GET" none) empty

abbrev demo_cookie : Cookie
demo_cookie = record cookie { name = codes "session_id" }

abbrev known : Request Store
known = record (request "GET" none) { cookies = λ name. some some_uuid }

abbrev after_register : Store
after_register =
    (at (api env session_db trace_id) "/auth/register" background [] alice_posts empty).1

abbrev after_login : Store
after_login =
    (at (api env session_db trace_id) "/auth/login" background [] alice_posts after_register).1

register_login_profile_example :
    let reply =
      (at (api env session_db trace_id) "/api/profile" background [] known after_login).0 in
    (reply.status ≡ some 200) × (reply.pages ≡ text (codes "Welcome, " ++ codes "alice") ∷ [])
unfolding routing new_api new_domain register_handler login_handler new_service
    default_username_validator default_password_validator utf8_len text_eq
    create_with_login_and_password create_session_from_username_and_password create_session
register_login_profile_example =
    register_login_profile env session_db trace_id env-Journey (codes "alice") password alice_posts
      alice_posts known demo_cookie background background background [] [] [] empty refl refl refl
      refl refl refl refl

abbrev leaving : Request Store
leaving = record (request "POST" none) { cookies = λ name. some some_uuid }

abbrev after_logout : Store
after_logout = (at (api env session_db trace_id) "/auth/logout" background [] leaving after_login).1

logout_profile_example :
    let reply =
      (at (api env session_db trace_id) "/api/profile" background [] known after_logout).0 in
    (reply.panic ≡ none)
    × Refused reply
    × ((page_group env session_db background [] known after_logout).0.panic ≡ none)
unfolding routing new_api new_domain register_handler login_handler logout_handler new_service
    default_username_validator default_password_validator utf8_len text_eq delete_session
    create_with_login_and_password create_session_from_username_and_password create_session
    repository_delete
logout_profile_example =
    logout_profile env session_db trace_id session_db-SessionRows leaving known some_uuid background
      background [] [] after_login refl refl refl refl

-- The world counts the requests that were logged.
abbrev for_clock : Request ℕ
for_clock = record {
  method = "GET";
  cookies = λ name. none;
  fields = none;
  user = none;
  user_id = none;
  add_attrs = none;
}

clock_logged_example :
    let now : ℕ → Text = λ w. codes "10:15" in
    let (reply, w') =
      at (Traces.api trace_id (λ ctx w. w + 1) now) "/subApi/clock" background [] for_clock 0 in
    (logged : Context) × (w' ≡ 0 + 1)
    × (logged.value (package_key "traceId") ≡ some (string "7f3a"))
    × (lookup "Platforma-Trace-Id" reply.headers ≡ some "7f3a")
    × (reply.status ≡ some 200)
    × (reply.pages ≡ text (codes "10:15") ∷ [])
clock_logged_example =
    Traces.clock_logged trace_id (λ ctx w. w + 1) (λ w. codes "10:15") background [] for_clock 0
