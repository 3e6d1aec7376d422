-- ===== src/Auth/Domain.antt =====
-- auth/domain.go: how the parts are put together, and the routes of the API. Of net/http.ServeMux it
-- is written out what these patterns use: a method and a literal path.
pub mod Journey
pub mod Logout
use platforma.Base.{
  String, Bool, true, false, not, ◌&&◌, ◌||◌, List, [], ◌∷◌, Option, none, some, str_eq,
  if◌then◌else◌,
}
use platforma.Base.Text.{Text}
use platforma.Base.Errors.{Error}
use platforma.Base.Action.{Command}
use platforma.Session.{AuthStorage}
use platforma.Auth.Service.{AuthEnv, Service, UserCleanupJob, new_service}
use platforma.Auth.Http.{
  Request, Response, Handler, http_error, message, register_handler, login_handler, logout_handler,
  get_handler, change_password_handler, delete_handler, middleware_wrap,
}

pub record Route (W : Type 0) : Type 0 where
  pub method : String
  pub path : String
  pub handler : Handler W

pub record Domain (W : Type 0) : Type 0 where
  pub service : Service W
  pub handle_group : List (Route W)
  pub middleware : Handler W → Handler W

module _ {W : Type 0} where
  -- A pattern for GET matches HEAD too.
  abbrev method_matches : Route W → String → Bool
  method_matches route method =
      str_eq route.method method || (str_eq route.method "GET" && str_eq method "HEAD")

  unfoldable pub find_route : List (Route W) → String → String → Option (Handler W)
  find_route [] path method = none
  find_route (route ∷ routes) path method =
      let rest = find_route routes path method in
      if str_eq route.path path && method_matches route method then some route.handler else rest

  abbrev has_path : List (Route W) → String → Bool
  has_path [] path = false
  has_path (route ∷ routes) path = str_eq route.path path || has_path routes path

  abbrev answer : List (Route W) → String → Option (Handler W) → Handler W
  answer routes path (some handler) r w = handler r w
  answer routes path none r w =
      if has_path routes path
      then (http_error (message "Method Not Allowed") 405, w)
      else (http_error (message "404 page not found") 404, w)

  unfoldable pub serve_mux : List (Route W) → String → Handler W
  unfolding find_route
  serve_mux routes path r w = answer routes path (find_route routes path r.method) r w

  -- A request for one of the API's paths.
  abbrev pub serve_domain : Domain W → String → Handler W
  serve_domain d path = serve_mux d.handle_group path

module _ {W : Type 0} (env : AuthEnv W) where
  unfoldable pub new_domain :
      AuthStorage W
      → Text
      → (username_validator password_validator : Option (Text → Option Error))
      → Option (UserCleanupJob → Command W)
      → Domain W
  unfolding new_service
  new_domain storage cookie username_validator password_validator enqueuer =
      let s = new_service storage cookie username_validator password_validator enqueuer in
      record {
        service = s;
        handle_group =
            record { method = "POST"; path = "/register"; handler = register_handler env s }
            ∷ record { method = "POST"; path = "/login"; handler = login_handler env s }
            ∷ record { method = "POST"; path = "/logout"; handler = logout_handler env s }
            ∷ record { method = "GET"; path = "/me"; handler = get_handler env s }
            ∷ record {
              method = "POST";
              path = "/change-password";
              handler = middleware_wrap env s (change_password_handler env s);
            }
            ∷ record {
              method = "DELETE";
              path = "/me";
              handler = middleware_wrap env s (delete_handler env s);
            }
            ∷ [];
        middleware = middleware_wrap env s;
      }
