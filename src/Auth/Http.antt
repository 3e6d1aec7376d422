-- ===== src/Auth/Http.antt =====
-- auth/handler_*.go and middleware.go. A handler answers a request and changes the world `W`. A
-- response is its status, cookie and body; what fails to write it is not modelled.
pub mod Statuses
pub mod Sessions
use platforma.Base.{
  ℕ, String, Bool, true, false, Option, none, some, List, [], ◌∷◌, str_eq, if◌then◌else◌,
}
use platforma.Base.Text.{Text, codes, text_eq}
use platforma.Base.Errors.{Error, is_error, Result, ok, err}
use platforma.Base.Action.{Command}
use platforma.Auth.Service.{
  AuthEnv, Service, User, get_from_session, create_with_login_and_password,
  create_session_from_username_and_password, delete_session, change_password, delete_user,
}

-- Path is "/" in every cookie.
pub record Cookie : Type 0 where
  pub name : Text
  pub value : Text
  pub expired : Bool  -- Expires: time.Unix(0, 0)
  pub http_only : Bool
  pub same_site_lax : Bool

pub data Body : Type 0 where
  no_body : Body
  message : String → Body
  error_message : Error → Body
  json_string : String → Body
  json_username : Text → Body

pub record Response : Type 0 where
  pub status : ℕ
  pub cookie : Option Cookie
  pub body : Body

-- `cookies` is r.Cookie; `fields` the two fields of the JSON body, if it decodes; `user` and
-- `user_id` stand in the context; `add_attrs` is the method AddAttrs of the wide event there.
pub record Request (W : Type 0) : Type 0 where
  pub method : String
  pub cookies : Text → Option Text
  pub fields : Option (Text × Text)
  pub user : Option User
  pub user_id : Option Text
  pub add_attrs : Option (List (String × Text) → W → W)

-- The value of UserContextKey in the request's context.
abbrev pub user_from_context : {W : Type 0} → Request W → Option User
user_from_context r = r.user

abbrev pub Handler : Type 0 → Type 0
Handler W = Request W → W → Response × W

-- The request that the next handler gets.
abbrev pub authenticated : {W : Type 0} → Request W → User → Request W
authenticated r user = record r { user = some user; user_id = some user.id }

abbrev write_header : ℕ → Response
write_header status = record { status = status; cookie = none; body = no_body }

abbrev pub http_error : Body → ℕ → Response
http_error body status = record { status = status; cookie = none; body = body }

abbrev wrong_method : Response
wrong_method = http_error (message "method not allowed") 405

abbrev bad_payload : Response
bad_payload = http_error (message "invalid request payload") 400

unfoldable pub register_failure : Error → Response
register_failure e =
    if is_error e "auth.ErrInvalidUsername"
    then http_error (message "invalid username") 400
    else if is_error e "auth.ErrInvalidPassword"
    then http_error (message "invalid password") 400
    else http_error (message "failed to register user") 500

unfoldable pub login_failure : Error → Response
login_failure e =
    if is_error e "auth.ErrWrongUserOrPassword"
    then http_error (error_message e) 401
    else http_error (error_message e) 500

unfoldable pub change_password_failure : Error → Response
change_password_failure e =
    if is_error e "auth.ErrCurrentPasswordIncorrect"
    then http_error (error_message e) 401
    else if is_error e "auth.ErrInvalidPassword"
    then http_error (error_message e) 400
    else http_error (error_message e) 500

unfoldable pub delete_failure : Error → Response
delete_failure e =
    if is_error e "auth.ErrUserNotFound"
    then http_error (error_message e) 401
    else http_error (error_message e) 500

unfoldable pub middleware_failure : Error → Response
middleware_failure e =
    if is_error e "auth.ErrUserNotFound"
    then write_header 401
    else http_error (message "failed to get user") 500

module _ {W : Type 0} (env : AuthEnv W) (s : Service W) where
  abbrev register_result : Result (Unit {0}) × W → Response × W
  register_result (ok _, w) = (write_header 201, w)
  register_result (err e, w) = (register_failure e, w)

  abbrev register_fields : Option (Text × Text) → W → Response × W
  register_fields none w = (bad_payload, w)
  register_fields (some (login, password)) w =
      register_result (create_with_login_and_password env s login password w)

  unfoldable pub register_handler : Handler W
  register_handler r w =
      if str_eq r.method "POST" then register_fields r.fields w else (wrong_method, w)

  -- The cookie of a login.
  abbrev pub session_cookie : Text → Cookie
  session_cookie session_id = record {
    name = s.session_cookie_name;
    value = session_id;
    expired = false;
    http_only = true;
    same_site_lax = true;
  }

  abbrev login_result : Result Text × W → Response × W
  login_result (err e, w) = (login_failure e, w)
  login_result (ok session_id, w) =
      if text_eq session_id (codes "")
      then (http_error (message "invalid login or password") 401, w)
      else (record { status = 200; cookie = some (session_cookie session_id); body = no_body }, w)

  abbrev login_fields : Option (Text × Text) → W → Response × W
  login_fields none w = (bad_payload, w)
  login_fields (some (login, password)) w =
      login_result (create_session_from_username_and_password env s login password w)

  unfoldable pub login_handler : Handler W
  unfolding text_eq
  login_handler r w = if str_eq r.method "POST" then login_fields r.fields w else (wrong_method, w)

  abbrev logout_result : Result (Unit {0}) × W → Response × W
  logout_result (err e, w) = (http_error (message "failed to logout") 500, w)
  logout_result (ok _, w) = (
    record {
      status = 200;
      cookie = some (record {
        name = s.session_cookie_name;
        value = codes "";
        expired = true;
        http_only = true;
        same_site_lax = false;
      });
      body = no_body;
    },
    w,
  )

  abbrev logout_cookie : Option Text → W → Response × W
  logout_cookie none w = (write_header 200, w)
  logout_cookie (some value) w = logout_result (delete_session env s value w)

  unfoldable pub logout_handler : Handler W
  logout_handler r w =
      if str_eq r.method "POST"
      then logout_cookie (r.cookies s.session_cookie_name) w
      else (wrong_method, w)

  abbrev get_result : Result User × W → Response × W
  get_result (err e, w) = (http_error (error_message e) 500, w)
  get_result (ok user, w) =
      (record { status = 200; cookie = none; body = json_username user.username }, w)

  abbrev get_cookie : Option Text → W → Response × W
  get_cookie none w = (write_header 401, w)
  get_cookie (some value) w = get_result (get_from_session env s value w)

  unfoldable pub get_handler : Handler W
  get_handler r w =
      if str_eq r.method "GET"
      then get_cookie (r.cookies s.session_cookie_name) w
      else (wrong_method, w)

  abbrev change_password_result : Result (Unit {0}) × W → Response × W
  change_password_result (err e, w) = (change_password_failure e, w)
  change_password_result (ok _, w) = (
    record { status = 200; cookie = none; body = json_string "Password changed successfully" },
    w,
  )

  abbrev change_password_fields : Option User → Option (Text × Text) → W → Response × W
  change_password_fields user none w = (http_error (message "Invalid request payload") 400, w)
  change_password_fields user (some (current_password, new_password)) w =
      change_password_result (change_password env s user current_password new_password w)

  unfoldable pub change_password_handler : Handler W
  change_password_handler r w =
      if str_eq r.method "POST"
      then change_password_fields r.user r.fields w
      else (http_error (message "Method not allowed") 405, w)

  abbrev delete_result : Result (Unit {0}) × W → Response × W
  delete_result (err e, w) = (delete_failure e, w)
  delete_result (ok _, w) =
      (record { status = 200; cookie = none; body = json_string "User deleted successfully" }, w)

  unfoldable pub delete_handler : Handler W
  delete_handler r w =
      if str_eq r.method "DELETE"
      then delete_result (delete_user env s r.user w)
      else (wrong_method, w)

  abbrev note_user : Option (List (String × Text) → W → W) → User → W → W
  note_user none user w = w
  note_user (some add_attrs) user w =
      add_attrs (("user.id", user.id) ∷ ("user.username", user.username) ∷ []) w

  -- AuthenticationMiddleware.Wrap, for handlers whose answers are of any type `X`; Service's
  -- GetFromSession returns no nil user without an error.
  module _ {X : Type 0} (reply : Response → X) (next : Request W → W → X × W) where
    abbrev middleware_result : Request W → Result User × W → X × W
    middleware_result r (err e, w) = (reply (middleware_failure e), w)
    middleware_result r (ok user, w) = next (authenticated r user) (note_user r.add_attrs user w)

    abbrev middleware_cookie : Request W → Option Text → W → X × W
    middleware_cookie r none w = (reply (write_header 401), w)
    middleware_cookie r (some value) w = middleware_result r (get_from_session env s value w)

    abbrev pub middleware_wrap_with : Request W → W → X × W
    middleware_wrap_with r w = middleware_cookie r (r.cookies s.session_cookie_name) w

  unfoldable pub middleware_wrap : Handler W → Handler W
  middleware_wrap next = middleware_wrap_with (λ response. response) next
