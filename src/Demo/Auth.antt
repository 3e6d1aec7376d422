-- ===== src/Demo/Auth.antt =====
-- demo-app/cmd/auth/main.go: the API of auth/ below /auth, a page for users below /api, and /ping.
pub mod Routes
pub mod Profile
pub mod Leaving
pub mod Setup
use platforma.Base.{String, List, [], ◌∷◌, ◌++◌, Option, none, some}
use platforma.Base.Text.{Text, codes}
use platforma.Log.Logger.{Context}
use platforma.Log.Tracing.{new_trace_id_middleware}
use platforma.HttpServer.Server.{
  HandlerGroup, HttpServer, new_http_server, new_handler_group, use_middlewares, handle,
  mount_group, group_serve, net_server,
}
use platforma.Session.{SessionDb, session_domain}
use platforma.Auth.Service.{AuthEnv, User}
use platforma.Auth.Http.{user_from_context}
use platforma.Auth.Domain.{Domain, new_domain}
use platforma.Demo.Replies.{
  Reply, Server, Serve, written, panicked, api_group, auth_middleware, trace_middleware,
  recover_middleware, not_found, mux,
}

infixl 5 ◌>>=◌
abbrev pub ◌>>=◌ {ℓ κ} : {A : Type ℓ} {B : Type κ} → Option A → (A → Option B) → Option B
none >>= f = none
some a >>= f = f a

-- A nil user has no username.
abbrev pub welcome : List (String × String) → Option User → Reply
welcome headers none = panicked headers "nil pointer dereference"
welcome headers (some user) = written headers (codes "Welcome, " ++ user.username)

abbrev pub profile : {W : Type 0} → Server W
profile req ctx headers r w = (welcome headers (user_from_context r), w)

abbrev pub ping : {W : Type 0} → Server W
ping req ctx headers r w = (written headers (codes "pong"), w)

module _ {W : Type 0} (env : AuthEnv W) (db : SessionDb W) where
  abbrev pub auth_domain : Domain W
  auth_domain = new_domain env (session_domain db).service (codes "session_id") none none none

  abbrev pub protected : HandlerGroup (Serve W)
  protected =
      handle (codes "/profile") profile
        (use_middlewares (auth_middleware env auth_domain.service ∷ []) new_handler_group)

  abbrev with_pages : HandlerGroup (Serve W) → Option (HandlerGroup (Serve W))
  with_pages g = do
    g₁ ← mount_group not_found (codes "/auth") (group_serve mux (api_group auth_domain)) g
    g₂ ← mount_group not_found (codes "/api") (group_serve mux protected) g₁
    some (handle (codes "/ping") ping g₂)

  -- The server `api` or the panic of Mount.
  unfoldable pub new_api : (Context → String) → Option (HttpServer (Serve W))
  unfolding new_domain new_http_server new_handler_group use_middlewares handle mount_group
      group_serve mux api_group
  new_api new_id = do
    let s = new_http_server (codes "8080") 3000
    g ← with_pages (
        use_middlewares (recover_middleware ∷ []) (
          use_middlewares (trace_middleware new_id (new_trace_id_middleware none "") ∷ []) s.group))
    some (record s { group = g })
