-- ===== src/Demo/Api.antt =====
-- demo-app/cmd/api/main.go: a server with a group of handlers below /subApi.
pub mod Traces
use platforma.Base.{String, List, [], ◌∷◌, Option, none, some}
use platforma.Base.Text.{Text, codes}
use platforma.Log.Logger.{Context}
use platforma.Log.Tracing.{new_trace_id_middleware}
use platforma.HttpServer.Server.{
  HandlerGroup, HttpServer, new_http_server, new_handler_group, use_middlewares, handle,
  mount_group, group_serve,
}
use platforma.Demo.Replies.{Server, Serve, written, trace_middleware, not_found, mux}

module _ {W : Type 0} where
  -- The handler of /ping; that of /long answers the same, 10 s later.
  abbrev pub pong : Server W
  pong req ctx headers r w = (written headers (codes "pong"), w)

  -- `now` is time.Now().String().
  abbrev pub clock : (W → Text) → Server W
  clock now req ctx headers r w = (written headers (now w), w)

  -- The middleware of the group; `log_request` is log.InfoContext(r.Context(), "incoming request").
  abbrev pub log_middleware : (Context → W → W) → Server W → Server W
  log_middleware log_request next req ctx headers r w = next req ctx headers r (log_request ctx w)

  abbrev pub sub_api : (Context → W → W) → (W → Text) → HandlerGroup (Serve W)
  sub_api log_request now =
      use_middlewares (log_middleware log_request ∷ [])
        (handle (codes "/clock") (clock now) new_handler_group)

  abbrev with_group :
      HttpServer (Serve W) → Option (HandlerGroup (Serve W)) → Option (HttpServer (Serve W))
  with_group s none = none
  with_group s (some g) = some (record s { group = g })

  -- The server `api`, or the panic of Mount; `new_id` is what uuid.NewString gives for a request.
  unfoldable pub new_api :
      (Context → String) → (Context → W → W) → (W → Text) → Option (HttpServer (Serve W))
  unfolding new_http_server new_handler_group use_middlewares handle mount_group group_serve mux
  new_api new_id log_request now =
      let s = new_http_server (codes "8080") 3000 in
      let pages = handle (codes "/long") pong (handle (codes "/ping") pong s.group) in
      let traced =
        use_middlewares (trace_middleware new_id (new_trace_id_middleware none "") ∷ []) pages in
      with_group s
        (mount_group not_found (codes "/subApi") (group_serve mux (sub_api log_request now)) traced)
