-- ===== src/Demo/Api/Traces.antt =====
-- What the log and the response say of a request to the group of demo-app/cmd/api/main.go.
use platforma.Base.{◌≡◌, refl, String, List, [], ◌∷◌, some}
use platforma.Base.Dict.{lookup, lookup-insert}
use platforma.Base.Text.{Text}
use platforma.Log.{string}
use platforma.Log.Logger.{Context, package_key}
use platforma.Log.Tracing.{with_value}
use platforma.HttpServer.Server.{HttpServer}
use platforma.Auth.Http.{Request}
use platforma.Demo.Replies.{Serve, text}
use platforma.Demo.Serving.{routing, started, at, traced_context, traced_headers}
use platforma.Demo.Api.{new_api}

module _ {W : Type 0} (new_id : Context → String) (log_request : Context → W → W)
    (now : W → Text) where
  abbrev pub api : HttpServer (Serve W)
  api = started (new_api new_id log_request now)

  clock_route :
      (ctx : Context) (headers : List (String × String)) (r : Request W) (w : W)
      → let w' = log_request (traced_context new_id ctx) w in
        (new_api new_id log_request now ≡ some api)
        × ((at api "/subApi/clock" ctx headers r w).1 ≡ w')
        × ((at api "/subApi/clock" ctx headers r w).0.headers ≡ traced_headers new_id ctx headers)
        × ((at api "/subApi/clock" ctx headers r w).0.status ≡ some 200)
        × ((at api "/subApi/clock" ctx headers r w).0.pages ≡ text (now w') ∷ [])
  unfolding routing new_api
  clock_route ctx headers r w = (refl, refl, refl, refl, refl)

  -- A request for /subApi/clock passes the trace middleware of the server before the middleware of
  -- the group: it is logged once, with a context that carries the ID that the response has in its
  -- header, and then answered with the time.
  pub clock_logged :
      (ctx : Context) (headers : List (String × String)) (r : Request W) (w : W)
      → let (reply, w') = at api "/subApi/clock" ctx headers r w in
        (logged : Context) × (w' ≡ log_request logged w)
        × (logged.value (package_key "traceId") ≡ some (string (new_id ctx)))
        × (lookup "Platforma-Trace-Id" reply.headers ≡ some (new_id ctx))
        × (reply.status ≡ some 200)
        × (reply.pages ≡ text (now w') ∷ [])
  unfolding with_value
  clock_logged ctx headers r w =
      let (_, ends, sent, ok, page) = clock_route ctx headers r w in
      (
        traced_context new_id ctx,
        ends,
        refl,
        rw sent (lookup-insert "Platforma-Trace-Id" "Platforma-Trace-Id" (new_id ctx) headers),
        ok,
        rw ends page,
      )
