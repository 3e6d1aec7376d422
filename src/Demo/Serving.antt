-- ===== src/Demo/Serving.antt =====
-- What a server does with a request for a path.
use platforma.Base.{String, List, [], Option, none, some}
use platforma.Base.Dict.{insert}
use platforma.Base.Text.{codes, text_eq, strip_prefix?, trim_right}
use platforma.Log.{string}
use platforma.Log.Logger.{Context, package_key}
use platforma.Log.Tracing.{with_value, new_trace_id_middleware, trace_id_wrap}
use platforma.HttpServer
use platforma.HttpServer.{
  mount, strip_prefix, http_strip_prefix, normalized, wrap_handler_in_middleware, wrap_loop,
}
use platforma.HttpServer.Mux.{
  serve_patterns, find_handler, has_path, parse_pattern, matches_path, matches_method, is_better,
  cut_space,
}
use platforma.HttpServer.Server.{
  HttpServer, new_http_server, new_handler_group, use_middlewares, handle, mount_group, group_serve,
  net_server,
}
use platforma.Demo.Replies.{Serve, mux, api_group}

-- A proof that unfolds `routing` unfolds all that a request runs through.
unfoldable pub routing : Unit {0}
unfolding mount_group mount trim_right text_eq strip_prefix http_strip_prefix normalized
    strip_prefix? new_http_server new_handler_group use_middlewares handle net_server group_serve
    wrap_handler_in_middleware wrap_loop mux serve_patterns find_handler has_path parse_pattern
    matches_path matches_method is_better cut_space trace_id_wrap new_trace_id_middleware api_group
routing = tt

abbrev pub root : HttpServer.Request
root = record { path = codes "/"; raw_path = [] }

-- The context and the headers that the trace middleware hands on.
abbrev pub traced_context : (Context → String) → Context → Context
traced_context new_id ctx = with_value (package_key "traceId") (string (new_id ctx)) ctx

abbrev pub traced_headers :
    (Context → String) → Context → List (String × String) → List (String × String)
traced_headers new_id ctx headers = insert "Platforma-Trace-Id" (new_id ctx) headers

module _ {W : Type 0} where
  -- The server that starts, if one does.
  abbrev pub started : Option (HttpServer (Serve W)) → HttpServer (Serve W)
  started none = new_http_server [] 0
  started (some s) = s

  abbrev pub at : HttpServer (Serve W) → String → Serve W
  at s path = (net_server mux s).handler (record { path = codes path; raw_path = [] })

  -- What the trace middleware does before a handler.
  abbrev pub traced : (Context → String) → Serve W → Serve W
  traced new_id next ctx headers =
      next (traced_context new_id ctx) (traced_headers new_id ctx headers)
