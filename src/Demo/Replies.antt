-- ===== src/Demo/Replies.antt =====
-- Handlers of a whole server: what one does to a request depends on its paths, its context and the
-- headers of the response so far, and it answers, or panics.
use platforma.Base.{ℕ, String, List, [], ◌∷◌, ◌++◌, map, Option, none, some}
use platforma.Base.Text.{Text, codes}
use platforma.Log.Logger.{Context}
use platforma.Log.Tracing.{TraceIdMiddleware, trace_id_wrap}
use platforma.HttpServer
use platforma.HttpServer.Mux.{serve_patterns}
use platforma.HttpServer.Responses.{first_status}
use platforma.HttpServer.Server.{HandlerGroup, new_handler_group}
use platforma.Auth.Service.{AuthEnv, Service}
use platforma.Auth.Http.{
  Cookie, Body, message, Response, Request, Handler, http_error, middleware_wrap_with,
}
use platforma.Auth.Domain.{Route, Domain}

-- What is written to a response: an answer of auth/, or a text.
pub data Page : Type 0 where
  answered : Body → Page
  text : Text → Page

-- The status is none as long as nothing is sent.
pub record Reply : Type 0 where
  pub status : Option ℕ
  pub pages : List Page
  pub cookie : Option Cookie
  pub headers : List (String × String)
  pub panic : Option String

abbrev pub Serve : Type 0 → Type 0
Serve W = Context → List (String × String) → Request W → W → Reply × W

-- A handler, and a middleware.
abbrev pub Server : Type 0 → Type 0
Server W = HttpServer.Request → Serve W

abbrev pub replied : List (String × String) → Response → Reply
replied headers response = record {
  status = some response.status;
  pages = answered response.body ∷ [];
  cookie = response.cookie;
  headers = headers;
  panic = none;
}

-- w.Write([]byte(s)).
abbrev pub written : List (String × String) → Text → Reply
written headers s = record {
  status = some 200;
  pages = text s ∷ [];
  cookie = none;
  headers = headers;
  panic = none;
}

abbrev pub panicked : List (String × String) → String → Reply
panicked headers cause = record {
  status = none;
  pages = [];
  cookie = none;
  headers = headers;
  panic = some cause;
}

abbrev recover_reply : Option String → Reply → Reply
recover_reply none p = p
recover_reply (some _) p = record p {
  status = first_status p.status 500;
  pages = p.pages ++ text (codes "Internal Server Error") ∷ [];
  panic = none;
}

module _ {W : Type 0} where
  abbrev pub with_headers : List (String × String) → Response × W → Reply × W
  with_headers headers (response, w) = (replied headers response, w)

  -- A handler of auth/, which never panics.
  abbrev pub of_handler : Handler W → Server W
  of_handler handler req ctx headers r w = with_headers headers (handler r w)

  -- The patterns of auth/domain.go as a handler group.
  abbrev pattern_of : Route W → Text × Server W
  pattern_of route = (codes route.method ++ codes " " ++ codes route.path, of_handler route.handler)

  unfoldable pub api_group : Domain W → HandlerGroup (Serve W)
  unfolding new_handler_group
  api_group d = record new_handler_group { patterns = map pattern_of d.handle_group }

  -- AuthenticationMiddleware.Wrap on these handlers.
  abbrev pub auth_middleware : AuthEnv W → Service W → Server W → Server W
  auth_middleware env s next req ctx headers =
      middleware_wrap_with env s (replied headers) (next req ctx headers)

  -- TraceIDMiddleware.Wrap; `new_id` is what uuid.NewString gives for the request of a context.
  abbrev pub trace_middleware : (Context → String) → TraceIdMiddleware → Server W → Server W
  trace_middleware new_id m next req ctx = trace_id_wrap m (new_id ctx) (next req) ctx

  -- RecoverMiddleware.Wrap.
  abbrev pub recover_middleware : Server W → Server W
  recover_middleware next req ctx headers r w =
      let (p, w') = next req ctx headers r w in (recover_reply p.panic p, w')

  abbrev pub not_found : Serve W
  not_found ctx headers r w = (replied headers (http_error (message "404 page not found") 404), w)

  abbrev not_allowed : Serve W
  not_allowed ctx headers r w = (replied headers (http_error (message "Method Not Allowed") 405), w)

  -- http.ServeMux over the method of the request.
  unfoldable pub mux : List (Text × Server W) → Server W
  unfolding serve_patterns
  mux patterns req ctx headers r w =
      serve_patterns not_found not_allowed (codes r.method) patterns req ctx headers r w
