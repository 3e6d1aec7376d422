-- ===== src/HttpServer/Server.antt =====
-- httpserver/httpserver.go, fileserver.go and the registration of handlergroup.go. `mux` is what
-- net/http.ServeMux makes of the registered patterns.
use platforma.Base.{ℕ, String, List, [], ◌∷◌, ◌++◌, Option, none, some}
use platforma.Base.Text.{Text, codes}
use platforma.Base.Errors.{Error, wrapped}
use platforma.HttpServer.{Request, mount, wrap_handler_in_middleware}

pub record HandlerGroup {ℓ} (R : Type ℓ) : Type ℓ where
  pub patterns : List (Text × (Request → R))
  pub middlewares : List ((Request → R) → Request → R)

pub record HttpServer {ℓ} (R : Type ℓ) : Type ℓ where
  pub group : HandlerGroup R
  pub port : Text
  pub shutdown_timeout : ℕ  -- in milliseconds

-- The fields of http.Server that Run sets.
pub record NetServer {ℓ} (R : Type ℓ) : Type ℓ where
  pub addr : Text
  pub handler : Request → R
  pub read_header_timeout : ℕ

module _ {ℓ} {R : Type ℓ} where
  unfoldable pub new_handler_group : HandlerGroup R
  new_handler_group = record { patterns = []; middlewares = [] }

  -- Use, and UseFunc.
  unfoldable pub use_middlewares :
      List ((Request → R) → Request → R) → HandlerGroup R → HandlerGroup R
  use_middlewares added g = record g { middlewares = g.middlewares ++ added }

  -- Handle, and HandleFunc.
  unfoldable pub handle : Text → (Request → R) → HandlerGroup R → HandlerGroup R
  handle pattern handler g = record g { patterns = g.patterns ++ (pattern, handler) ∷ [] }

  abbrev registered :
      HandlerGroup R → Option (List (Text × (Request → R))) → Option (HandlerGroup R)
  registered g none = none
  registered g (some patterns) = some (record g { patterns = g.patterns ++ patterns })

  unfoldable pub mount_group : R → Text → (Request → R) → HandlerGroup R → Option (HandlerGroup R)
  unfolding mount
  mount_group not_found prefix handler g = registered g (mount not_found prefix handler)

  unfoldable pub new_http_server : Text → ℕ → HttpServer R
  unfolding new_handler_group
  new_http_server port shutdown_timeout = record {
    group = new_handler_group;
    port = port;
    shutdown_timeout = shutdown_timeout;
  }

  unfoldable pub healthcheck : HttpServer R → List (String × Text)
  healthcheck s = ("port", s.port) ∷ []

  abbrev on_group : HttpServer R → Option (HandlerGroup R) → Option (HttpServer R)
  on_group s none = none
  on_group s (some g) = some (record s { group = g })

  -- `files` is http.FileServer of the file system.
  unfoldable pub new_file_server : R → (Request → R) → Text → Text → Option (HttpServer R)
  unfolding new_http_server mount_group
  new_file_server not_found files base_path port =
      let server = new_http_server port 1000 in
      on_group server (mount_group not_found base_path files server.group)

module _ {ℓ} {R : Type ℓ} (mux : List (Text × (Request → R)) → Request → R) where
  -- HandlerGroup.ServeHTTP.
  unfoldable pub group_serve : HandlerGroup R → Request → R
  unfolding wrap_handler_in_middleware
  group_serve g = wrap_handler_in_middleware (mux g.patterns) g.middlewares

  unfoldable pub net_server : HttpServer R → NetServer R
  unfolding wrap_handler_in_middleware
  net_server s = record {
    addr = codes ":" ++ s.port;
    handler = wrap_handler_in_middleware (mux s.group.patterns) s.group.middlewares;
    read_header_timeout = 1000;
  }

  abbrev shut_down_result : Option Error → Option Error
  shut_down_result none = none
  shut_down_result (some e) = some (wrapped "failed to gracefully shutdown HTTP server" e)

  -- HTTPServer.Run, once its context is done; `shutdown` is http.Server.Shutdown with a timeout.
  unfoldable pub server_run : (NetServer R → ℕ → Option Error) → HttpServer R → Option Error
  unfolding net_server
  server_run shutdown s = shut_down_result (shutdown (net_server s) s.shutdown_timeout)
