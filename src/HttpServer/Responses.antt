-- ===== src/HttpServer/Responses.antt =====
-- httpserver/response.go and recover.go over the http.ResponseWriter of a server.
use platforma.Base.{ℕ, String, List, [], ◌∷◌, ◌++◌, Option, none, some}
use platforma.Base.Errors.{Error, wrapped, Result, ok, err}

-- What the client gets: the first status counts, later ones are superfluous.
pub record Writer : Type 0 where
  pub status : Option ℕ
  pub content_type : Option String
  pub body : List String

abbrev pub first_status : Option ℕ → ℕ → Option ℕ
first_status none status = some status
first_status (some sent) status = some sent

unfoldable pub write_header : ℕ → Writer → Writer
write_header status w = record w { status = first_status w.status status }

-- A write sends 200 if no status was sent.
unfoldable pub write_body : String → Writer → Writer
unfolding write_header
write_body text w = record (write_header 200 w) { body = w.body ++ text ∷ [] }

-- A header that is set after the status was sent has no effect.
abbrev content_type_after : Option ℕ → Option String → String → Option String
content_type_after none old new = some new
content_type_after (some _) old new = old

unfoldable pub set_content_type : String → Writer → Writer
set_content_type value w = record w {
  content_type = content_type_after w.status w.content_type value;
}

abbrev write_encoded : Result String → Writer → Option Error × Writer
write_encoded (ok text) w = (none, write_body text w)
write_encoded (err e) w = (some (wrapped "failed to encode response to json" e), w)

-- `encoded` is what json.Encoder makes of the data; it writes nothing when it fails.
unfoldable pub write_json : ℕ → Result String → Writer → Option Error × Writer
unfolding write_header write_body set_content_type
write_json status encoded w =
    write_encoded encoded (write_header status (set_content_type "application/json" w))

-- A handler on a writer: what it leaves, and what it panicked with.
abbrev pub Handler : Type 0
Handler = Writer → Writer × Option String

abbrev recovered : Writer × Option String → Writer × Option String
recovered (w, none) = (w, none)
recovered (w, some panic) = (write_body "Internal Server Error" (write_header 500 w), none)

-- RecoverMiddleware.Wrap.
unfoldable pub recover_wrap : Handler → Handler
unfolding write_header write_body
recover_wrap next w = recovered (next w)
