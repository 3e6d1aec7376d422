-- ===== src/Tests/Mounts.antt =====
-- httpserver/ on two prefixes and two middlewares.
use platforma.HttpServer.Responses.{Handler, Writer, write_body, recover_wrap}
use platforma.HttpServer.Recovery.{recover_wrap_outermost}
use platforma.HttpServer.Server.{
  HttpServer, new_file_server, mount_group, new_http_server, new_handler_group,
}
use platforma.Base.{List, Option, some, map, ◌≢◌, ◌⊎◌, ◌≡◌, refl, [], ◌∷◌, none}
use platforma.Base.Text.{Text, codes, text_eq, trim_right}
use platforma.HttpServer.{wrap_handler_in_middleware, mount}

abbrev fresh : Writer
fresh = record { status = none; content_type = none; body = [] }

abbrev file_paths : Option (HttpServer Text) → List Text
file_paths none = []
file_paths (some s) = map (λ p. p.0) s.group.patterns

mount_relative : mount {R = Text} [] (codes "api") (λ r. r.path) ≡ none
unfolding mount
mount_relative = refl

-- A middleware that writes, around a handler that panics.
recover_wrap_outermost_example :
    let inner =
      wrap_handler_in_middleware {H = Handler}
        (λ w. (w, some "nil map"))
        ((λ next w. next (write_body "partial" w)) ∷ []) in
    let (w', panic) = inner fresh in
    let (end, escaped) =
      wrap_handler_in_middleware {H = Handler}
        (λ w. (w, some "nil map"))
        (recover_wrap ∷ (λ next w. next (write_body "partial" w)) ∷ [])
        fresh in
    (escaped ≡ none)
    × (((panic ≡ none) × (end ≡ w'))
        ⊎ ((panic ≢ none)
            × (((w'.status ≡ none) × (end.status ≡ some 500))
                ⊎ ((w'.status ≢ none) × (end.status ≡ w'.status)))))
recover_wrap_outermost_example =
    recover_wrap_outermost (λ w. (w, some "nil map"))
      ((λ next w. next (write_body "partial" w)) ∷ []) fresh

-- The files of a server mounted below /files are asked for by their own paths.
files_behind_prefix :
    file_paths (new_file_server [] (λ r. r.path) (codes "/files/") (codes "8080"))
    ≡ codes "/files" ∷ codes "/files/" ∷ []
unfolding new_file_server mount mount_group new_http_server new_handler_group trim_right text_eq
files_behind_prefix = refl
