-- ===== src/HttpServer.antt =====
-- httpserver/handlergroup.go and middleware.go: mounting a handler under a path prefix, and wrapping
-- one in middlewares. `R` is what a handler does.
pub mod Mounting
pub mod Order
pub mod Responses
pub mod Recovery
pub mod Server
pub mod Mux
use platforma.Base.{
  ℕ, Bool, true, false, ◌&&◌, ◌||◌, not, List, [], ◌∷◌, ◌++◌, reverse, Option, none, some,
  if◌then◌else◌, ◌==◌,
}
use platforma.Base.Text.{Text, codes, text_eq, trim_right, strip_prefix?}

pub record Request : Type 0 where
  pub path : Text
  pub raw_path : Text  -- empty unless the path has an unusual encoding

abbrev or_root : Text → Text
or_root [] = codes "/"
or_root (c ∷ s) = c ∷ s

abbrev starts_with_slash : Text → Bool
starts_with_slash [] = true
starts_with_slash (c ∷ s) = c == b'/'

module _ {ℓ} {R : Type ℓ} where
  -- http.StripPrefix strips both paths, and answers with `not_found` unless both have the prefix;
  -- an empty raw path needs none.
  unfoldable pub http_strip_prefix : R → Text → (Request → R) → Request → R
  unfolding strip_prefix?
  http_strip_prefix not_found prefix handler r = elim (strip_prefix? prefix r.path) [
    | none ↦ not_found
    | some path ↦ elim r.raw_path [
      | [] ↦ handler (record { path = path; raw_path = [] })
      | c ∷ raw ↦ elim (strip_prefix? prefix (c ∷ raw)) [
        | none ↦ not_found
        | some raw_path ↦ handler (record { path = path; raw_path = raw_path })
      ]
    ]
  ]

  -- `normalized` of stripPrefix.
  unfoldable pub normalized : (Request → R) → Request → R
  normalized handler r = elim r.path [
    | _ ∷ _ ↦ handler r
    | [] ↦ elim r.raw_path [
      | [] ↦ handler (record { path = codes "/"; raw_path = [] })
      | _ ∷ _ ↦ handler (record { path = codes "/"; raw_path = codes "/" })
    ]
  ]

  unfoldable pub strip_prefix : R → Text → (Request → R) → Request → R
  unfolding http_strip_prefix normalized text_eq
  strip_prefix not_found prefix handler =
      if text_eq prefix (codes "/")
      then handler
      else http_strip_prefix not_found prefix (normalized handler)

  -- The patterns that Mount registers with the mux, or a panic.
  abbrev register_mounted : R → Text → (Request → R) → List (Text × (Request → R))
  register_mounted not_found prefix handler =
      if text_eq prefix (codes "/")
      then (prefix, strip_prefix not_found prefix handler) ∷ []
      else (prefix, strip_prefix not_found prefix handler)
        ∷ (prefix ++ codes "/", strip_prefix not_found prefix handler)
        ∷ []

  unfoldable pub mount : R → Text → (Request → R) → Option (List (Text × (Request → R)))
  unfolding strip_prefix text_eq trim_right
  mount not_found prefix handler =
      if starts_with_slash prefix
      then some (register_mounted not_found (or_root (trim_right (λ c. c == b'/') prefix)) handler)
      else none

module _ {ℓ} {H : Type ℓ} where
  -- The loop over slices.Backward(middlewares).
  unfoldable pub wrap_loop : H → List (H → H) → H
  wrap_loop final [] = final
  wrap_loop final (middleware ∷ middlewares) = wrap_loop (middleware final) middlewares

  unfoldable pub wrap_handler_in_middleware : H → List (H → H) → H
  unfolding wrap_loop
  wrap_handler_in_middleware handler middlewares = wrap_loop handler (reverse middlewares)
