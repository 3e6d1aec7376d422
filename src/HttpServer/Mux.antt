-- ===== src/HttpServer/Mux.antt =====
-- net/http.ServeMux, as far as the patterns of the repository go: an optional method and a literal
-- path; a path that ends in a slash stands for all paths below it. Requests have clean paths, and
-- every path below which handlers stand is registered itself, so that nothing is redirected.
use platforma.Base.{
  ℕ, Bool, true, false, ◌&&◌, ◌||◌, List, [], ◌∷◌, Option, none, some, length, if◌then◌else◌, ltb,
  ◌==◌,
}
use platforma.Base.Text.{Text, codes, text_eq, strip_prefix?}
use platforma.HttpServer.{Request}

-- A pattern is a method and a path, or a path alone.
pub record Pattern : Type 0 where
  pub method : Text  -- empty for any
  pub path : Text

abbrev with_first : ℕ → Text × Text → Text × Text
with_first c (before, behind) = (c ∷ before, behind)

-- strings.Cut at the first space, with the path in front where there is none.
unfoldable pub cut_space : Text → Text × Text
cut_space [] = ([], [])
cut_space (c ∷ s) = let rest = cut_space s in if c == b' ' then ([], s) else with_first c rest

abbrev pattern_of : Text × Text → Pattern
pattern_of (path, []) = record { method = []; path = path }
pattern_of (method, c ∷ path) = record { method = method; path = c ∷ path }

unfoldable pub parse_pattern : Text → Pattern
unfolding cut_space
parse_pattern text = pattern_of (cut_space text)

abbrev ends_with_slash : Text → Bool
ends_with_slash [] = false
ends_with_slash (c ∷ []) = c == b'/'
ends_with_slash (c ∷ d ∷ s) = ends_with_slash (d ∷ s)

abbrev is_found : Option Text → Bool
is_found none = false
is_found (some _) = true

unfoldable pub matches_path : Pattern → Text → Bool
unfolding text_eq strip_prefix?
matches_path p path =
    text_eq p.path path || (ends_with_slash p.path && is_found (strip_prefix? p.path path))

-- A pattern for GET matches HEAD too.
unfoldable pub matches_method : Pattern → Text → Bool
unfolding text_eq
matches_method p method =
    text_eq p.method []
    || text_eq p.method method
    || (text_eq p.method (codes "GET") && text_eq method (codes "HEAD"))

-- Of two patterns that match a request, the one with the longer path is more specific, and at the
-- same path the one that names the method.
unfoldable pub is_better : Text → Pattern → Pattern → Bool
unfolding text_eq
is_better method p q =
    if ltb (length q.path) (length p.path)
    then true
    else if ltb (length p.path) (length q.path)
    then false
    else text_eq q.method [] || text_eq p.method method

module _ {ℓ} {R : Type ℓ} where
  abbrev better :
      Text
      → Pattern × (Request → R)
      → Option (Pattern × (Request → R))
      → Option (Pattern × (Request → R))
  better method p none = some p
  better method (p, f) (some (q, g)) = if is_better method p q then some (p, f) else some (q, g)

  unfoldable pub find_handler :
      (method path : Text) → List (Text × (Request → R)) → Option (Pattern × (Request → R))
  unfolding parse_pattern matches_path matches_method is_better
  find_handler method path [] = none
  find_handler method path ((text, handler) ∷ patterns) =
      let rest = find_handler method path patterns in
      let p = parse_pattern text in
      if matches_path p path && matches_method p method
      then better method (p, handler) rest
      else rest

  unfoldable pub has_path : Text → List (Text × (Request → R)) → Bool
  unfolding parse_pattern matches_path
  has_path path [] = false
  has_path path ((text, handler) ∷ patterns) =
      matches_path (parse_pattern text) path || has_path path patterns

  abbrev handled :
      Option (Pattern × (Request → R)) → Bool → (not_found not_allowed : R) → Request → R
  handled (some (_, handler)) known not_found not_allowed r = handler r
  handled none true not_found not_allowed r = not_allowed
  handled none false not_found not_allowed r = not_found

  unfoldable pub serve_patterns :
      (not_found not_allowed : R) → (method : Text) → List (Text × (Request → R)) → Request → R
  unfolding find_handler has_path
  serve_patterns not_found not_allowed method patterns r =
      handled (find_handler method r.path patterns) (has_path r.path patterns) not_found not_allowed
        r
