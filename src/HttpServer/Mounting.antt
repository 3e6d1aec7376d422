-- ===== src/HttpServer/Mounting.antt =====
-- Which requests a mounted handler gets.
use platforma.Base.{◌≡◌, ◌≢◌, refl, false, [], ◌∷◌, ◌++◌, none, some, arith, ==_iff}
use platforma.Base.Text.{Text, codes, text_eq, strip_prefix?}
use platforma.HttpServer.{Request, strip_prefix, or_root}

strip_prefix?-append : (prefix rest : Text) → strip_prefix? prefix (prefix ++ rest) ≡ some rest
unfolding strip_prefix?
strip_prefix?-append [] rest = refl
strip_prefix?-append (c ∷ prefix) rest =
    ground (arith, strip_prefix?-append prefix rest, ==_iff c c)

module _ {ℓ} {R : Type ℓ} where
  -- For requests whose raw path is empty, and prefixes other than "/": a handler mounted at a prefix
  -- gets the path behind the prefix, or "/" if nothing is left; a path without the prefix is
  -- answered as not found; and a handler mounted at a prefix that is not empty, below another, is
  -- reached by the two prefixes in turn.
  pub strip_prefix_lem :
      (not_found : R) (outer inner rest path : Text) (handler : Request → R)
      → text_eq outer (codes "/") ≡ false
      → text_eq inner (codes "/") ≡ false
      → inner ≢ []
      → (strip_prefix not_found outer handler (record { path = outer ++ rest; raw_path = [] })
          ≡ handler (record { path = or_root rest; raw_path = [] }))
        × (strip_prefix? outer path ≡ none
            → strip_prefix not_found outer handler (record { path = path; raw_path = [] })
              ≡ not_found)
        × (strip_prefix not_found outer
              (strip_prefix not_found inner handler)
              (record { path = outer ++ (inner ++ rest); raw_path = [] })
            ≡ handler (record { path = or_root rest; raw_path = [] }))
  unfolding strip_prefix
  strip_prefix_lem not_found outer [] rest path handler p q filled = absurd (filled refl)
  strip_prefix_lem not_found outer (c ∷ inner) rest path handler p q filled = (
    ground (arith, p, strip_prefix?-append outer rest),
    λ h. ground (arith, p, h),
    ground (
      arith,
      p,
      q,
      strip_prefix?-append outer (c ∷ inner ++ rest),
      strip_prefix?-append (c ∷ inner) rest,
    ),
  )
