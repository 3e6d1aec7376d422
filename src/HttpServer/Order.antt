-- ===== src/HttpServer/Order.antt =====
-- The order of middlewares.
use mathlib.Core.List.{reverse-append}
use platforma.Base.{◌≡◌, refl, ap, ◌∙◌, List, [], ◌∷◌, ◌++◌, reverse}
use platforma.HttpServer.{wrap_loop, wrap_handler_in_middleware}

module _ {ℓ} {H : Type ℓ} where
  wrap_loop-append :
      (final : H) (ms ns : List (H → H))
      → wrap_loop final (ms ++ ns) ≡ wrap_loop (wrap_loop final ms) ns
  unfolding wrap_loop
  wrap_loop-append final [] ns = refl
  wrap_loop-append final (m ∷ ms) ns = wrap_loop-append (m final) ms ns

  -- The middlewares that were added first are the outer ones: a request passes those of `outer`
  -- before those of `inner`, and the first of a list before the rest.
  pub wrap_handler_in_middleware-append :
      (handler : H) (first : H → H) (outer inner : List (H → H))
      → (wrap_handler_in_middleware handler (outer ++ inner)
          ≡ wrap_handler_in_middleware (wrap_handler_in_middleware handler inner) outer)
        × (wrap_handler_in_middleware handler (first ∷ inner)
            ≡ first (wrap_handler_in_middleware handler inner))
  unfolding wrap_handler_in_middleware
  wrap_handler_in_middleware-append handler first outer inner =
      (split outer inner, split (first ∷ []) inner)
    where
      split :
          (os is : List (H → H))
          → wrap_loop handler (reverse (os ++ is))
            ≡ wrap_loop (wrap_loop handler (reverse is)) (reverse os)
      split os is =
          ap (wrap_loop handler) (reverse-append os is)
          ∙ wrap_loop-append handler (reverse is) (reverse os)
