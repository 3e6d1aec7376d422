-- ===== src/HttpServer/Recovery.antt =====
-- What the recovery middleware and WriteJSON promise the client.
use platforma.Base.{◌≡◌, ◌≢◌, ◌⊎◌, inl, inr, String, List, [], ◌∷◌, none, some, arith, Option-cases}
use platforma.HttpServer.{wrap_handler_in_middleware}
use platforma.HttpServer.Order.{wrap_handler_in_middleware-append}
use platforma.HttpServer.Responses.{Writer, Handler, recover_wrap}

recover_wrap-none : (next : Handler) (w : Writer) → (recover_wrap next w).1 ≡ none
unfolding recover_wrap
recover_wrap-none next w = ground arith

recover_wrap-status :
    (next : Handler) (w w' : Writer) (panic : String)
    → next w ≡ (w', some panic)
    → ((w'.status ≡ none) × ((recover_wrap next w).0.status ≡ some 500))
      ⊎ ((w'.status ≢ none) × ((recover_wrap next w).0.status ≡ w'.status))
unfolding recover_wrap
recover_wrap-status next w w' panic h = elim (Option-cases w'.status) [
  | inl silent ↦ inl (silent, ground (arith, h, silent))
  | inr (sent, e) ↦ inr ((λ n. cc), ground (arith, h, e))
]

-- Added before all other middlewares, RecoverMiddleware lets no panic through, whatever the handler
-- and the other middlewares do; and after a panic the client has the status that was sent before
-- it, and 500 if none was.
pub recover_wrap_outermost :
    (handler : Handler) (others : List (Handler → Handler)) (w : Writer)
    → let inner = wrap_handler_in_middleware handler others in
      let (w', panic) = inner w in
      let (end, escaped) = wrap_handler_in_middleware handler (recover_wrap ∷ others) w in
      (escaped ≡ none)
      × (((panic ≡ none) × (end ≡ w'))
          ⊎ ((panic ≢ none)
              × (((w'.status ≡ none) × (end.status ≡ some 500))
                  ⊎ ((w'.status ≢ none) × (end.status ≡ w'.status)))))
recover_wrap_outermost handler others w = rw outer (
  recover_wrap-none inner w,
  elim (Option-cases (inner w).1) [
    | inl quiet ↦ inl (quiet, unfold recover_wrap in ground (arith, quiet))
    | inr (panic, e) ↦
        inr ((λ n. cc), recover_wrap-status inner w (inner w).0 panic (ground (arith, e)))
  ],
)
  where
    inner : Handler
    inner = wrap_handler_in_middleware handler others

    outer : wrap_handler_in_middleware handler (recover_wrap ∷ others) ≡ recover_wrap inner
    outer = (wrap_handler_in_middleware-append handler recover_wrap [] others).1
