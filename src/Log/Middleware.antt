-- ===== src/Log/Middleware.antt =====
-- The event of a request whose handler panics.
use Prim.Native.String.{◌++◌ as append_text}
use platforma.Base.{
  ℕ, ◌≤◌, ◌≡◌, refl, String, Bool, true, false, List, [], ◌∷◌, ◌++◌, ◌∙◌, some, arith, All,
}
use platforma.Base.Dict.{lookup, lookup-insert}
use platforma.Log.{
  Value, int, string, ErrorRecord, Level, level_error, Event, DefaultSampler, should_sample,
  write_event, contains, has_errors, add_error, set_level, add_attrs, copy_attrs, finish, to_attrs,
  new_event,
}
use platforma.Log.Requests.{
  Recorder, HandlerAction, write_header, write_body, change_event, handler_run, close_event,
  wrap_request, recover_status,
}
use platforma.Log.Attrs.{lookup-to_attrs}

-- The handler has not answered yet.
abbrev pub IsSilent : HandlerAction → Type 0
IsSilent (change_event _) = Unit
IsSilent _ = ⊥

handler_run-IsSilent :
    (actions : List HandlerAction) (r : Recorder) (e : Event)
    → All IsSilent actions
    → (handler_run actions (r, e)).0 ≡ r
unfolding handler_run
handler_run-IsSilent [] r e h = refl
handler_run-IsSilent (change_event change ∷ actions) r e h =
    handler_run-IsSilent actions r (change e) h.1
handler_run-IsSilent (write_header _ ∷ actions) r e h = absurd h.0
handler_run-IsSilent (write_body ∷ actions) r e h = absurd h.0

has_errors_last :
    (e : Event) (xs : List ErrorRecord) (x : ErrorRecord)
    → has_errors (record e { errors = xs ++ x ∷ [] }) ≡ true
unfolding has_errors
has_errors_last e [] x = refl
has_errors_last e (y ∷ ys) x = refl

-- An event that is closed after a panic.
closed_after_panic :
    (panic : String) (now : ℕ) (r : Recorder) (e : Event)
    → let c = close_event (some panic) now r e in
      (has_errors c ≡ true)
      × (level_error ≤ c.level)
      × (lookup "request.status" c.attrs ≡ some (int (recover_status (some panic) r)))
unfolding close_event has_errors add_error set_level copy_attrs
closed_after_panic panic now r e = (
  has_errors_last e (set_level level_error e).errors
      (record { timestamp = now; error = append_text "panic recovered: " panic }),
  ground arith,
  lookup-insert "request.status" "request.status" (int (recover_status (some panic) r))
      (set_level level_error e).attrs,
)

-- A request whose handler panics before it answers is always logged by the default sampler, at
-- least at LevelError and with status 500, and the panic goes on to the caller; the key
-- request.status must not be a reserved one.
pub wrap_request_panic :
    (s : DefaultSampler) (random_keep : Bool) (reserved : List String)
    (event_name method path remote : String) (begin closed written : ℕ)
    (actions : List HandlerAction) (panic : String)
    → All IsSilent actions
    → contains reserved "request.status" ≡ false
    → let result =
        wrap_request
          (should_sample s random_keep)
          reserved
          event_name
          method
          path
          remote
          begin
          closed
          written
          actions
          (some panic) in
      (level : Level) × (attrs : List (String × Value)) × (result
        ≡ (some (level, attrs), some panic))
      × (level_error ≤ level)
      × (lookup "request.status" attrs ≡ some (int 500))
unfolding wrap_request
wrap_request_panic s random_keep reserved event_name method path remote begin closed written actions
      panic silent free =
    let (errors, raised, status) = closed_after_panic panic closed left.0 left.1 in
    let sampled : should_sample s random_keep final ≡ true =
      unfold should_sample finish in ground (arith, errors) in
    (
      final.level,
      to_attrs reserved final,
      (unfold write_event in rw sampled refl),
      (unfold finish in raised),
      rw ((lookup-to_attrs reserved "request.status" final).0 (unfold contains in refl), free)
          (unfold finish in
            status
            ∙ (unfold recover_status in
                rw (handler_run-IsSilent actions fresh_recorder opened silent) refl)),
    )
  where
    fresh_recorder : Recorder
    fresh_recorder = record { status_code = 200; wrote_header = false; sent = [] }

    opened : Event
    opened =
        add_attrs
          (("request.method", string method)
            ∷ ("request.path", string path)
            ∷ ("request.remoteAddr", string remote)
            ∷ [])
          (new_event event_name begin)

    left : Recorder × Event
    left = handler_run actions (fresh_recorder, opened)

    final : Event
    final = finish written (close_event (some panic) closed left.0 left.1)
