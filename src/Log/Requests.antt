-- ===== src/Log/Requests.antt =====
-- log/wideevent_middleware.go: the HTTP middleware that writes an event for each request.
use Prim.Native.String.{◌++◌ as append_text}
use platforma.Base.{
  ℕ, String, Bool, true, false, List, [], ◌∷◌, ◌++◌, Option, none, some, str_eq, if◌then◌else◌,
}
use platforma.Base.Errors.{Error, sentinel, wrapped, Result, ok, err}
use platforma.Log.{Level, Value, int, string, Event, new_event, add_attrs, add_error, write_event}

-- statusResponseWriter over a ResponseWriter; `sent` are the statuses it was asked to send.
pub record Recorder : Type 0 where
  pub status_code : ℕ
  pub wrote_header : Bool
  pub sent : List ℕ

unfoldable pub recorder_write_header : ℕ → Recorder → Recorder
recorder_write_header status r = record {
  status_code = status;
  wrote_header = true;
  sent = r.sent ++ status ∷ [];
}

unfoldable pub recorder_write : Recorder → Recorder
unfolding recorder_write_header
recorder_write r = if r.wrote_header then r else recorder_write_header 200 r

-- What a handler does with its response writer and with the event of its context.
pub data HandlerAction : Type 0 where
  write_header : ℕ → HandlerAction
  write_body : HandlerAction
  change_event : (Event → Event) → HandlerAction

unfoldable pub handler_step : HandlerAction → Recorder × Event → Recorder × Event
unfolding recorder_write_header recorder_write
handler_step (write_header status) (r, e) = (recorder_write_header status r, e)
handler_step write_body (r, e) = (recorder_write r, e)
handler_step (change_event change) (r, e) = (r, change e)

unfoldable pub handler_run : List HandlerAction → Recorder × Event → Recorder × Event
unfolding handler_step
handler_run [] s = s
handler_run (action ∷ actions) s = handler_run actions (handler_step action s)

abbrev panic_error : Option String → Option String
panic_error none = none
panic_error (some panic) = some (append_text "panic recovered: " panic)

-- The deferred function on what the handler left: `panic` is what it panicked with.
unfoldable pub recover_status : Option String → Recorder → ℕ
recover_status none r = r.status_code
recover_status (some _) r = if r.wrote_header then r.status_code else 500

unfoldable pub close_event : Option String → ℕ → Recorder → Event → Event
unfolding add_error add_attrs recover_status
close_event panic now r e =
    add_attrs (("request.status", int (recover_status panic r)) ∷ [])
      (add_error (panic_error panic) now e)

-- What WideEventMiddleware.Wrap logs, and the panic that it raises again.
unfoldable pub wrap_request :
    (Event → Bool)
    → List String
    → String
    → (method path remote : String) → (begin closed written : ℕ) → List HandlerAction
    → Option String
    → Option (Level × List (String × Value)) × Option String
unfolding new_event add_attrs handler_run close_event write_event
wrap_request sampler reserved event_name method path remote begin closed written actions panic =
    let event =
      add_attrs
        (("request.method", string method)
          ∷ ("request.path", string path)
          ∷ ("request.remoteAddr", string remote)
          ∷ [])
        (new_event event_name begin) in
    let (r, e) =
      handler_run actions (record { status_code = 200; wrote_header = false; sent = [] }, event) in
    (write_event sampler reserved written (close_event panic closed r e), panic)

-- NewWideEventMiddleware: the logger must not be nil, which panics; the name and the context key
-- have defaults.
pub record WideEventMiddleware {ℓ κ} (L : Type ℓ) (K : Type κ) : Type (ℓ ⊔ κ) where
  pub logger : L
  pub event_name : String
  pub context_key : K

abbrev or_key {ℓ} : {K : Type ℓ} → Option K → K → K
or_key none default_key = default_key
or_key (some key) default_key = key

unfoldable pub new_wide_event_middleware {ℓ κ} :
    {L : Type ℓ} {K : Type κ} → Option L → String → Option K → K → Option (WideEventMiddleware L K)
new_wide_event_middleware none event_name key wide_event_key = none
new_wide_event_middleware (some logger) event_name key wide_event_key = some (record {
  logger = logger;
  event_name = if str_eq event_name "" then "http.request" else event_name;
  context_key = or_key key wide_event_key;
})

-- What a ResponseWriter may implement besides, by what its methods do.
pub record Extras (W C : Type 0) : Type 0 where
  pub flusher : Option (W → W)
  pub hijacker : Option (W → Result C × W)
  pub pusher : Option (String → W → Option Error × W)

abbrev pub not_supported : Error
not_supported = sentinel "http.ErrNotSupported"

module _ {W C : Type 0} (extras : Extras W C) where
  abbrev flush_with : Option (W → W) → W → W
  flush_with none w = w
  flush_with (some flush) w = flush w

  -- statusResponseWriter.Flush, Hijack and Push hand on to the writer below, if it can.
  unfoldable pub recorder_flush : W → W
  recorder_flush w = flush_with extras.flusher w

  abbrev wrap_hijack : Result C × W → Result C × W
  wrap_hijack (ok conn, w) = (ok conn, w)
  wrap_hijack (err e, w) = (err (wrapped "hijack response writer" e), w)

  abbrev hijack_with : Option (W → Result C × W) → W → Result C × W
  hijack_with none w = (err not_supported, w)
  hijack_with (some hijack) w = wrap_hijack (hijack w)

  unfoldable pub recorder_hijack : W → Result C × W
  recorder_hijack w = hijack_with extras.hijacker w

  abbrev wrap_push : Option Error × W → Option Error × W
  wrap_push (none, w) = (none, w)
  wrap_push (some e, w) = (some (wrapped "push response writer" e), w)

  abbrev push_with : Option (String → W → Option Error × W) → String → W → Option Error × W
  push_with none target w = (some not_supported, w)
  push_with (some push) target w = wrap_push (push target w)

  unfoldable pub recorder_push : String → W → Option Error × W
  recorder_push target w = push_with extras.pusher target w
