-- ===== src/Tests/Logging.antt =====
-- log/ on one event and one request.
use platforma.Base.{◌≤◌, ◌≡◌, refl, String, false, List, [], ◌∷◌, some}
use platforma.Base.Dict.{lookup}
use platforma.Log.{Value, int, Level, set_level, contains, should_sample, level_error, level_warn}
use platforma.Log.Requests.{change_event, wrap_request}
use platforma.Log.Middleware.{wrap_request_panic}

wrap_request_panic_example :
    (level : Level) × (attrs : List (String × Value)) × (wrap_request
        (should_sample (record { slow_threshold = 1000; keep_http_status_at_least = 500 }) false)
        ("level" ∷ [])
        "http.request"
        "GET"
        "/"
        "::1"
        1
        2
        3
        (change_event (set_level level_warn) ∷ [])
        (some "nil map")
      ≡ (some (level, attrs), some "nil map"))
    × (level_error ≤ level)
    × (lookup "request.status" attrs ≡ some (int 500))
unfolding contains
wrap_request_panic_example =
    wrap_request_panic (record { slow_threshold = 1000; keep_http_status_at_least = 500 }) false
      ("level" ∷ []) "http.request" "GET" "/" "::1" 1 2 3 (change_event (set_level level_warn) ∷ [])
      "nil map" (tt, tt) refl
