-- ===== src/Tests/Tracing.antt =====
-- log/ with a logger, one request and its trace ID.
use platforma.Base.{◌≡◌, refl, String, List, [], ◌∷◌, none, some, inl}
use platforma.Base.Dict.{lookup, insert}
use platforma.Log.{
  Value, int, int, string, Event, new_event, set_level, level_warn, level_debug, add_attrs,
  write_event, finish, to_attrs, reserved_attr_keys, contains,
}
use platforma.Log.Logger.{
  debug, warn_context, write_simple_log, logger_call, Context, ContextKey, package_key, other_key,
  Entry, background, context_attrs, new_wide_event_logger, logger_write_event, log_attrs,
  context_handle, replace_attrs,
}
use platforma.Log.Logger.Kept.{logger_call_kept}
use platforma.Log.Arguments.Pairs.{in_turn, stated, last_of}
use platforma.Log.Arguments.{Argument, text, value, simple_log_event_attrs, record_add}
use platforma.Log.Package.{initial_package, set_default, package_call, new_logger, slog_call}
use platforma.Log.Logger.Unforged.{logger_write_event_unforged}
use platforma.Log.Tracing.{with_value, new_trace_id_middleware, trace_id_wrap, trace_id_wrap_logged}

abbrev keys : List (String × ContextKey)
keys = ("tenant", other_key "tenant") ∷ []

abbrev traced : Context
traced = with_value (package_key "traceId") (string "id-1") background

-- The event's attribute does not pass for the trace ID of the request.
abbrev forged : Event
forged =
    add_attrs (("traceId", string "forged") ∷ ("time", int 3) ∷ ("user", string "alice") ∷ [])
      (new_event "job" 1)

abbrev entry : Entry
entry = record {
  level = level_debug;
  message = "";
  attrs =
      ("name", string "job")
      ∷ ("timestamp", Value.time 1)
      ∷ ("duration", Value.duration 4)
      ∷ ("user", string "alice")
      ∷ ("traceId", string "id-1")
      ∷ [];
}

entry_written : logger_write_event (new_wide_event_logger none keys) traced 5 forged ≡ some entry
unfolding logger_write_event new_wide_event_logger log_attrs context_handle context_attrs
    replace_attrs write_event finish to_attrs reserved_attr_keys contains add_attrs new_event
    with_value insert
entry_written = refl

logger_write_event_unforged_example : lookup "traceId" entry.attrs ≡ some (string "id-1")
unfolding context_attrs lookup with_value
logger_write_event_unforged_example =
    logger_write_event_unforged none keys traced "traceId"
      (unfold reserved_attr_keys contains in refl) (unfold contains in refl) refl refl forged
      level_warn "" [] 0 5 entry (inl entry_written)

trace_id_wrap_logged_example :
    (lookup {V = String} "X-Trace" (insert "X-Trace" "id-1" []) ≡ some "id-1")
    × (lookup "traceId" entry.attrs ≡ some (string "id-1"))
unfolding trace_id_wrap new_trace_id_middleware
trace_id_wrap_logged_example =
    trace_id_wrap_logged none keys "id-1" "X-Trace" background [] forged level_warn "" [] 0 5 entry
      (inl entry_written)

-- The package's logger is silent about debug lines, until another logger takes its place.
debug_is_silent : package_call initial_package debug "hidden" [] 0 0 ≡ none
unfolding package_call initial_package new_logger slog_call
debug_is_silent = refl

default_replaced :
    package_call
      (set_default (logger_call (new_wide_event_logger none keys)) initial_package)
      debug
      "seen"
      []
      1
      2
    ≡ logger_call (new_wide_event_logger none keys) debug "seen" [] 1 2
unfolding package_call set_default
default_replaced = refl

-- The last text has no value, and a key that comes twice keeps its last value.
arguments_paired :
    simple_log_event_attrs
      (text "user" ∷ text "alice" ∷ value (int 3) ∷ text "user" ∷ value (int 4) ∷ text "lost" ∷ [])
    ≡ ("user", int 4) ∷ ("!BADKEY", string "lost") ∷ []
unfolding simple_log_event_attrs record_add insert
arguments_paired = refl

-- A key that is given twice, and one that is reserved.
abbrev given : List (String × Argument)
given = ("user", text "alice") ∷ ("user", value (int 7)) ∷ ("traceId", text "forged") ∷ []

abbrev line_entry : Entry
line_entry = record {
  level = level_warn;
  message = "saved";
  attrs =
      ("name", string "log.record")
      ∷ ("timestamp", Value.time 1)
      ∷ ("duration", Value.duration 1)
      ∷ ("user", int 7)
      ∷ ("traceId", string "id-1")
      ∷ [];
}

line_written :
    logger_call (new_wide_event_logger none keys) (warn_context traced) "saved" (in_turn given) 1 2
    ≡ some line_entry
unfolding logger_call write_simple_log new_wide_event_logger log_attrs context_handle context_attrs
    replace_attrs write_event finish to_attrs reserved_attr_keys contains add_attrs new_event
    with_value insert simple_log_event_attrs record_add set_level
line_written = refl

logger_call_kept_example :
    (lookup "user" line_entry.attrs ≡ last_of "user" (stated given))
    × (level_warn ≡ level_warn)
    × (line_entry.message ≡ "saved")
unfolding reserved_attr_keys contains
logger_call_kept_example =
    logger_call_kept none keys (warn_context traced) "saved" "user" given 1 2 line_entry refl refl
      refl line_written
