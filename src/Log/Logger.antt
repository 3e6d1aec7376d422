-- ===== src/Log/Logger.antt =====
-- log/wideevent_logger.go, log.go and event_context.go: loggers over contexts. What a handler of
-- log/slog writes is an entry: a level, a message and attributes.
pub mod Unforged
pub mod Kept
use platforma.Base.{
  ℕ, String, Bool, true, false, not, ◌&&◌, ◌||◌, List, [], ◌∷◌, ◌++◌, map, Option, none, some,
  str_eq, if◌then◌else◌,
}
use platforma.Log.Arguments.{Argument, simple_log_event_attrs}
use platforma.Log.{
  Level, level_debug, level_info, level_warn, level_error, Value, string, other, Event, new_event,
  set_level, add_attrs, finish, to_attrs, reserved_attr_keys, write_event,
}

-- Keys of type contextKey, and those of other packages.
pub data ContextKey : Type 0 where
  package_key other_key : String → ContextKey

-- The value of a key in the context; an event that stands there is a pointer, and not a value.
pub record Context : Type 0 where
  pub value : ContextKey → Option Value
  pub event : Option Event

-- EventFromContext.
unfoldable pub event_from_context : Context → Option Event
event_from_context ctx = ctx.event

pub record Entry : Type 0 where
  pub level : Level
  pub message : String
  pub attrs : List (String × Value)

-- `if value, ok := ctx.Value(key).(string); ok`.
abbrev pub string_attr : String → Option Value → List (String × Value)
string_attr name (some (string s)) = (name, string s) ∷ []
string_attr name _ = []

unfoldable pub context_attrs : List (String × ContextKey) → Context → List (String × Value)
context_attrs [] ctx = []
context_attrs ((name, key) ∷ keys) ctx = string_attr name (ctx.value key) ++ context_attrs keys ctx

abbrev pub default_context_keys : List (String × ContextKey)
default_context_keys =
    ("domainName", package_key "domainName")
    ∷ ("traceId", package_key "traceId")
    ∷ ("serviceName", package_key "serviceName")
    ∷ ("startupTask", package_key "startupTask")
    ∷ ("userId", package_key "userId")
    ∷ ("workerId", package_key "workerId")
    ∷ []

-- What contextHandler.Handle hands to the handler below it; `additional` is the map additionKeys in
-- the order in which this run meets its keys.
unfoldable pub context_handle : List (String × ContextKey) → Context → Entry → Entry
unfolding context_attrs
context_handle additional ctx entry = record entry {
  attrs = (entry.attrs ++ context_attrs default_context_keys ctx) ++ context_attrs additional ctx;
}

-- The function ReplaceAttr drops attributes under "time", and an empty text under "msg".
abbrev drops : String → Value → Bool
drops key (string s) = str_eq key "time" || (str_eq key "msg" && str_eq s "")
drops key _ = str_eq key "time"

unfoldable pub replace_attrs : List (String × Value) → List (String × Value)
replace_attrs [] = []
replace_attrs ((key, value) ∷ attrs) =
    let rest = replace_attrs attrs in if drops key value then rest else (key, value) ∷ rest

pub record WideEventLogger : Type 0 where
  pub sampler : Context → Event → Bool
  pub context_keys : List (String × ContextKey)
  pub reserved_keys : List String

abbrev keep_all : Option (Context → Event → Bool) → Context → Event → Bool
keep_all none ctx e = true
keep_all (some sampler) ctx e = sampler ctx e

abbrev pub key_names : List (String × ContextKey) → List String
key_names keys = map (λ k. k.0) keys

unfoldable pub new_wide_event_logger :
    Option (Context → Event → Bool) → List (String × ContextKey) → WideEventLogger
unfolding reserved_attr_keys
new_wide_event_logger sampler context_keys = record {
  sampler = keep_all sampler;
  context_keys = context_keys;
  reserved_keys = reserved_attr_keys (key_names context_keys);
}

-- l.logger.LogAttrs: the context's attributes are added, and then ReplaceAttr sees all of them.
unfoldable pub log_attrs :
    WideEventLogger → Context → Level → String → List (String × Value) → Entry
unfolding context_handle replace_attrs
log_attrs l ctx level message attrs =
    let handled =
      context_handle l.context_keys ctx
        (record { level = level; message = message; attrs = attrs }) in
    record handled { attrs = replace_attrs handled.attrs }

abbrev entry_of :
    WideEventLogger → Context → String → Option (Level × List (String × Value)) → Option Entry
entry_of l ctx message none = none
entry_of l ctx message (some (level, attrs)) = some (log_attrs l ctx level message attrs)

-- WideEventLogger.WriteEvent.
unfoldable pub logger_write_event : WideEventLogger → Context → ℕ → Event → Option Entry
unfolding log_attrs write_event
logger_write_event l ctx now e =
    entry_of l ctx "" (write_event (l.sampler ctx) l.reserved_keys now e)

-- writeSimpleLog.
unfoldable pub write_simple_log :
    WideEventLogger → Context → Level → String → List Argument → (begin now : ℕ) → Option Entry
unfolding log_attrs simple_log_event_attrs new_event set_level add_attrs write_event
write_simple_log l ctx level message args begin now = entry_of l ctx message (
    write_event (l.sampler ctx) l.reserved_keys now
      (add_attrs (simple_log_event_attrs args) (set_level level (new_event "log.record" begin))))

-- The methods of the interface logger; those without a context use context.Background().
pub data Method : Type 0 where
  debug info warn error : Method
  debug_context info_context warn_context error_context : Context → Method

abbrev pub background : Context
background = record { value = λ _. none; event = none }

abbrev pub method_level : Method → Level
method_level debug = level_debug
method_level info = level_info
method_level warn = level_warn
method_level error = level_error
method_level (debug_context _) = level_debug
method_level (info_context _) = level_info
method_level (warn_context _) = level_warn
method_level (error_context _) = level_error

abbrev pub method_context : Method → Context
method_context (debug_context ctx) = ctx
method_context (info_context ctx) = ctx
method_context (warn_context ctx) = ctx
method_context (error_context ctx) = ctx
method_context _ = background

-- Debug, Info, Warn, Error and their forms with a context.
unfoldable pub logger_call :
    WideEventLogger → Method → String → List Argument → (begin now : ℕ) → Option Entry
unfolding write_simple_log
logger_call l method message args begin now =
    write_simple_log l (method_context method) (method_level method) message args begin now
