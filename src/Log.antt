-- ===== src/Log.antt =====
-- log/event.go, levels.go, sampler.go and WriteEvent: wide events and their sampling. An event's
-- mutex makes each operation one step; `now` is the clock at the call.
pub mod Levels
pub mod Attrs
pub mod Requests
pub mod Middleware
pub mod Tracing
pub mod Arguments
pub mod Logger
pub mod Package
use platforma.Base.{
  ℕ, zero, suc, ◌+◌, ◌-◌, ◌≤◌, String, Bool, true, false, not, ◌&&◌, ◌||◌, List, [], ◌∷◌, ◌++◌, map,
  Option, none, some, str_eq, ltb, leb, if◌then◌else◌,
}
use platforma.Base.Dict.{lookup, insert}

-- A level is its distance from LevelDebug, the lowest that the package names.
abbrev pub Level : Type 0
Level = ℕ

abbrev pub level_debug : Level
level_debug = 0

abbrev pub level_info : Level
level_info = 4

abbrev pub level_warn : Level
level_warn = 8

abbrev pub level_error : Level
level_error = 12

abbrev pub level_info_forced : Level
level_info_forced = 14

pub record StepRecord : Type 0 where
  pub timestamp : ℕ
  pub level : Level
  pub name : String

pub record ErrorRecord : Type 0 where
  pub timestamp : ℕ
  pub error : String

-- The values that attributes take; `other` is a value that the package does not look at.
pub data Value : Type 0 where
  int : ℕ → Value
  string other : String → Value
  time duration : ℕ → Value
  steps : List StepRecord → Value
  errors : List ErrorRecord → Value

pub record Event : Type 0 where
  pub name : String
  pub timestamp : ℕ
  pub level : Level
  pub duration : ℕ
  pub attrs : List (String × Value)
  pub steps : List StepRecord
  pub errors : List ErrorRecord

abbrev pub attr : String → Event → Option Value
attr key e = lookup key e.attrs

unfoldable pub new_event : String → ℕ → Event
new_event name now = record {
  name = name;
  timestamp = now;
  level = level_debug;
  duration = 0;
  attrs = [];
  steps = [];
  errors = [];
}

unfoldable pub set_level : Level → Event → Event
set_level level e = if ltb e.level level then record e { level = level } else e

-- maps.Copy.
unfoldable pub copy_attrs : List (String × Value) → List (String × Value) → List (String × Value)
copy_attrs attrs [] = attrs
copy_attrs attrs ((key, value) ∷ more) = copy_attrs (insert key value attrs) more

unfoldable pub add_attrs : List (String × Value) → Event → Event
unfolding copy_attrs
add_attrs more e = record e { attrs = copy_attrs e.attrs more }

unfoldable pub add_step : Level → String → ℕ → Event → Event
unfolding set_level
add_step level name now e =
    let raised = set_level level e in
    record raised {
      steps = raised.steps ++ record { timestamp = now; level = level; name = name } ∷ [];
    }

-- A nil error is `none`.
unfoldable pub add_error : Option String → ℕ → Event → Event
unfolding set_level
add_error none now e = e
add_error (some error) now e =
    let raised = set_level level_error e in
    record raised { errors = raised.errors ++ record { timestamp = now; error = error } ∷ [] }

-- time.Since reads a clock that does not go back.
unfoldable pub finish : ℕ → Event → Event
finish now e = record e { duration = now - e.timestamp }

unfoldable pub has_errors : Event → Bool
has_errors e = elim e.errors [ [] ↦ false | _ ∷ _ ↦ true ]

abbrev pub builtin_attr_keys : List String
builtin_attr_keys = "name" ∷ "timestamp" ∷ "duration" ∷ "steps" ∷ "errors" ∷ []

-- slices.Contains.
unfoldable pub contains : List String → String → Bool
contains [] key = false
contains (k ∷ keys) key = str_eq k key || contains keys key

unfoldable pub append_unique : List String → String → List String
append_unique keys key = if contains keys key then keys else keys ++ key ∷ []

-- The loop that adds the additional reserved keys.
unfoldable pub append_all : List String → List String → List String
unfolding append_unique
append_all keys [] = keys
append_all keys (key ∷ more) = append_all (append_unique keys key) more

abbrev pub default_keys : List String
default_keys =
    "level" ∷ "domainName" ∷ "traceId" ∷ "serviceName" ∷ "startupTask" ∷ "userId" ∷ "workerId" ∷ []

-- `context_keys` are the keys of a map, in the order in which this run meets them.
unfoldable pub reserved_attr_keys : List String → List String
unfolding append_all contains
reserved_attr_keys context_keys =
    append_all (append_all builtin_attr_keys default_keys) context_keys

-- The custom attributes that are kept.
unfoldable pub custom_attrs : List String → List (String × Value) → List (String × Value)
unfolding contains
custom_attrs reserved [] = []
custom_attrs reserved ((key, value) ∷ attrs) =
    let rest = custom_attrs reserved attrs in
    if contains reserved key then rest else (key, value) ∷ rest

abbrev step_attrs : List StepRecord → List (String × Value)
step_attrs [] = []
step_attrs (s ∷ ss) = ("steps", steps (s ∷ ss)) ∷ []

abbrev error_attrs : List ErrorRecord → List (String × Value)
error_attrs [] = []
error_attrs (x ∷ xs) = ("errors", errors (x ∷ xs)) ∷ []

abbrev pub builtin_attrs : Event → List (String × Value)
builtin_attrs e =
    ("name", string e.name)
    ∷ ("timestamp", time e.timestamp)
    ∷ ("duration", duration e.duration)
    ∷ (step_attrs e.steps ++ error_attrs e.errors)

-- The custom attributes stand in the order in which this run meets the keys of the map.
unfoldable pub to_attrs : List String → Event → List (String × Value)
unfolding append_all custom_attrs
to_attrs additional e =
    builtin_attrs e ++ custom_attrs (append_all builtin_attr_keys additional) e.attrs

-- A sampler's decision; `random_keep` is the outcome of rand.Float64() < s.randomKeepRate.
pub record DefaultSampler : Type 0 where
  pub slow_threshold : ℕ
  pub keep_http_status_at_least : ℕ

abbrev status_of : Option Value → ℕ
status_of (some (int status)) = status
status_of _ = 0

unfoldable pub should_sample : DefaultSampler → Bool → Event → Bool
unfolding has_errors lookup
should_sample s random_keep e =
    if has_errors e
    then true
    else if leb s.slow_threshold e.duration
    then true
    else if str_eq e.name "http.request"
        && leb s.keep_http_status_at_least (status_of (lookup "request.status" e.attrs))
    then true
    else random_keep

-- WideEventLogger.WriteEvent: what is logged, with its level.
unfoldable pub write_event :
    (Event → Bool) → List String → ℕ → Event → Option (Level × List (String × Value))
unfolding finish to_attrs
write_event sampler reserved now e =
    let finished = finish now e in
    if sampler finished then some (finished.level, to_attrs reserved finished) else none
