-- ===== src/Log/Arguments.antt =====
-- The arguments of the methods of a logger, as log/slog pairs them to attributes, and
-- simpleLogEventAttrs of log/wideevent_logger.go.
pub mod Pairs
use platforma.Base.{String, List, [], ◌∷◌}
use platforma.Base.Dict.{insert}
use platforma.Log.{Value, string}

-- An argument is a text, an attribute, which can also stand as a value behind a key, or another
-- value.
pub data Argument : Type 0 where
  text : String → Argument
  attr : (key : String) (attr_value as_value : Value) → Argument
  value : Value → Argument

abbrev any_value : Argument → Value
any_value (text s) = string s
any_value (attr key v as_value) = as_value
any_value (value v) = v

-- What slog.Record.Add makes of arguments.
unfoldable pub record_add : List Argument → List (String × Value)
record_add [] = []
record_add (text s ∷ []) = ("!BADKEY", string s) ∷ []
record_add (text key ∷ arg ∷ args) = (key, any_value arg) ∷ record_add args
record_add (attr key v _ ∷ args) = (key, v) ∷ record_add args
record_add (value v ∷ args) = ("!BADKEY", v) ∷ record_add args

-- attrs[attr.Key] = attr.Value, for each.
abbrev collect_attrs : List (String × Value) → List (String × Value) → List (String × Value)
collect_attrs attrs [] = attrs
collect_attrs attrs ((key, v) ∷ more) = collect_attrs (insert key v attrs) more

unfoldable pub simple_log_event_attrs : List Argument → List (String × Value)
unfolding record_add
simple_log_event_attrs args = collect_attrs [] (record_add args)
