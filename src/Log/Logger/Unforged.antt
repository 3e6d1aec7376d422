-- ===== src/Log/Logger/Unforged.antt =====
-- What an entry says under the keys of the context.
use mathlib.Core.List.{append_assoc}
use platforma.Base.{
  ◌≡◌, refl, sym, ap, ◌∙◌, String, Bool, true, false, List, [], ◌∷◌, ◌++◌, Option, none, some,
  arith, str_eq, eq_iff, ℕ, ◌⊎◌, inl, inr, Bool-cases,
}
use platforma.Base.Dict.{lookup}
use platforma.Log.{
  Level, Value, Event, builtin_attr_keys, contains, finish, to_attrs, write_event,
  reserved_attr_keys, new_event, set_level, add_attrs,
}
use platforma.Log.Attrs.{lookup-to_attrs}
use platforma.Log.Arguments.{Argument, simple_log_event_attrs}
use platforma.Log.Logger.{
  Context, ContextKey, Entry, WideEventLogger, context_attrs, context_handle, default_context_keys,
  replace_attrs, log_attrs, logger_write_event, write_simple_log, new_wide_event_logger, key_names,
  entry_of,
}

pub some-injective : {A : Type 0} {a b : A} → some a ≡ some b → a ≡ b
some-injective e = cc

lookup-append :
    (key : String) (xs ys : List (String × Value))
    → lookup key xs ≡ none
    → lookup key (xs ++ ys) ≡ lookup key ys
unfolding lookup
lookup-append key [] ys h = refl
lookup-append key ((k, v) ∷ xs) ys h = ground (arith, lookup-append key xs ys)

pub lookup-replace_attrs :
    (key : String) (attrs : List (String × Value))
    → str_eq key "time" ≡ false
    → str_eq key "msg" ≡ false
    → lookup key (replace_attrs attrs) ≡ lookup key attrs
unfolding lookup replace_attrs
lookup-replace_attrs key [] t m = refl
lookup-replace_attrs key ((k, v) ∷ attrs) t m = ground (
  arith,
  eq_iff k key,
  eq_iff k "time",
  eq_iff k "msg",
  eq_iff key "time",
  eq_iff key "msg",
  lookup-replace_attrs key attrs t m,
)

module _ (sampler : Option (Context → Event → Bool)) (keys : List (String × ContextKey))
    (ctx : Context) (key : String)
    (reserved : contains (reserved_attr_keys (key_names keys)) key ≡ true)
    (own : contains builtin_attr_keys key ≡ false) (not_time : str_eq key "time" ≡ false)
    (not_msg : str_eq key "msg" ≡ false) where
  abbrev logger : WideEventLogger
  logger = new_wide_event_logger sampler keys

  abbrev from_context : Option Value
  from_context = lookup key (context_attrs default_context_keys ctx ++ context_attrs keys ctx)

  log_attrs_unforged :
      (level : Level) (message : String) (e : Event)
      → lookup key (log_attrs logger ctx level message (to_attrs logger.reserved_keys e)).attrs
        ≡ from_context
  unfolding log_attrs context_handle new_wide_event_logger
  log_attrs_unforged level message e =
      lookup-replace_attrs key _ not_time not_msg
      ∙ ap (lookup key) (
          append_assoc (to_attrs (reserved_attr_keys (key_names keys)) e) _
            (context_attrs keys ctx))
      ∙ lookup-append key (to_attrs (reserved_attr_keys (key_names keys)) e) _
          ((lookup-to_attrs (reserved_attr_keys (key_names keys)) key e).0 own ∙ (rw reserved refl))

  entry_of_unforged :
      (message : String) (now : ℕ) (e : Event) (entry : Entry)
      → entry_of logger ctx message (write_event (logger.sampler ctx) logger.reserved_keys now e)
        ≡ some entry
      → lookup key entry.attrs ≡ from_context
  unfolding write_event
  entry_of_unforged message now e entry written =
      elim (Bool-cases (logger.sampler ctx (finish now e))) [
        | inr dropped ↦ cc (rw dropped at written)
        | inl kept ↦
            let same : log_attrs logger ctx (finish now e).level message
                  (to_attrs logger.reserved_keys (finish now e))
                ≡ entry =
              some-injective (rw kept at written) in
            ap (λ (x : Entry). lookup key x.attrs) (sym same)
            ∙ log_attrs_unforged (finish now e).level message (finish now e)
      ]

  -- In what a logger writes of an event or of a message, a reserved key that is not one of the
  -- event's own fields, "time" or "msg" has the value that the context gives it, whatever the
  -- event's attributes or the message's arguments say.
  pub logger_write_event_unforged :
      (e : Event) (level : Level) (message : String) (args : List Argument) (begin now : ℕ)
      (entry : Entry)
      → (logger_write_event logger ctx now e ≡ some entry)
        ⊎ (write_simple_log logger ctx level message args begin now ≡ some entry)
      → lookup key entry.attrs ≡ from_context
  unfolding logger_write_event write_simple_log
  logger_write_event_unforged e level message args begin now entry (inl written) =
      entry_of_unforged "" now e entry written
  logger_write_event_unforged e level message args begin now entry (inr written) =
      entry_of_unforged message now
        (add_attrs (simple_log_event_attrs args) (set_level level (new_event "log.record" begin)))
        entry written
