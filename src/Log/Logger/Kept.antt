-- ===== src/Log/Logger/Kept.antt =====
-- What an entry says under the keys that are not reserved.
use platforma.Base.{
  ◌≡◌, refl, sym, ap, ◌∙◌, String, Bool, false, List, [], ◌∷◌, ◌++◌, Option, none, some, arith,
  str_eq, ℕ, inl, inr, Bool-cases,
}
use platforma.Base.Dict.{lookup}
use platforma.Log.{
  Level, Value, Event, builtin_attr_keys, default_keys, contains, finish, to_attrs, write_event,
  reserved_attr_keys, new_event, set_level, add_attrs, copy_attrs, append_all,
}
use platforma.Log.Attrs.{lookup-to_attrs, contains-append_all}
use platforma.Log.Arguments.{Argument, simple_log_event_attrs}
use platforma.Log.Arguments.Pairs.{in_turn, stated, last_of, lookup-copied}
use platforma.Log.Logger.{
  Context, ContextKey, Entry, WideEventLogger, context_attrs, string_attr, context_handle,
  default_context_keys, log_attrs, write_simple_log, new_wide_event_logger, key_names, entry_of,
  logger_call, Method, method_level, method_context,
}
use platforma.Log.Logger.Unforged.{lookup-replace_attrs, some-injective}

lookup-append-none :
    (key : String) (xs ys : List (String × Value))
    → lookup key ys ≡ none
    → lookup key (xs ++ ys) ≡ lookup key xs
unfolding lookup
lookup-append-none key [] ys h = h
lookup-append-none key ((k, v) ∷ xs) ys h = ground (arith, lookup-append-none key xs ys)

lookup-string_attr :
    (key name : String) (v : Option Value) (rest : List (String × Value))
    → str_eq name key ≡ false
    → lookup key (string_attr name v ++ rest) ≡ lookup key rest
unfolding lookup
lookup-string_attr key name v rest differs = ground (arith, differs)

lookup-context_attrs :
    (key : String) (keys : List (String × ContextKey)) (ctx : Context)
    → contains (key_names keys) key ≡ false
    → lookup key (context_attrs keys ctx) ≡ none
unfolding context_attrs contains lookup
lookup-context_attrs key [] ctx h = refl
lookup-context_attrs key ((name, k) ∷ keys) ctx h =
    lookup-string_attr key name (ctx.value k) (context_attrs keys ctx) (ground (arith, h))
    ∙ lookup-context_attrs key keys ctx (ground (arith, h))

default_key :
    (key : String)
    → contains default_keys key ≡ false
    → contains (key_names default_context_keys) key ≡ false
unfolding contains
default_key key h = ground (arith, h)

in_no_part :
    (xs ys zs : List String) (key : String)
    → contains (append_all (append_all xs ys) zs) key ≡ false
    → (contains xs key ≡ false) × (contains ys key ≡ false) × (contains zs key ≡ false)
in_no_part xs ys zs key h =
    let outer = contains-append_all (append_all xs ys) zs key in
    let inner = contains-append_all xs ys key in
    (ground (arith, outer, inner), ground (arith, outer, inner), ground (arith, outer, inner))

module _ (sampler : Option (Context → Event → Bool)) (keys : List (String × ContextKey))
    (ctx : Context) (key : String)
    (free : contains (reserved_attr_keys (key_names keys)) key ≡ false)
    (not_time : str_eq key "time" ≡ false) (not_msg : str_eq key "msg" ≡ false) where
  abbrev logger : WideEventLogger
  logger = new_wide_event_logger sampler keys

  parts :
      (contains builtin_attr_keys key ≡ false)
      × (contains default_keys key ≡ false)
      × (contains (key_names keys) key ≡ false)
  unfolding reserved_attr_keys
  parts = in_no_part builtin_attr_keys default_keys (key_names keys) key free

  log_attrs_kept :
      (level : Level) (message : String) (e : Event)
      → lookup key (log_attrs logger ctx level message (to_attrs logger.reserved_keys e)).attrs
        ≡ lookup key e.attrs
  unfolding log_attrs context_handle new_wide_event_logger
  log_attrs_kept level message e =
      let (own, default, added) = parts in
      lookup-replace_attrs key _ not_time not_msg
      ∙ lookup-append-none key _ (context_attrs keys ctx) (lookup-context_attrs key keys ctx added)
      ∙ lookup-append-none key _ (context_attrs default_context_keys ctx)
          (lookup-context_attrs key default_context_keys ctx (default_key key default))
      ∙ (lookup-to_attrs (reserved_attr_keys (key_names keys)) key e).0 own
      ∙ rw free refl

-- What was written is what the handler made of the finished event.
entry_of-log_attrs :
    (l : WideEventLogger) (ctx : Context) (message : String) (now : ℕ) (e : Event) (entry : Entry)
    → entry_of l ctx message (write_event (l.sampler ctx) l.reserved_keys now e) ≡ some entry
    → log_attrs l ctx e.level message (to_attrs l.reserved_keys (finish now e)) ≡ entry
unfolding write_event finish
entry_of-log_attrs l ctx message now e entry written =
    elim (Bool-cases (l.sampler ctx (finish now e))) [
      | inr dropped ↦ cc (rw dropped at written)
      | inl kept ↦ some-injective (rw kept at written)
    ]

log_attrs-line :
    (l : WideEventLogger) (ctx : Context) (level : Level) (message : String)
    (attrs : List (String × Value))
    → ((log_attrs l ctx level message attrs).level ≡ level)
      × ((log_attrs l ctx level message attrs).message ≡ message)
unfolding log_attrs context_handle
log_attrs-line l ctx level message attrs = (refl, refl)

-- The event of a message before its arguments.
blank-attrs :
    (level : Level) (begin : ℕ)
    → ((set_level level (new_event "log.record" begin)).attrs ≡ [])
      × ((set_level level (new_event "log.record" begin)).level ≡ level)
unfolding set_level new_event
blank-attrs level begin = (ground arith, ground arith)

abbrev line : Level → List (String × Argument) → ℕ → Event
line level pairs begin =
    add_attrs (simple_log_event_attrs (in_turn pairs))
      (set_level level (new_event "log.record" begin))

lookup-line :
    (key : String) (level : Level) (pairs : List (String × Argument)) (begin : ℕ)
    → (lookup key (line level pairs begin).attrs ≡ last_of key (stated pairs))
      × ((line level pairs begin).level ≡ level)
unfolding add_attrs
lookup-line key level pairs begin = (
  ap (λ attrs. lookup key (copy_attrs attrs (simple_log_event_attrs (in_turn pairs))))
        (blank-attrs level begin).0
      ∙ lookup-copied key pairs,
  (blank-attrs level begin).1,
)

-- If a method of a logger writes its message with keys and values in turn, then the entry has the
-- message, the method's level, and under each key that is neither reserved nor "time" nor "msg" the
-- last value given for it, or nothing if none was given.
pub logger_call_kept :
    (sampler : Option (Context → Event → Bool)) (keys : List (String × ContextKey))
    (method : Method) (message key : String) (pairs : List (String × Argument)) (begin now : ℕ)
    (entry : Entry)
    → contains (reserved_attr_keys (key_names keys)) key ≡ false
    → str_eq key "time" ≡ false
    → str_eq key "msg" ≡ false
    → logger_call (new_wide_event_logger sampler keys) method message (in_turn pairs) begin now
      ≡ some entry
    → (lookup key entry.attrs ≡ last_of key (stated pairs))
      × (entry.level ≡ method_level method)
      × (entry.message ≡ message)
unfolding logger_call write_simple_log finish
logger_call_kept sampler keys method message key pairs begin now entry free not_time not_msg
      written =
    let l = new_wide_event_logger sampler keys in
    let ctx = method_context method in
    let e = line (method_level method) pairs begin in
    let same = entry_of-log_attrs l ctx message now e entry written in
    let (attrs, level) = lookup-line key (method_level method) pairs begin in
    let (level', message') =
      log_attrs-line l ctx e.level message (to_attrs l.reserved_keys (finish now e)) in
    (
      ap (λ (x : Entry). lookup key x.attrs) (sym same)
          ∙ log_attrs_kept sampler keys ctx key free not_time not_msg e.level message (finish now e)
          ∙ attrs,
      ap (λ (x : Entry). x.level) (sym same) ∙ level' ∙ level,
      ap (λ (x : Entry). x.message) (sym same) ∙ message',
    )
