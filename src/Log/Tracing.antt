-- ===== src/Log/Tracing.antt =====
-- log/traceid.go: each request gets an ID, in its context and in the header of its response.
use platforma.Base.{
  ◌≡◌, refl, ◌∙◌, ℕ, String, Bool, true, false, ◌⊎◌, List, [], ◌∷◌, ◌++◌, Option, none, some,
  str_eq, eq_iff, arith, if◌then◌else◌,
}
use platforma.Base.Dict.{lookup, insert, lookup-insert}
use platforma.Log.{
  Level, Value, string, Event, contains, reserved_attr_keys, append_all, builtin_attr_keys,
  default_keys,
}
use platforma.Log.Attrs.{contains-append_all}
use platforma.Log.Arguments.{Argument}
use platforma.Log.Logger.{
  Context, ContextKey, package_key, other_key, Entry, string_attr, context_attrs,
  default_context_keys, new_wide_event_logger, key_names, logger_write_event, write_simple_log,
}
use platforma.Log.Logger.Unforged.{logger_write_event_unforged}

abbrev same_key : ContextKey → ContextKey → Bool
same_key (package_key a) (package_key b) = str_eq a b
same_key (other_key a) (other_key b) = str_eq a b
same_key _ _ = false

-- context.WithValue.
unfoldable pub with_value : ContextKey → Value → Context → Context
with_value key v ctx = record ctx { value = λ k. if same_key key k then some v else ctx.value k }

pub record TraceIdMiddleware : Type 0 where
  pub context_key : ContextKey
  pub header : String

abbrev or_trace_key : Option ContextKey → ContextKey
or_trace_key none = package_key "traceId"
or_trace_key (some key) = key

unfoldable pub new_trace_id_middleware : Option ContextKey → String → TraceIdMiddleware
new_trace_id_middleware key header = record {
  context_key = or_trace_key key;
  header = if str_eq header "" then "Platforma-Trace-Id" else header;
}

-- `id` is what uuid.NewString gives; a handler gets its request's context and the headers so far.
unfoldable pub trace_id_wrap {ℓ} :
    {R : Type ℓ}
    → TraceIdMiddleware
    → String
    → (Context → List (String × String) → R)
    → Context
    → List (String × String)
    → R
unfolding with_value
trace_id_wrap m id next ctx headers =
    next (with_value m.context_key (string id) ctx) (insert m.header id headers)

lookup_past :
    (name key : String) (o : Option Value) (rest : List (String × Value))
    → str_eq name key ≡ false
    → lookup key (string_attr name o ++ rest) ≡ lookup key rest
unfolding lookup
lookup_past name key o rest h = ground (arith, h)

lookup-append_found :
    (key : String) (xs ys : List (String × Value)) (v : Value)
    → lookup key xs ≡ some v
    → lookup key (xs ++ ys) ≡ some v
unfolding lookup
lookup-append_found key [] ys v h = cc
lookup-append_found key ((k, w) ∷ xs) ys v h = ground (arith, lookup-append_found key xs ys v)

reserved_attr_keys-trace_id :
    (keys : List String) → contains (reserved_attr_keys keys) "traceId" ≡ true
unfolding reserved_attr_keys contains
reserved_attr_keys-trace_id keys =
    contains-append_all (append_all builtin_attr_keys default_keys) keys "traceId"

-- Behind the middleware with its default key, the response carries the ID in the header, and so
-- does, under traceId, everything that a wide-event logger writes with the handler's context.
pub trace_id_wrap_logged :
    (sampler : Option (Context → Event → Bool)) (keys : List (String × ContextKey))
    (id header : String) (ctx : Context) (headers : List (String × String)) (e : Event)
    (level : Level) (message : String) (args : List Argument) (begin now : ℕ) (entry : Entry)
    → let m = new_trace_id_middleware none header in
      let (ctx', headers') =
        trace_id_wrap {R = Context × List (String × String)} m id (λ c h. (c, h)) ctx headers in
      let l = new_wide_event_logger sampler keys in
      (logger_write_event l ctx' now e ≡ some entry)
        ⊎ (write_simple_log l ctx' level message args begin now ≡ some entry)
      → (lookup m.header headers' ≡ some id) × (lookup "traceId" entry.attrs ≡ some (string id))
unfolding trace_id_wrap new_trace_id_middleware
trace_id_wrap_logged sampler keys id header ctx headers e level message args begin now entry
      written =
    (
      lookup-insert m.header m.header id headers ∙ (ground (arith, eq_iff m.header m.header)),
      logger_write_event_unforged sampler keys traced "traceId"
            (reserved_attr_keys-trace_id (key_names keys)) (unfold contains in refl) refl refl e
            level message args begin now entry written
          ∙ from_context,
    )
  where
    m : TraceIdMiddleware
    m = new_trace_id_middleware none header

    traced : Context
    traced = with_value (package_key "traceId") (string id) ctx

    from_context :
        lookup "traceId" (context_attrs default_context_keys traced ++ context_attrs keys traced)
        ≡ some (string id)
    from_context =
        lookup-append_found "traceId" (context_attrs default_context_keys traced)
          (context_attrs keys traced) (string id)
          (unfold context_attrs in
            lookup_past "domainName" "traceId" (traced.value (package_key "domainName")) _ refl
            ∙ (unfold with_value lookup in refl))
