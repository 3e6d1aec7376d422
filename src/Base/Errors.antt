-- ===== src/Base/Errors.antt =====
-- Go error values as far as errors.Is looks at them.
use Prim.Native.String.{String}
use mathlib.Core.Path.{◌≡◌, refl}
use mathlib.Core.Bool.{Bool, false, ◌||◌}
use mathlib.Core.Logic.{◌⊎◌, inl, inr}
use mathlib.Core.Option.{Option, none, some}
use text.Mathlib.Text.{◌==◌}

-- `sentinel` is a variable made by errors.New, named after its package; `foreign` an error that
-- other code made; `wrapped` is fmt.Errorf with %w; the last two are errors.Join of one and of two
-- errors.
pub data Error : Type 0 where
  sentinel : String → Error
  foreign : String → Error
  wrapped : String → Error → Error
  join_one : Error → Error
  join_two : Error → Error → Error

-- errors.Is with a sentinel as its target.
unfoldable pub is_error : Error → String → Bool
is_error (sentinel name) target = name == target
is_error (foreign _) target = false
is_error (wrapped _ e) target = is_error e target
is_error (join_one e) target = is_error e target
is_error (join_two d e) target = is_error d target || is_error e target

-- errors.Join drops nil, and is nil when nothing is left.
unfoldable pub join : Option Error → Option Error → Option Error
join none none = none
join none (some e) = some (join_one e)
join (some d) none = some (join_one d)
join (some d) (some e) = some (join_two d e)

pub data Result {ℓ} (A : Type ℓ) : Type ℓ where
  ok : A → Result A
  err : Error → Result A

infixl 5 ◌>>=◌
abbrev pub ◌>>=◌ {ℓ κ} : {A : Type ℓ} {B : Type κ} → Result A → (A → Result B) → Result B
ok a >>= f = f a
err e >>= f = err e

-- `return fmt.Errorf("...: %w", err)` on an error.
abbrev pub wrap {ℓ} : {A : Type ℓ} → String → Result A → Result A
wrap message (ok a) = ok a
wrap message (err e) = err (wrapped message e)

-- Inversion of a successful bind.
pub bind-eq-ok {ℓ κ} :
    {A : Type ℓ} {B : Type κ} (result : Result A) (next : A → Result B) {final : B}
    → (result >>= next) ≡ ok final
    → (value : A) × (result ≡ ok value) × (next value ≡ ok final)
bind-eq-ok (ok value) next e = (value, refl, e)
bind-eq-ok (err failure) next e = cc

pub bind_ext {ℓ κ} :
    {A : Type ℓ} {B : Type κ} (m : Result A) {f g : A → Result B}
    → ((a : A) → f a ≡ g a)
    → (m >>= f) ≡ (m >>= g)
bind_ext (ok a) h = h a
bind_ext (err e) h = refl

pub err-ne-ok {ℓ} : {A : Type ℓ} {e : Error} {a : A} → err e ≡ ok a → ⊥
err-ne-ok h = cc

pub Result-cases {ℓ} :
    {A : Type ℓ} (r : Result A) → ((a : A) × (r ≡ ok a)) ⊎ ((e : Error) × (r ≡ err e))
Result-cases (ok a) = inl (a, refl)
Result-cases (err e) = inr (e, refl)
