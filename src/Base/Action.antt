-- ===== src/Base/Action.antt =====
-- Go functions that change the world and return a value and an error: a state monad over Result.
use Prim.Native.String.{String}
use platforma.Base.Errors.{Error, Result, ok, err, wrap}

abbrev pub Action {ℓ κ} : Type ℓ → Type κ → Type (ℓ ⊔ κ)
Action W A = W → Result A × W

-- An action that returns an error alone.
abbrev pub Command {ℓ} : Type ℓ → Type ℓ
Command W = Action W (Unit {0})

module _ {ℓ} {A : Type ℓ} where
  -- The error that a caller replaces, whatever it is.
  abbrev or_else : Error → Result A → Result A
  or_else e (ok a) = ok a
  or_else e (err _) = err e

module _ {ℓ κ} {W : Type ℓ} {A : Type κ} where
  abbrev pub pure : A → Action W A
  pure a w = (ok a, w)

  abbrev pub fail : Error → Action W A
  fail e w = (err e, w)

  -- `if err != nil { return fmt.Errorf("...: %w", err) }`.
  abbrev pub wrap_action : String → Action W A → Action W A
  wrap_action message m w = (wrap message (m w).0, (m w).1)

  abbrev pub replace_error : Error → Action W A → Action W A
  replace_error e m w = (or_else e (m w).0, (m w).1)

module _ {ℓ κ μ} {W : Type ℓ} {A : Type κ} {B : Type μ} where
  abbrev pub follow : Result A → (A → Action W B) → Action W B
  follow (ok a) f w = f a w
  follow (err e) f w = (err e, w)

  infixl 5 ◌>>=◌
  abbrev pub ◌>>=◌ : Action W A → (A → Action W B) → Action W B
  (m >>= f) w = follow (m w).0 f (m w).1
