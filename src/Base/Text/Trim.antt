-- ===== src/Base/Text/Trim.antt =====
-- Laws of trimming.
use Prim.Native.Nat.{ℕ}
use mathlib.Core.Path.{◌≡◌, refl}
use mathlib.Core.Bool.{Bool, false}
use mathlib.Core.List.{[], ◌∷◌}
use native.Mathlib.Omega.{arith}
use platforma.Base.Text.{Text, trim_left, trim_right, keep_unless, is_space, trim_space}

module _ (p : ℕ → Bool) where
  -- The first code point, if there is one, fails the test.
  abbrev pub Starts : Text → Type 0
  Starts [] = Unit {0}
  Starts (c ∷ s) = p c ≡ false

  pub trim_left-Starts : (s : Text) → Starts (trim_left p s)
  unfolding trim_left
  trim_left-Starts [] = tt
  trim_left-Starts (c ∷ s) = ground (arith, trim_left-Starts s)

  pub trim_left_of_Starts : (s : Text) → Starts s → trim_left p s ≡ s
  unfolding trim_left
  trim_left_of_Starts [] h = refl
  trim_left_of_Starts (c ∷ s) h = rw h

  keep_unless-Starts : (c : ℕ) (s : Text) → p c ≡ false → Starts (keep_unless p c s)
  unfolding keep_unless
  keep_unless-Starts c [] h = ground arith
  keep_unless-Starts c (d ∷ s) h = h

  pub trim_right-Starts : (s : Text) → Starts s → Starts (trim_right p s)
  unfolding trim_right
  trim_right-Starts [] h = tt
  trim_right-Starts (c ∷ s) h = keep_unless-Starts c (trim_right p s) h

  trim_right-keep_unless :
      (c : ℕ) (s : Text) → trim_right p s ≡ s → trim_right p (keep_unless p c s) ≡ keep_unless p c s
  unfolding trim_right
  trim_right-keep_unless c [] h = ground arith
  trim_right-keep_unless c (d ∷ s) h = ground (arith, h)

  pub trim_right_idem : (s : Text) → trim_right p (trim_right p s) ≡ trim_right p s
  unfolding trim_right
  trim_right_idem [] = refl
  trim_right_idem (c ∷ s) = trim_right-keep_unless c (trim_right p s) (trim_right_idem s)

-- A trimmed text has no white space at its ends.
pub trim_space_idem : (s : Text) → trim_space (trim_space s) ≡ trim_space s
unfolding trim_space
trim_space_idem s =
    let kept = trim_right-Starts is_space (trim_left is_space s) (trim_left-Starts is_space s) in
    rw (trim_left_of_Starts is_space (trim_right is_space (trim_left is_space s)) kept)
      (trim_right_idem is_space (trim_left is_space s))
