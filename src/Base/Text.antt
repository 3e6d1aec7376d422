-- ===== src/Base/Text.antt =====
-- Texts that the program walks, as lists of Unicode code points: what packages strings,
-- path/filepath and unicode/utf8 do with them.
pub mod Trim
pub mod Sort
use Prim.Native.Nat.{ℕ, ◌+◌}
use Prim.Native.Char.{code}
use Prim.Native.String.{String}
use mathlib.Core.Path.{◌≡◌, ap₂}
use mathlib.Core.Bool.{Bool, true, false, ◌&&◌, ◌||◌}
use mathlib.Core.List.{List, [], ◌∷◌, ◌++◌}
use mathlib.Core.Logic.{◌↔◌}
use mathlib.Core.Option.{Option, none, some}
use native.Mathlib.Omega.{arith}
use platforma.Base.Tests.{ltb, leb, ◌==◌, ==_iff, if◌then◌else◌}

abbrev pub Text : Type 0
Text = List ℕ

-- The code points of a literal.
abbrev pub codes : String → Text
codes String.[] = []
codes (String.◌∷◌ c s) = code c ∷ codes s

unfoldable pub text_eq : Text → Text → Bool
text_eq [] [] = true
text_eq [] (_ ∷ _) = false
text_eq (_ ∷ _) [] = false
text_eq (a ∷ s) (b ∷ t) = a == b && text_eq s t

text_eq-eq : (s t : Text) → text_eq s t ≡ true → s ≡ t
unfolding text_eq
text_eq-eq [] [] h = cc
text_eq-eq [] (b ∷ t) h = cc
text_eq-eq (a ∷ s) [] h = cc
text_eq-eq (a ∷ s) (b ∷ t) h = ground (arith, text_eq-eq s t)

pub text_eq_refl : (s : Text) → text_eq s s ≡ true
unfolding text_eq
text_eq_refl [] = cc
text_eq_refl (a ∷ s) = ground (arith, text_eq_refl s)

pub text_eq_iff : (s t : Text) → (text_eq s t ≡ true) ↔ (s ≡ t)
text_eq_iff s t = (text_eq-eq s t, λ e. rw e (text_eq_refl t))

-- strings.TrimLeftFunc and strings.TrimRightFunc.
unfoldable pub trim_left : (ℕ → Bool) → Text → Text
trim_left p [] = []
trim_left p (c ∷ s) = if p c then trim_left p s else c ∷ s

-- `c` stands before a text that is trimmed already.
unfoldable pub keep_unless : (ℕ → Bool) → ℕ → Text → Text
keep_unless p c [] = if p c then [] else c ∷ []
keep_unless p c (d ∷ s) = c ∷ d ∷ s

unfoldable pub trim_right : (ℕ → Bool) → Text → Text
unfolding keep_unless
trim_right p [] = []
trim_right p (c ∷ s) = keep_unless p c (trim_right p s)

-- unicode.IsSpace.
unfoldable pub is_space : ℕ → Bool
is_space c =
    (leb 9 c && leb c 13)
    || c == 32
    || c == 0x85
    || c == 0xA0
    || c == 0x1680
    || (leb 0x2000 c && leb c 0x200a)
    || c == 0x2028
    || c == 0x2029
    || c == 0x202f
    || c == 0x205f
    || c == 0x3000

unfoldable pub trim_space : Text → Text
unfolding trim_left trim_right is_space
trim_space s = trim_right is_space (trim_left is_space s)

-- strings.HasPrefix with strings.TrimPrefix: the rest behind the prefix.
unfoldable pub strip_prefix? : Text → Text → Option Text
strip_prefix? [] s = some s
strip_prefix? (a ∷ p) [] = none
strip_prefix? (a ∷ p) (b ∷ s) = if a == b then strip_prefix? p s else none

-- strings.TrimSuffix.
unfoldable pub trim_suffix : Text → Text → Text
trim_suffix suffix [] = []
trim_suffix suffix (c ∷ s) = if text_eq suffix (c ∷ s) then [] else c ∷ trim_suffix suffix s

-- What filepath.Ext has seen to the right of a position: an extension, a separator, or neither.
pub data ExtScan : Type 0 where
  found : Text → ExtScan
  blocked open_end : ExtScan

unfoldable pub ext_step : ℕ → Text → ExtScan → ExtScan
ext_step c s (found e) = found e
ext_step c s blocked = blocked
ext_step c s open_end = if c == b'.' then found (c ∷ s) else if c == b'/' then blocked else open_end

unfoldable pub ext_scan : Text → ExtScan
unfolding ext_step
ext_scan [] = open_end
ext_scan (c ∷ s) = ext_step c s (ext_scan s)

abbrev found_or_empty : ExtScan → Text
found_or_empty (found e) = e
found_or_empty _ = []

-- filepath.Ext.
unfoldable pub ext : Text → Text
unfolding ext_scan
ext path = found_or_empty (ext_scan path)

-- The bytes of a text in UTF-8.
utf8_width : ℕ → ℕ
utf8_width c = if ltb c 0x80 then 1 else if ltb c 0x800 then 2 else if ltb c 0x10000 then 3 else 4

unfoldable pub utf8_len : Text → ℕ
unfolding utf8_width
utf8_len [] = 0
utf8_len (c ∷ s) = utf8_width c + utf8_len s

pub utf8_len-append : (s t : Text) → utf8_len (s ++ t) ≡ utf8_len s + utf8_len t
unfolding utf8_len
utf8_len-append [] t = omega arith
utf8_len-append (c ∷ s) t = omega (arith, utf8_len-append s t)
