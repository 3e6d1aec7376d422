-- ===== src/Base/Text/Sort.antt =====
-- slices.Sort on texts: the order of their bytes is that of their code points. Equal texts cannot
-- be told apart, so every sort gives the result of this one.
use mathlib.Core.Path.{◌≡◌, refl}
use mathlib.Core.Bool.{Bool, true, false}
use mathlib.Core.List.{List, [], ◌∷◌, Perm}
use mathlib.Core.List.Perm
use native.Mathlib.Omega.{arith}
use platforma.Base.Tests.{ltb, ◌==◌, if◌then◌else◌}
use platforma.Base.Text.{Text}

unfoldable pub text_le : Text → Text → Bool
text_le [] t = true
text_le (a ∷ s) [] = false
text_le (a ∷ s) (b ∷ t) = if a == b then text_le s t else ltb a b

pub text_le_total : (s t : Text) → text_le s t ≡ false → text_le t s ≡ true
unfolding text_le
text_le_total [] t h = cc
text_le_total (a ∷ s) [] h = refl
text_le_total (a ∷ s) (b ∷ t) h = ground (arith, text_le_total s t)

unfoldable pub insert_sorted : Text → List Text → List Text
insert_sorted s [] = s ∷ []
insert_sorted s (t ∷ ts) = if text_le s t then s ∷ t ∷ ts else t ∷ insert_sorted s ts

unfoldable pub sort : List Text → List Text
unfolding insert_sorted text_le
sort [] = []
sort (s ∷ ss) = insert_sorted s (sort ss)

-- Each entry is at most the next one.
abbrev pub IsSorted : List Text → Type 0
IsSorted [] = Unit
IsSorted (s ∷ []) = Unit
IsSorted (s ∷ t ∷ ts) = (text_le s t ≡ true) × IsSorted (t ∷ ts)

insert_sorted-perm : (s : Text) (ts : List Text) → Perm (insert_sorted s ts) (s ∷ ts)
unfolding insert_sorted
insert_sorted-perm s [] = Perm.rfl
insert_sorted-perm s (t ∷ ts) =
    let rest = Perm.trans (Perm.cons t (insert_sorted-perm s ts)) (Perm.swap s t ts) in
    ground (arith, rest, Perm.refl (s ∷ t ∷ ts))

pub sort-perm : (ss : List Text) → Perm (sort ss) ss
unfolding sort
sort-perm [] = Perm.rfl
sort-perm (s ∷ ss) = Perm.trans (insert_sorted-perm s (sort ss)) (Perm.cons s (sort-perm ss))

insert_sorted-IsSorted : (s : Text) (ts : List Text) → IsSorted ts → IsSorted (insert_sorted s ts)
unfolding insert_sorted
insert_sorted-IsSorted s [] h = tt
insert_sorted-IsSorted s (t ∷ []) h = ground (arith, text_le_total s t)
insert_sorted-IsSorted s (t ∷ u ∷ ts) h =
    ground (arith, text_le_total s t, insert_sorted-IsSorted s (u ∷ ts) h.1)

pub sort-IsSorted : (ss : List Text) → IsSorted (sort ss)
unfolding sort
sort-IsSorted [] = tt
sort-IsSorted (s ∷ ss) = insert_sorted-IsSorted s (sort ss) (sort-IsSorted ss)
