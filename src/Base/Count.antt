-- ===== src/Base/Count.antt =====
-- How often a number stands in a list. Two lists with one count everywhere are rearrangements of
-- one another, and a list whose counts stay below two has no repetition.
use sftt.Base.Tests.{◌==◌, if◌then◌else◌}
use Prim.Native.Nat.{ℕ, ◌+◌, ◌<◌}
use mathlib.Core.Path.{◌≡◌, refl}
use mathlib.Core.Bool.{Bool, true, false, ◌||◌}
use mathlib.Core.List.{List, [], ◌∷◌, ◌++◌}
use native.Mathlib.Omega.{arith}

abbrev pub hit : ℕ → ℕ → ℕ
hit x y = if x == y then 1 else 0

abbrev pub count : ℕ → List ℕ → ℕ
count x [] = 0
count x (y ∷ ys) = hit x y + count x ys

abbrev pub has : ℕ → List ℕ → Bool
has x [] = false
has x (y ∷ ys) = (y == x) || has x ys

pub count-append : (x : ℕ) (xs ys : List ℕ) → count x (xs ++ ys) ≡ count x xs + count x ys
count-append x [] ys = omega arith
count-append x (z ∷ xs) ys = ground (arith, count-append x xs ys)

pub has_of_count_zero : (x : ℕ) (xs : List ℕ) → count x xs ≡ 0 → has x xs ≡ false
has_of_count_zero x [] h = refl
has_of_count_zero x (y ∷ ys) h = ground (arith, has_of_count_zero x ys)

pub has_of_count_pos : (x : ℕ) (xs : List ℕ) → 0 < count x xs → has x xs ≡ true
has_of_count_pos x [] h = absurd (omega arith)
has_of_count_pos x (y ∷ ys) h = ground (arith, has_of_count_pos x ys)
