-- ===== src/Dlist/Sort.antt =====
-- `dlist_get_min`, `dlist_get_max` and `dlist_sort` (src/dlist.c): what an order of the data is, and
-- what a scan finds.
pub mod Scan
pub mod Order
pub mod Loop
pub mod Rounds
use sftt.Base.{
  ℕ, zero, suc, ◌+◌, ◌≤◌, ◌<◌, ◌≡◌, ◌≢◌, refl, Bool, true, false, Option, none, some, List, [], ◌∷◌,
  ◌++◌, length, All, arith, ap, ◌∙◌, sym, subst, ◌==◌, if◌then◌else◌, Bool-cases, inl, inr, ==→eq,
  ne→==, eq→==, Result, ok, ◌>>=◌,
}
use sftt.Dlist.{DlistNode, dnode, Store, load}
use sftt.Dlist.Cells.{Cells, occ, first, last, Chain}
use sftt.Dlist.Link.{load-some}
use sftt.Dlist.Walk.{better_of, scan}

-- What a comparison is relied on for: of two data at most one replaces the other, and `not
-- replaced by` is transitive.
pub record IsOrder (better : ℕ → ℕ → Bool) : Type 0 where
  pub asym : (a b : ℕ) → better a b ≡ true → better b a ≡ false
  pub trans : (a b c : ℕ) → better a b ≡ false → better b c ≡ false → better a c ≡ false

-- No cell replaces the data `d`.
abbrev pub Best : (ℕ → ℕ → Bool) → ℕ → Cells → Type 0
Best better d xs = All (λ (c : ℕ × ℕ). better d c.1 ≡ false) xs

-- Every cell stands before those that it may stand before.
abbrev pub Sorted : (ℕ → ℕ → Bool) → Cells → Type 0
Sorted better [] = Unit {0}
Sorted better ((x, d) ∷ xs) = Best better d xs × Sorted better xs

module _ (better : ℕ → ℕ → Bool) (ord : IsOrder better) where
  pub Best-append :
      (d : ℕ) (xs ys : Cells) → Best better d xs → Best better d ys → Best better d (xs ++ ys)
  Best-append d [] ys p q = q
  Best-append d (c ∷ xs) ys (p, ps) q = (p, Best-append d xs ys ps q)

  pub Best-drop :
      (d : ℕ) (xs ys : Cells) (c : ℕ × ℕ) → Best better d (xs ++ c ∷ ys) → Best better d (xs ++ ys)
  Best-drop d [] ys c (p, ps) = ps
  Best-drop d (e ∷ xs) ys c (p, ps) = (p, Best-drop d xs ys c ps)

  pub Best-at :
      (d : ℕ) (xs ys : Cells) (c : ℕ × ℕ) → Best better d (xs ++ c ∷ ys) → better d c.1 ≡ false
  Best-at d [] ys c (p, ps) = p
  Best-at d (e ∷ xs) ys c (p, ps) = Best-at d xs ys c ps

  -- What replaces a best one is best.
  pub Best-trans : (d e : ℕ) (xs : Cells) → better e d ≡ false → Best better d xs → Best better e xs
  Best-trans d e [] p ps = tt
  Best-trans d e ((x, c) ∷ xs) p (q, qs) = (ord.trans e d c p q, Best-trans d e xs p qs)

  pub better_self : (d : ℕ) → better d d ≡ false
  better_self d = elim (Bool-cases (better d d)) [ inl t ↦ ord.asym d d t | inr f ↦ f ]
