-- ===== src/MemPool/Purpose.antt =====
-- The counts of the purposes: what `add_purpose` and `sub_purpose` do to them.
use sftt.Base.{
  ℕ, ◌+◌, ◌-◌, ◌<◌, ◌≡◌, refl, Bool, true, false, inl, inr, List, [], ◌∷◌, arith, sym, All, ◌==◌,
  ◌&&◌, if◌then◌else◌, Bool-cases, ok, lt→ltb, ==→eq, eq_refl,
}
use sftt.MemPool.{PurposeNode, same_string, find_purpose, count_up, add_purpose, sub_purpose}

pub same_string_refl : (s : List ℕ) → same_string s s ≡ true
unfolding same_string
same_string_refl [] = refl
same_string_refl (c ∷ s) = rw (eq_refl c) (same_string_refl s)

and_left : (a b : Bool) → (a && b) ≡ true → a ≡ true
and_left true b e = refl
and_left false b e = e

and_right : (a b : Bool) → (a && b) ≡ true → b ≡ true
and_right true b e = e
and_right false b e = let bad : ⊥ = cc in absurd bad

pub same_string→eq : (s t : List ℕ) → same_string s t ≡ true → s ≡ t
unfolding same_string
same_string→eq [] [] e = refl
same_string→eq [] (d ∷ t) e = let bad : ⊥ = cc in absurd bad
same_string→eq (c ∷ s) [] e = let bad : ⊥ = cc in absurd bad
same_string→eq (c ∷ s) (d ∷ t) e =
    let cd : c ≡ d = ==→eq c d (and_left (c == d) (same_string s t) e) in
    let st : s ≡ t = same_string→eq s t (and_right (c == d) (same_string s t) e) in cc

-- 1 for a purpose that is `s`, and 0 for another.
abbrev pub named : List ℕ → List ℕ → ℕ
named purpose s = if same_string purpose s then 1 else 0

-- The count of the purpose `s`.
abbrev pub tally : List ℕ → List PurposeNode → ℕ
tally s [] = 0
tally s (p ∷ ps) = (if same_string p.purpose s then p.count else 0) + tally s ps

abbrev pub IsCounted : List PurposeNode → Type 0
IsCounted = All (λ p. 0 < p.count)

tally-count_up :
    (ps : List PurposeNode) (purpose s : List ℕ)
    → find_purpose ps purpose ≡ true
    → tally s (count_up ps purpose) ≡ tally s ps + named purpose s
unfolding count_up find_purpose
tally-count_up [] purpose s found = let bad : ⊥ = cc in absurd bad
tally-count_up (p ∷ ps) purpose s found = elim (Bool-cases (same_string p.purpose purpose)) [
  | inl here ↦
      let e : p.purpose ≡ purpose = same_string→eq p.purpose purpose here in
      rw (here, sym e) (ground arith)
  | inr other ↦ rw other (omega (arith, tally-count_up ps purpose s (rw other at found)))
]

count_up-IsCounted :
    (ps : List PurposeNode) (purpose : List ℕ) → IsCounted ps → IsCounted (count_up ps purpose)
unfolding count_up
count_up-IsCounted [] purpose h = tt
count_up-IsCounted (p ∷ ps) purpose h = elim (Bool-cases (same_string p.purpose purpose)) [
  | inl here ↦ rw here (omega arith, h.1)
  | inr other ↦ rw other (h.0, count_up-IsCounted ps purpose h.1)
]

pub tally-add_purpose :
    (ps : List PurposeNode) (purpose s : List ℕ)
    → tally s (add_purpose ps purpose) ≡ tally s ps + named purpose s
unfolding add_purpose
tally-add_purpose ps purpose s = elim (Bool-cases (find_purpose ps purpose)) [
  | inl found ↦ rw found (tally-count_up ps purpose s found)
  | inr new ↦ rw new (omega arith)
]

pub add_purpose-IsCounted :
    (ps : List PurposeNode) (purpose : List ℕ) → IsCounted ps → IsCounted (add_purpose ps purpose)
unfolding add_purpose
add_purpose-IsCounted ps purpose h = elim (Bool-cases (find_purpose ps purpose)) [
  | inl found ↦ rw found (count_up-IsCounted ps purpose h)
  | inr new ↦ rw new (omega arith, h)
]

sub_purpose_other :
    (p : PurposeNode) (ps qs : List PurposeNode) (purpose : List ℕ)
    → same_string p.purpose purpose ≡ false
    → sub_purpose ps purpose ≡ ok qs
    → sub_purpose (p ∷ ps) purpose ≡ ok (p ∷ qs)
unfolding sub_purpose
sub_purpose_other p ps qs purpose other run = rw (other, run) refl

-- Of a purpose that is in use, one use is taken off, and no assertion fails.
pub sub_purpose-ok :
    (ps : List PurposeNode) (purpose : List ℕ)
    → IsCounted ps
    → 0 < tally purpose ps
    → (qs : List PurposeNode) × (sub_purpose ps purpose ≡ ok qs)
      × IsCounted qs
      × ((s : List ℕ) → tally s qs + named purpose s ≡ tally s ps)
unfolding sub_purpose
sub_purpose-ok [] purpose h some_use = absurd (omega (arith, some_use))
sub_purpose-ok (p ∷ ps) purpose h some_use = elim (Bool-cases (same_string p.purpose purpose)) [
  | inl here ↦
      let e : p.purpose ≡ purpose = same_string→eq p.purpose purpose here in
      elim (Bool-cases (p.count - 1 == 0)) [
        | inl last ↦
            let one : p.count ≡ 1 = omega (arith, ==→eq (p.count - 1) 0 last, h.0) in
            (ps, rw (here, last, lt→ltb 0 p.count h.0) refl, h.1, λ s. rw (sym e) (ground arith))
        | inr more ↦
            let lt : 0 < p.count - 1 = ground arith in
            (
              record p { count = p.count - 1 } ∷ ps,
              rw (here, more, lt→ltb 0 p.count h.0) refl,
              (lt, h.1),
              λ s. rw (sym e) (ground arith),
            )
      ]
  | inr other ↦
      let rest : 0 < tally purpose ps = omega (arith, rw other at some_use) in
      let (qs, run, counted, tallied) = sub_purpose-ok ps purpose h.1 rest in
      (
        p ∷ qs,
        sub_purpose_other p ps qs purpose other run,
        (h.0, counted),
        λ s. omega (arith, tallied s),
      )
]
