-- ===== src/MemPool/Fit.antt =====
-- The loop of `mp_malloc` finds a smallest free node that is large enough.
use sftt.Base.{
  ℕ, ◌≤◌, ◌≡◌, ◌≢◌, refl, true, false, ◌⊎◌, inl, inr, none, some, List, [], ◌∷◌, arith, ◌∙◌, sym,
  ltb, ltb→lt, Bool-cases,
}
use sftt.MemPool.{MemNode, fits, better, best_fit}
use sftt.MemPool.Nodes.{In}

pub true_not_false : true ≢ false
true_not_false e = let bad : ⊥ = cc in absurd bad

unfit_cons :
    (n : ℕ) (p : MemNode) (ps : List MemNode)
    → fits n p ≡ false
    → ((q : MemNode) → In q ps → fits n q ≡ false)
    → (q : MemNode) → In q (p ∷ ps)
    → fits n q ≡ false
unfit_cons n p ps unfit rest q (inl e) = rw (sym e) unfit
unfit_cons n p ps unfit rest q (inr h) = rest q h

-- No node of `ps` that fits is smaller than `m`.
abbrev pub Least : ℕ → MemNode → List MemNode → Type 0
Least n m ps = (p : MemNode) → In p ps → fits n p ≡ true → m.size ≤ p.size

Least-cons :
    (n : ℕ) (m p : MemNode) (ps : List MemNode)
    → (fits n p ≡ true → m.size ≤ p.size)
    → Least n m ps
    → Least n m (p ∷ ps)
Least-cons n m p ps first rest q (inl e) fit = rw (sym e) (first (rw (sym e) at fit))
Least-cons n m p ps first rest q (inr h) fit = rest q h fit

-- What the loop ends with, from the candidate `c` on.
record Better (n : ℕ) (c : MemNode) (ps : List MemNode) (m : MemNode) : Type 0 where
  found : best_fit n (some c) ps ≡ some m
  from : (c ≡ m) ⊎ In m ps
  fit : fits n m ≡ true
  small : m.size ≤ c.size
  least : Least n m ps

later : (c m p : MemNode) (ps : List MemNode) → (c ≡ m) ⊎ In m ps → (c ≡ m) ⊎ In m (p ∷ ps)
later c m p ps (inl e) = inl e
later c m p ps (inr h) = inr (inr h)

best_fit-Better :
    (n : ℕ) (c : MemNode) (ps : List MemNode) → fits n c ≡ true → (m : MemNode) × Better n c ps m
unfolding best_fit better
best_fit-Better n c [] fit = (
  c,
  record { found = refl; from = inl refl; fit = fit; small = omega arith; least = λ p h. absurd h },
)
best_fit-Better n c (p ∷ ps) fit = elim (Bool-cases (fits n p)) [
  | inl able ↦ elim (Bool-cases (ltb p.size c.size)) [
    | inl less ↦
        let (m, b) = best_fit-Better n p ps able in
        let lt = ltb→lt p.size c.size less in
        (
          m,
          record {
            found = rw (able, less) b.found;
            from = inr b.from;
            fit = b.fit;
            small = omega (arith, lt, b.small);
            least = Least-cons n m p ps (λ _. b.small) b.least;
          },
        )
    | inr more ↦
        let (m, b) = best_fit-Better n c ps fit in
        let le : c.size ≤ p.size = ground arith in
        (
          m,
          record {
            found = rw (able, more) b.found;
            from = later c m p ps b.from;
            fit = b.fit;
            small = b.small;
            least = Least-cons n m p ps (λ _. omega (arith, le, b.small)) b.least;
          },
        )
  ]
  | inr unfit ↦
      let (m, b) = best_fit-Better n c ps fit in
      (
        m,
        record {
          found = rw unfit b.found;
          from = later c m p ps b.from;
          fit = b.fit;
          small = b.small;
          least = Least-cons n m p ps (λ able. absurd (true_not_false (sym able ∙ unfit))) b.least;
        },
      )
]

-- A smallest node of those that are free and have room for `n` bytes.
pub record BestFit (n : ℕ) (ps : List MemNode) (m : MemNode) : Type 0 where
  pub among : In m ps
  pub fit : fits n m ≡ true
  pub least : Least n m ps

-- The loop finds nothing only where no node fits, and else a smallest node that does.
pub best_fit-BestFit :
    (n : ℕ) (ps : List MemNode)
    → ((best_fit n none ps ≡ none) × ((p : MemNode) → In p ps → fits n p ≡ false))
      ⊎ ((m : MemNode) × (best_fit n none ps ≡ some m) × BestFit n ps m)
unfolding best_fit better
best_fit-BestFit n [] = inl (refl, λ p h. absurd h)
best_fit-BestFit n (p ∷ ps) = elim (Bool-cases (fits n p)) [
  | inl able ↦
      let (m, b) = best_fit-Better n p ps able in
      inr (
        m,
        rw able b.found,
        record { among = b.from; fit = b.fit; least = Least-cons n m p ps (λ _. b.small) b.least },
      )
  | inr unfit ↦ elim (best_fit-BestFit n ps) [
    | inl (nothing, others) ↦ inl (rw unfit nothing, unfit_cons n p ps unfit others)
    | inr (m, found, b) ↦ inr (
      m,
      rw unfit found,
      record {
        among = inr b.among;
        fit = b.fit;
        least = Least-cons n m p ps (λ able. absurd (true_not_false (sym able ∙ unfit))) b.least;
      },
    )
  ]
]
