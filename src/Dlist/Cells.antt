-- ===== src/Dlist/Cells.antt =====
-- What a list stands for: the addresses and the data of its nodes, in order.
use sftt.Base.{
  ℕ, ◌+◌, ◌<◌, ◌≡◌, ◌≢◌, refl, none, some, List, [], ◌∷◌, ◌++◌, length, arith, ap, ◌∙◌, sym, ◌==◌,
  Bool-cases, inl, inr, ==→eq,
}
use sftt.Base.Count.{hit}
use sftt.Dlist.{DlistNode, dnode, Store, Dlist}

abbrev pub Cells : Type 0
Cells = List (ℕ × ℕ)

-- How often an address stands among the cells.
abbrev pub occ : ℕ → Cells → ℕ
occ a [] = 0
occ a ((x, d) ∷ xs) = hit a x + occ a xs

-- The address of the first node, `q` if there is none, and of the last, `a` if there is none.
abbrev pub first : Cells → ℕ → ℕ
first [] q = q
first ((x, d) ∷ xs) q = x

abbrev pub last : ℕ → Cells → ℕ
last a [] = a
last a ((x, d) ∷ xs) = last x xs

-- The nodes are linked both ways, from the node `a` before them to the node `q` behind them.
abbrev pub Chain : Store → ℕ → Cells → ℕ → Type 0
Chain h a [] q = Unit {0}
Chain h a ((x, d) ∷ xs) q = (x ≢ 0) × (h x ≡ some (dnode d a (first xs q))) × Chain h x xs q

abbrev pub Distinct : Cells → Type 0
Distinct xs = (a : ℕ) → occ a xs < 2

-- `g` is as `h` but at the addresses of the cells.
abbrev pub SameOutside : Cells → Store → Store → Type 0
SameOutside xs h g = (a : ℕ) → occ a xs ≡ 0 → g a ≡ h a

pub occ-append : (a : ℕ) (xs ys : Cells) → occ a (xs ++ ys) ≡ occ a xs + occ a ys
occ-append a [] ys = omega arith
occ-append a ((x, d) ∷ xs) ys = omega (arith, occ-append a xs ys)

pub first-append : (xs ys : Cells) (q : ℕ) → first (xs ++ ys) q ≡ first xs (first ys q)
first-append [] ys q = refl
first-append ((x, d) ∷ xs) ys q = refl

pub last-append : (a : ℕ) (xs ys : Cells) → last a (xs ++ ys) ≡ last (last a xs) ys
last-append a [] ys = refl
last-append a ((x, d) ∷ xs) ys = last-append x xs ys

pub hit_self : (a : ℕ) → hit a a ≡ 1
hit_self a = ground arith

pub occ-last : (y e : ℕ) (ys : Cells) → 0 < occ (last y ys) ((y, e) ∷ ys)
occ-last y e [] = omega (arith, hit_self y)
occ-last y e ((z, f) ∷ zs) = omega (arith, occ-last z f zs)

pub hit_zero : (a x : ℕ) → hit a x ≡ 0 → a ≢ x
hit_zero a x h e =
    absurd (omega (arith, ap (hit a) e, hit_self a, h, ap (λ t. hit t x) e, hit_self x))

module _ (h g : Store) where
  -- A chain depends on its own nodes only.
  pub Chain-frame :
      (a : ℕ) (xs : Cells) (q : ℕ)
      → ((x : ℕ) → 0 < occ x xs → g x ≡ h x)
      → Chain h a xs q
      → Chain g a xs q
  Chain-frame a [] q same c = tt
  Chain-frame a ((x, d) ∷ xs) q same (ne, here, rest) = (
    ne,
    same x (omega (arith, hit_self x)) ∙ here,
    Chain-frame x xs q (λ y lt. same y (omega (arith, lt))) rest,
  )

module _ (h : Store) where
  pub Chain-append :
      (a : ℕ) (xs ys : Cells) (q : ℕ)
      → Chain h a xs (first ys q)
      → Chain h (last a xs) ys q
      → Chain h a (xs ++ ys) q
  Chain-append a [] ys q c e = e
  Chain-append a ((x, d) ∷ xs) ys q (ne, here, rest) e =
      (ne, rw (first-append xs ys q) here, Chain-append x xs ys q rest e)

  pub Chain-split :
      (a : ℕ) (xs ys : Cells) (q : ℕ)
      → Chain h a (xs ++ ys) q
      → Chain h a xs (first ys q) × Chain h (last a xs) ys q
  Chain-split a [] ys q c = (tt, c)
  Chain-split a ((x, d) ∷ xs) ys q (ne, here, rest) =
      let (one, two) = Chain-split x xs ys q rest in
      ((ne, rw (first-append xs ys q) at here, one), two)

-- The list struct and the store represent the cells.
pub record IsList (h : Store) (l : Dlist) (xs : Cells) : Type 0 where
  pub chain : Chain h 0 xs 0
  pub distinct : Distinct xs
  pub head : l.head ≡ first xs 0
  pub tail : l.tail ≡ last 0 xs
  pub size : l.size ≡ length xs

pub IsList-frame :
    (h g : Store) (l : Dlist) (xs : Cells)
    → ((x : ℕ) → 0 < occ x xs → g x ≡ h x)
    → IsList h l xs
    → IsList g l xs
IsList-frame h g l xs same is = record {
  chain = Chain-frame h g 0 xs 0 same is.chain;
  distinct = is.distinct;
  head = is.head;
  tail = is.tail;
  size = is.size;
}

-- No node of a chain is NULL or missing.
pub occ_of_none :
    (h : Store) (a : ℕ) (xs : Cells) (q x : ℕ) → Chain h a xs q → h x ≡ none → occ x xs ≡ 0
occ_of_none h a [] q x c e = refl
occ_of_none h a ((y, d) ∷ xs) q x (ne, here, rest) e = elim (Bool-cases (x == y)) [
  | inl same ↦
      let xy : x ≡ y = ==→eq x y same in
      let bad : ⊥ = none_not_some (sym e ∙ ap h xy ∙ here) in absurd bad
  | inr other ↦ rw other (omega (arith, occ_of_none h y xs q x rest e))
]
  where
    none_not_some : {n : DlistNode} → none ≡ some n → ⊥
    none_not_some p = cc

pub occ_zero : (h : Store) (a : ℕ) (xs : Cells) (q : ℕ) → Chain h a xs q → occ 0 xs ≡ 0
occ_zero h a [] q c = refl
occ_zero h a ((y, d) ∷ xs) q (ne, here, rest) = ground (arith, occ_zero h y xs q rest)

-- A list with a node has a last one.
pub snoc_view :
    (c : ℕ × ℕ) (xs : Cells) → (pre : Cells) × (x : ℕ) × (d : ℕ) × (c ∷ xs ≡ pre ++ (x, d) ∷ [])
snoc_view (x, d) [] = ([], x, d, refl)
snoc_view c (c' ∷ xs) = let (pre, x, d, e) = snoc_view c' xs in (c ∷ pre, x, d, ap (λ t. c ∷ t) e)
