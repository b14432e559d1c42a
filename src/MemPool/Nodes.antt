-- ===== src/MemPool/Nodes.antt =====
-- Sums over the nodes of the pool, and what changing one node does to them.
use sftt.Base.{
  ℕ, suc, ◌+◌, ◌≤◌, ◌<◌, ◌≡◌, ◌≢◌, refl, true, false, ◌⊎◌, inl, inr, some, List, [], ◌∷◌, length,
  arith, ap, ◌∙◌, sym, subst, All, ◌==◌, if◌then◌else◌, Bool-cases, ==→eq, eq_refl, eq→==, ne→==,
}
use sftt.MemPool.{MemNode, set_node, node_at}

-- The sum of a number that each node has.
abbrev pub total : (MemNode → ℕ) → List MemNode → ℕ
total f [] = 0
total f (p ∷ ps) = f p + total f ps

-- `m` is one of the nodes.
abbrev pub In : MemNode → List MemNode → Type 0
In m [] = ⊥
In m (p ∷ ps) = (p ≡ m) ⊎ In m ps

abbrev pub at : ℕ → MemNode → ℕ
at a p = if p.address == a then 1 else 0

module _ (a : ℕ) (g : MemNode → MemNode) where
  pub total-set_node :
      (f : MemNode → ℕ) (ps : List MemNode) (m : MemNode)
      → node_at a ps ≡ some m
      → total f (set_node a g ps) + f m ≡ total f ps + f (g m)
  unfolding node_at set_node
  total-set_node f [] m e = let bad : ⊥ = cc in absurd bad
  total-set_node f (p ∷ ps) m e = elim (Bool-cases (p.address == a)) [
    | inl here ↦ let same : p ≡ m = cc in rw (here, sym same) (omega arith)
    | inr other ↦ rw other (omega (arith, total-set_node f ps m (rw other at e)))
  ]

  pub length-set_node : (ps : List MemNode) → length (set_node a g ps) ≡ length ps
  unfolding set_node
  length-set_node [] = refl
  length-set_node (p ∷ ps) = elim (Bool-cases (p.address == a)) [
    | inl here ↦ rw here refl
    | inr other ↦ rw other (ap suc (length-set_node ps))
  ]

  pub All-set_node {κ} :
      {P : MemNode → Type κ} (ps : List MemNode)
      → ((p : MemNode) → P p → P (g p))
      → All P ps
      → All P (set_node a g ps)
  unfolding set_node
  All-set_node [] keeps h = tt
  All-set_node (p ∷ ps) keeps h = elim (Bool-cases (p.address == a)) [
    | inl here ↦ rw here (keeps p h.0, h.1)
    | inr other ↦ rw other (h.0, All-set_node ps keeps h.1)
  ]

pub node_at-address :
    (a : ℕ) (ps : List MemNode) (m : MemNode) → node_at a ps ≡ some m → m.address ≡ a
unfolding node_at
node_at-address a [] m e = let bad : ⊥ = cc in absurd bad
node_at-address a (p ∷ ps) m e = elim (Bool-cases (p.address == a)) [
  | inl here ↦ let same : p ≡ m = cc in ap (λ q. q.address) (sym same) ∙ ==→eq p.address a here
  | inr other ↦ node_at-address a ps m (rw other at e)
]

pub total_of_In : (f : MemNode → ℕ) (m : MemNode) (ps : List MemNode) → In m ps → f m ≤ total f ps
total_of_In f m [] h = absurd h
total_of_In f m (p ∷ ps) (inl e) = rw (sym e) (omega arith)
total_of_In f m (p ∷ ps) (inr h) = omega (arith, total_of_In f m ps h)

-- Where no two nodes have one address, a node is found at its address.
pub node_at-In :
    (m : MemNode) (ps : List MemNode)
    → In m ps
    → total (at m.address) ps < 2
    → node_at m.address ps ≡ some m
unfolding node_at
node_at-In m [] h once = absurd h
node_at-In m (p ∷ ps) (inl e) once =
    rw (eq→== p.address m.address (ap (λ q. q.address) e)) (ap some e)
node_at-In m (p ∷ ps) (inr h) once = elim (Bool-cases (p.address == m.address)) [
  | inl here ↦
      let two = total_of_In (at m.address) m ps h in
      let one : at m.address m ≡ 1 = rw (eq_refl m.address) refl in
      let bad : 2 ≤ total (at m.address) (p ∷ ps) = rw here (omega (arith, two, one)) in
      absurd (omega (arith, bad))
  | inr other ↦
      let next : total (at m.address) ps < 2 = omega (arith, rw other at once) in
      rw other (node_at-In m ps h next)
]

module _ (a : ℕ) (g : MemNode → MemNode) (keeps : (p : MemNode) → (g p).address ≡ p.address) where
  pub node_at-set_node :
      (ps : List MemNode) (m : MemNode)
      → node_at a ps ≡ some m
      → node_at a (set_node a g ps) ≡ some (g m)
  unfolding node_at set_node
  node_at-set_node [] m e = let bad : ⊥ = cc in absurd bad
  node_at-set_node (p ∷ ps) m e = elim (Bool-cases (p.address == a)) [
    | inl here ↦
        let same : p ≡ m = cc in
        let still : ((g p).address == a) ≡ true = ap (λ x. x == a) (keeps p) ∙ here in
        rw (here, still) (ap (λ q. some (g q)) same)
    | inr other ↦ rw (other, other) (node_at-set_node ps m (rw other at e))
  ]

  pub node_at-set_node_ne :
      (ps : List MemNode) (b : ℕ) → a ≢ b → node_at b (set_node a g ps) ≡ node_at b ps
  unfolding node_at set_node
  node_at-set_node_ne [] b ne = refl
  node_at-set_node_ne (p ∷ ps) b ne = elim (Bool-cases (p.address == a)) [
    | inl here ↦
        let away : (p.address == b) ≡ false =
          ne→== p.address b (λ e. ne (sym (==→eq p.address a here) ∙ e)) in
        let still : ((g p).address == b) ≡ false = ap (λ x. x == b) (keeps p) ∙ away in
        rw (here, still, away) refl
    | inr other ↦ rw other (elim (Bool-cases (p.address == b)) [
      | inl at_b ↦ rw at_b refl
      | inr not_b ↦ rw not_b (node_at-set_node_ne ps b ne)
    ])
  ]

pub All_In {κ} : (P : MemNode → Type κ) (ps : List MemNode) (m : MemNode) → All P ps → In m ps → P m
All_In P [] m h i = absurd i
All_In P (p ∷ ps) m h (inl e) = subst P e h.0
All_In P (p ∷ ps) m h (inr i) = All_In P ps m h.1 i

-- No node is found at an address that no node has.
pub node_at-total :
    (a : ℕ) (ps : List MemNode) (m : MemNode) → node_at a ps ≡ some m → total (at a) ps ≢ 0
unfolding node_at
node_at-total a [] m e = let bad : ⊥ = cc in absurd bad
node_at-total a (p ∷ ps) m e = elim (Bool-cases (p.address == a)) [
  | inl here ↦ rw here (λ z. absurd (omega (arith, z)))
  | inr other ↦
      let ih = node_at-total a ps m (rw other at e) in rw other (λ z. ih (omega (arith, z)))
]

pub All-set_node_at {κ} :
    (P : MemNode → Type κ) (a : ℕ) (g : MemNode → MemNode) (ps : List MemNode) (m : MemNode)
    → node_at a ps ≡ some m
    → P (g m)
    → All P ps
    → All P (set_node a g ps)
unfolding node_at set_node
All-set_node_at P a g [] m e new h = tt
All-set_node_at P a g (p ∷ ps) m e new h = elim (Bool-cases (p.address == a)) [
  | inl here ↦ let same : m ≡ p = cc in rw here (subst (λ q. P (g q)) same new, h.1)
  | inr other ↦ rw other (h.0, All-set_node_at P a g ps m (rw other at e) new h.1)
]

pub All_node_at {κ} :
    (P : MemNode → Type κ) (a : ℕ) (ps : List MemNode) (m : MemNode)
    → All P ps
    → node_at a ps ≡ some m
    → P m
unfolding node_at
All_node_at P a [] m h e = let bad : ⊥ = cc in absurd bad
All_node_at P a (p ∷ ps) m h e = elim (Bool-cases (p.address == a)) [
  | inl here ↦ let same : p ≡ m = cc in subst P same h.0
  | inr other ↦ All_node_at P a ps m h.1 (rw other at e)
]
