-- ===== src/Huffman/Codes/Paths.antt =====
-- The codes of the leaves are the paths that lead to them from the root.
use sftt.Base.{
  ℕ, ◌+◌, ◌<◌, ◌≡◌, refl, true, false, ◌⊎◌, inl, inr, Option, some, some_inj, none_not, length, [],
  ◌∷◌, ◌++◌, arith, ◌==◌, Bool-cases, reverse, append-nil, append_assoc, subst,
}
use mathlib.Core.List.{reverse-cons}
use sftt.Base.Int.{ℤ, pos, negsuc}
use sftt.Huffman.Tree.{Tree, null, node, CharStat, btree_is_leaf, btree_node_count}
use sftt.Huffman.Tree.Build.{leaves, is_char}
use sftt.Huffman.Codes.{Code, Codes}
use sftt.Huffman.Codes.Shape.{path_code, put_code, put_codes}

-- From `t` the digits of `w` lead to a leaf of the char `c`: '1' goes left and '0' right.
abbrev pub Leads : Tree → Code → ℕ → Type 0
Leads null w c = ⊥
Leads (node a s l r) [] c = (btree_is_leaf (node a s l r) ≡ true) × (s.ch ≡ pos c)
Leads (node a s l r) (d ∷ w) c =
    (btree_is_leaf (node a s l r) ≡ false)
    × (((d ≡ b'1') × Leads l w c) ⊎ ((d ≡ b'0') × Leads r w c))

abbrev pub Sound : Tree → Codes → Type 0
Sound root codes = (c : ℕ) (w : Code) → codes c ≡ some w → Leads root w c

abbrev pub HasCode : Codes → ℕ → Type 0
HasCode codes c = (w : Code) × (codes c ≡ some w)

-- `sc`, read from its end, leads from the root to `t`.
abbrev Extends : Tree → Code → Tree → Type 0
Extends root sc t = (w : Code) (c : ℕ) → Leads t w c → Leads root (reverse sc ++ w) c

reverse_push : (d : ℕ) (sc w : Code) → reverse (d ∷ sc) ++ w ≡ reverse sc ++ d ∷ w
reverse_push d sc w = rw reverse-cons (append_assoc (reverse sc) (d ∷ []) w)

module _ (root : Tree) (a : ℕ) (s : CharStat) (l r : Tree) (sc : Code)
    (inner : btree_is_leaf (node a s l r) ≡ false) where
  Extends-left : Extends root sc (node a s l r) → Extends root (b'1' ∷ sc) l
  Extends-left up w c p = rw (reverse_push b'1' sc w) (up (b'1' ∷ w) c (inner, inl (refl, p)))

  Extends-right : Extends root sc (node a s l r) → Extends root (b'0' ∷ sc) r
  Extends-right up w c p = rw (reverse_push b'0' sc w) (up (b'0' ∷ w) c (inner, inr (refl, p)))

put_code-Sound :
    (root : Tree) (z : ℤ) (v : Option Code) (codes : Codes)
    → ((d : ℕ) (w : Code) → z ≡ pos d → v ≡ some w → Leads root w d)
    → Sound root codes
    → Sound root (put_code z v codes)
put_code-Sound root (pos d) v codes new old c w e = elim (Bool-cases (d == c)) [
  | inl same ↦
      let dc : d ≡ c = ground arith in subst (λ x. Leads root w x) dc (new d w refl (rw same at e))
  | inr other ↦ old c w (rw other at e)
]
put_code-Sound root (negsuc n) v codes new old c w e = old c w e

path_code-reverse : (sc w : Code) → path_code sc ≡ some w → reverse sc ≡ w
path_code-reverse [] w e = absurd (none_not e)
path_code-reverse (d ∷ sc) w e = some_inj e

pub put_codes-Sound :
    (root t : Tree) (sc : Code) (codes : Codes)
    → Extends root sc t
    → Sound root codes
    → Sound root (put_codes t sc codes)
unfolding put_codes
put_codes-Sound root null sc codes up old = old
put_codes-Sound root (node a s l r) sc codes up old =
    elim (Bool-cases (btree_is_leaf (node a s l r))) [
      | inl leaf ↦ rw leaf (
          put_code-Sound root s.ch (path_code sc) codes
            (λ d w e p.
              subst (λ x. Leads root x d) (path_code-reverse sc w p)
                (rw append-nil at (up [] d (leaf, e))))
            old)
      | inr inner ↦ rw inner (
          put_codes-Sound root r (b'0' ∷ sc) (put_codes l (b'1' ∷ sc) codes)
            (Extends-right root a s l r sc inner up)
            (put_codes-Sound root l (b'1' ∷ sc) codes (Extends-left root a s l r sc inner up) old))
    ]

put_code-keeps :
    (z : ℤ) (v : Code) (codes : Codes) (c : ℕ)
    → HasCode codes c
    → HasCode (put_code z (some v) codes) c
put_code-keeps (pos d) v codes c h = elim (Bool-cases (d == c)) [
  | inl same ↦ (v, rw same)
  | inr other ↦ (h.0, rw other h.1)
]
put_code-keeps (negsuc n) v codes c h = h

put_codes-keeps :
    (t : Tree) (d : ℕ) (sc : Code) (codes : Codes) (c : ℕ)
    → HasCode codes c
    → HasCode (put_codes t (d ∷ sc) codes) c
unfolding put_codes
put_codes-keeps null d sc codes c h = h
put_codes-keeps (node a s l r) d sc codes c h = elim (Bool-cases (btree_is_leaf (node a s l r))) [
  | inl leaf ↦ rw leaf (put_code-keeps s.ch (reverse (d ∷ sc)) codes c h)
  | inr inner ↦
      rw inner (put_codes-keeps r b'0' (d ∷ sc) _ c (put_codes-keeps l b'1' (d ∷ sc) codes c h))
]

put_code-has :
    (z : ℤ) (v : Code) (codes : Codes) (c : ℕ)
    → 0 < is_char c z
    → HasCode (put_code z (some v) codes) c
put_code-has (pos d) v codes c h = (v, ground arith)
put_code-has (negsuc n) v codes c h = absurd (omega arith)

pos_split : (a b : ℕ) → 0 < a + b → (0 < a) ⊎ (0 < b)
pos_split a b h = grind arith

-- Every char that has a leaf below the root gets a code.
put_codes-has_below :
    (t : Tree) (d : ℕ) (sc : Code) (codes : Codes) (c : ℕ)
    → 0 < leaves c t
    → HasCode (put_codes t (d ∷ sc) codes) c
unfolding put_codes leaves
put_codes-has_below null d sc codes c h = absurd (omega arith)
put_codes-has_below (node a s l r) d sc codes c h =
    elim (Bool-cases (btree_is_leaf (node a s l r))) [
      | inl leaf ↦ rw leaf (put_code-has s.ch (reverse (d ∷ sc)) codes c (rw leaf at h))
      | inr inner ↦ rw inner (elim (pos_split (leaves c l) (leaves c r) (rw inner at h)) [
        | inl p ↦
            put_codes-keeps r b'0' (d ∷ sc) _ c (put_codes-has_below l b'1' (d ∷ sc) codes c p)
        | inr p ↦ put_codes-has_below r b'0' (d ∷ sc) (put_codes l (b'1' ∷ (d ∷ sc)) codes) c p
      ])
    ]

pub put_codes-has :
    (t : Tree) (codes : Codes) (c : ℕ)
    → btree_is_leaf t ≡ false
    → 0 < leaves c t
    → HasCode (put_codes t [] codes) c
unfolding put_codes leaves
put_codes-has null codes c inner h = absurd (omega arith)
put_codes-has (node a s l r) codes c inner h =
    rw inner (elim (pos_split (leaves c l) (leaves c r) (rw inner at h)) [
      | inl p ↦ put_codes-keeps r b'0' [] _ c (put_codes-has_below l b'1' [] codes c p)
      | inr p ↦ put_codes-has_below r b'0' [] (put_codes l (b'1' ∷ []) codes) c p
    ])

-- A path that leads to a leaf is shorter than the number of nodes.
pub Leads-length : (t : Tree) (w : Code) (c : ℕ) → Leads t w c → length w < btree_node_count t
unfolding btree_node_count
Leads-length null w c h = absurd h
Leads-length (node a s l r) [] c h = omega arith
Leads-length (node a s l r) (d ∷ w) c (inner, inl (e, h)) = omega (arith, Leads-length l w c h)
Leads-length (node a s l r) (d ∷ w) c (inner, inr (e, h)) = omega (arith, Leads-length r w c h)
