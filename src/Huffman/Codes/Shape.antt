-- ===== src/Huffman/Codes/Shape.antt =====
-- What the walk depends on in a tree: the names of its nodes, its leaves, and the codes that it
-- stands for.
use sftt.Base.{
  ℕ, ◌+◌, ◌<◌, ◌≡◌, true, false, Option, none, some, List, [], ◌∷◌, ◌++◌, arith, append_assoc,
  append-nil, if◌then◌else◌, reverse,
}
use sftt.Base.Int.{ℤ, pos, negsuc}
use sftt.Base.Count.{has, count, count-append, has_of_count_zero}
use sftt.Huffman.Tree.{Tree, null, node, charset_size, btree_is_leaf}
use sftt.Huffman.Codes.{Code, Codes, set_code}

-- The names of the nodes, each before those under it and the left ones first.
abbrev pub ids : Tree → List ℕ
ids null = []
ids (node a s l r) = a ∷ (ids l ++ ids r)

abbrev pub ids_below : Tree → List ℕ
ids_below null = []
ids_below (node a s l r) = ids l ++ ids r

-- No element of the list stands in `m` or earlier in the list.
abbrev pub Fresh : List ℕ → List ℕ → Type 0
Fresh m [] = Unit
Fresh m (x ∷ xs) = (has x m ≡ false) × Fresh (m ++ x ∷ []) xs

-- The char of a leaf is an index of the array of codes.
abbrev pub IsIndex : ℤ → Type 0
IsIndex (pos c) = c < charset_size
IsIndex (negsuc n) = ⊥

abbrev pub IsCoded : Tree → Type 0
IsCoded null = Unit
IsCoded (node a s l r) =
    (btree_is_leaf (node a s l r) ≡ true → IsIndex s.ch) × IsCoded l × IsCoded r

-- The path that `sc` stands for, last step first; the root, where it is a leaf, gets no code.
abbrev pub path_code : Code → Option Code
path_code [] = none
path_code (d ∷ sc) = some (reverse (d ∷ sc))

abbrev pub put_code : ℤ → Option Code → Codes → Codes
put_code (pos c) w codes = set_code codes c w
put_code (negsuc n) w codes = codes

-- The codes of the leaves, for a tree that the path `sc` leads to, last step first.
unfoldable pub put_codes : Tree → Code → Codes → Codes
put_codes null sc codes = codes
put_codes (node a s l r) sc codes =
    if btree_is_leaf (node a s l r)
    then put_code s.ch (path_code sc) codes
    else put_codes r (b'0' ∷ sc) (put_codes l (b'1' ∷ sc) codes)

pub Fresh-append : (m xs ys : List ℕ) → Fresh m (xs ++ ys) → Fresh m xs × Fresh (m ++ xs) ys
Fresh-append m [] ys h = (tt, rw append-nil h)
Fresh-append m (x ∷ xs) ys h =
    let (one, two) = Fresh-append (m ++ x ∷ []) xs ys h.1 in ((h.0, one), rw append_assoc at two)

pub Fresh-of_count : (m xs : List ℕ) → ((x : ℕ) → count x m + count x xs < 2) → Fresh m xs
Fresh-of_count m [] h = tt
Fresh-of_count m (x ∷ xs) h = (
  has_of_count_zero x m (ground (arith, h x)),
  Fresh-of_count (m ++ x ∷ []) xs λ y. ground (arith, h y, count-append y m (x ∷ [])),
)
