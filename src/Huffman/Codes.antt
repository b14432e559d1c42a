-- ===== src/Huffman/Codes.antt =====
-- `get_char_codes` of compress.c: the code of each char, by a depth-first walk with two stacks and
-- a map of the nodes that were entered.
pub mod Shape
pub mod Visits
pub mod Paths
use sftt.Base.{
  ℕ, zero, suc, ◌+◌, ◌*◌, Bool, true, false, not, Option, none, some, List, [], ◌∷◌, ◌++◌, reverse,
  ◌==◌, ltb, if◌then◌else◌, tail, Result, ok, fault, out_of_fuel, ◌>>=◌,
}
use sftt.Base.Int.{ℤ, pos, negsuc}
use sftt.Base.Count.{has}
use sftt.Huffman.Tree.{Tree, null, node, charset_size, btree_is_leaf, btree_node_count, is_null}

-- The chars of a code, '1' or '0', without the final NUL.
abbrev pub Code : Type 0
Code = List ℕ

-- `char *char_codes[CHARSET_SIZE]`
abbrev pub Codes : Type 0
Codes = ℕ → Option Code

abbrev pub set_code : Codes → ℕ → Option Code → Codes
set_code codes c w i = if c == i then w else codes i

-- The stacks `sc` and `stn`, top first, the keys of the map `m`, and the codes.
pub record Walk : Type 0 where
  pub sc : Code
  pub stn : List Tree
  pub seen : List ℕ
  pub codes : Codes

-- `t && map_find(m, ptr_equal, t, NULL) == -1`
unseen : Tree → List ℕ → Bool
unseen null m = false
unseen (node a s l r) m = not (has a m)

map_add : Tree → List ℕ → List ℕ
map_add null m = m
map_add (node a s l r) m = if has a m then m else m ++ a ∷ []

enter : ℕ → Tree → Walk → Walk
unfolding map_add
enter c t w = record { sc = c ∷ w.sc; stn = t ∷ w.stn; seen = map_add t w.seen; codes = w.codes }

leave : Walk → Walk
leave w = record w { sc = tail w.sc; stn = tail w.stn }

-- `get_char_code`: the stack from its bottom to its top. For an empty stack `mp_malloc` is asked for
-- an array of no bytes and gives NULL, which is then the code.
get_char_code : Code → Option Code
get_char_code [] = none
get_char_code (d ∷ sc) = some (reverse (d ∷ sc))

-- `char_codes[ch] = get_char_code(sc)`, a fault outside the array.
save_code : ℤ → Walk → Result Walk
unfolding get_char_code
save_code (pos c) w =
    if ltb c charset_size
    then ok (record w { codes = set_code w.codes c (get_char_code w.sc) })
    else fault
save_code (negsuc n) w = fault

-- The body of the loop at the node on top of `stn`. At NULL the program would go round for ever.
visit : Tree → Walk → Result Walk
unfolding unseen enter leave save_code btree_is_leaf
visit null w = ok w
visit (node a s l r) w =
    if btree_is_leaf (node a s l r)
    then (save_code s.ch w >>= λ w'. ok (leave w'))
    else if unseen l w.seen
    then ok (enter b'1' l w)
    else if unseen r w.seen
    then ok (enter b'0' r w)
    else ok (leave w)

walk : ℕ → Walk → Result Codes
unfolding visit
walk zero w = out_of_fuel
walk (suc k) w = elim (w.stn) [ [] ↦ ok w.codes | t ∷ ts ↦ (visit t w >>= λ w'. walk k w') ]

-- `none` is the return value -1. Each node is pushed once and popped once, and one more round finds
-- the stack empty; the root is pushed before the loop.
unfoldable pub get_char_codes : Tree → Codes → Result (Option Codes)
unfolding walk btree_node_count
get_char_codes null codes = ok none
get_char_codes (node a s l r) codes =
    walk (2 * btree_node_count (node a s l r))
      (record { sc = []; stn = node a s l r ∷ []; seen = []; codes = codes })
    >>= λ c. ok (some c)
