-- ===== src/Dlist/Walk.antt =====
-- The functions of src/dlist.c that walk over a list. A loop has the fuel of the list's size and
-- one, for the test that ends it.
use sftt.Base.{
  ℕ, zero, suc, ◌+◌, Bool, false, ◌&&◌, none, List, [], ◌∷◌, ◌++◌, ◌==◌, if◌then◌else◌, Result, ok,
  out_of_fuel, ◌>>=◌, ◌>>◌, assert,
}
use sftt.Base.Int.{ℤ, is_pos, is_neg}
use sftt.Dlist.{Store, write, load, set_next, set_prev, Dlist, dlist_remove, dlist_empty}

-- `enum free_mode`
pub data FreeMode : Type 0 where
  free_mode_nothing : FreeMode
  free_mode_mp_free : FreeMode
  free_mode_free : FreeMode

-- The data that one node has freed.
abbrev pub freed_data : FreeMode → ℕ → List ℕ
freed_data free_mode_nothing d = []
freed_data free_mode_mp_free d = d ∷ []
freed_data free_mode_free d = d ∷ []

-- The nodes that are left, and the data that are freed, in order.
unfoldable pub destroy_from : ℕ → FreeMode → Store → ℕ → Result (Store × List ℕ)
destroy_from zero mode h p = out_of_fuel
destroy_from (suc fuel) mode h p = if p == 0 then ok (h, []) else do
  c ← load h p
  (g, ds) ← destroy_from fuel mode (write h p none) c.next
  ok (g, freed_data mode c.value ++ ds)

unfoldable pub dlist_destroy : FreeMode → Store → Dlist → Result (Store × List ℕ)
dlist_destroy mode h l = destroy_from (suc l.size) mode h l.head

-- `better a b` tells that the data `b` replace the data `a` of the node found so far.
unfoldable pub better_of : Store → (ℕ → ℕ → Bool) → ℕ → ℕ → ℕ → Result ℕ
better_of h better node p d =
    if node == 0 then ok p else do b ← load h node; ok (if better b.value d then p else node)

unfoldable pub scan : ℕ → Store → (ℕ → ℕ → Bool) → ℕ → ℕ → Result ℕ
scan zero h better node p = out_of_fuel
scan (suc fuel) h better node p =
    if p == 0
    then ok node
    else do c ← load h p; node' ← better_of h better node p c.value; scan fuel h better node' c.next

unfoldable pub dlist_get_min : (ℕ → ℕ → ℤ) → Store → Dlist → Result ℕ
dlist_get_min cmp h l = scan (suc l.size) h (λ a b. is_pos (cmp a b)) 0 l.head

unfoldable pub dlist_get_max : (ℕ → ℕ → ℤ) → Store → Dlist → Result ℕ
dlist_get_max cmp h l = scan (suc l.size) h (λ a b. is_neg (cmp a b)) 0 l.head

-- The nodes, the list that is left, and the head and the tail of the new one.
pub record Sorting : Type 0 where
  pub store : Store
  pub list : Dlist
  pub new_head : ℕ
  pub new_tail : ℕ

unfoldable pub pick : (ℕ → ℕ → ℤ) → Bool → Store → Dlist → Result ℕ
pick cmp asc h l = if asc then dlist_get_min cmp h l else dlist_get_max cmp h l

-- The node behind the new list so far.
unfoldable pub chain_node : Store → Dlist → ℕ → ℕ → ℕ → Result Sorting
chain_node h l new_head new_tail node =
    if new_head == 0
    then ok (record { store = h; list = l; new_head = node; new_tail = node })
    else do
      h1 ← set_next h new_tail node
      h2 ← set_prev h1 node new_tail
      ok (record { store = h2; list = l; new_head = new_head; new_tail = node })

unfoldable pub sort_loop : ℕ → (ℕ → ℕ → ℤ) → Bool → Sorting → Result Sorting
sort_loop zero cmp asc s = out_of_fuel
sort_loop (suc fuel) cmp asc s = if s.list.size == 0 then ok s else do
  node ← pick cmp asc s.store s.list
  r ← dlist_remove s.store s.list node false
  s' ← chain_node r.store r.list s.new_head s.new_tail node
  sort_loop fuel cmp asc s'

unfoldable pub dlist_sort : (ℕ → ℕ → ℤ) → Bool → Store → Dlist → Result (Store × Dlist)
dlist_sort cmp asc h l = do
  s ← sort_loop (suc l.size) cmp asc (record { store = h; list = l; new_head = 0; new_tail = 0 })
  assert (s.list.head == 0 && s.list.tail == 0)
  ok (s.store, record { size = l.size; head = s.new_head; tail = s.new_tail })

-- The nodes of the second list behind those of the first. The second list is given up, whoever
-- holds it: it is the first that is returned, unless it is empty.
unfoldable pub join : Store → Dlist → Dlist → Result (Store × Dlist)
join h a b = do
  h1 ← set_next h a.tail b.head
  h2 ← set_prev h1 b.head a.tail
  ok (h2, record { size = a.size + b.size; head = a.head; tail = b.tail })

unfoldable pub dlist_merge : Store → Dlist → Dlist → Result (Store × Dlist)
dlist_merge h a b = do
  e ← dlist_empty a
  if e == 1 then ok (h, b) else do f ← dlist_empty b; if f == 1 then ok (h, a) else join h a b
