-- ===== src/Dlist.antt =====
-- src/dlist.c: doubly linked lists. The nodes stand in a store, an address is a number and NULL is
-- 0; a list is its struct. `fresh` is the address that `mp_malloc` gives for a node, 0 if it gives
-- none.
pub mod Cells
pub mod Link
pub mod Insert
pub mod Remove
pub mod Values
pub mod Walk
pub mod Destroy
pub mod Sort
pub mod Merge
use sftt.Base.{
  ℕ, zero, suc, ◌+◌, ◌-◌, Bool, true, false, ◌&&◌, Option, none, some, List, [], ◌∷◌, ◌==◌,
  if◌then◌else◌, not, Result, ok, fault, out_of_fuel, ◌>>=◌, ◌>>◌, assert, from_option,
}
use sftt.Base.Int.{ℤ, pos, negsuc, is_pos}

-- `struct dlist_node`; the data is a pointer.
pub record DlistNode : Type 0 where
  pub value : ℕ
  pub prev : ℕ
  pub next : ℕ

abbrev pub dnode : ℕ → ℕ → ℕ → DlistNode
dnode d p n = record { value = d; prev = p; next = n }

abbrev pub Store : Type 0
Store = ℕ → Option DlistNode

unfoldable pub write : Store → ℕ → Option DlistNode → Store
write h p c a = if a == p then c else h a

-- An access through NULL, or of a node that is not there, is a fault.
unfoldable pub load : Store → ℕ → Result DlistNode
load h p = if p == 0 then fault else from_option (h p)

unfoldable pub set_next : Store → ℕ → ℕ → Result Store
set_next h p n = load h p >>= λ c. ok (write h p (some (record c { next = n })))

unfoldable pub set_prev : Store → ℕ → ℕ → Result Store
set_prev h p n = load h p >>= λ c. ok (write h p (some (record c { prev = n })))

-- `if (p) p->next = n`
unfoldable pub link_next : Store → ℕ → ℕ → Result Store
link_next h p n = if p == 0 then ok h else set_next h p n

-- `if (p) p->prev = n`
unfoldable pub link_prev : Store → ℕ → ℕ → Result Store
link_prev h p n = if p == 0 then ok h else set_prev h p n

-- `struct dlist`
pub record Dlist : Type 0 where
  pub size : ℕ
  pub head : ℕ
  pub tail : ℕ

-- What a call leaves: the nodes, the list, and the value returned.
pub record Done : Type 0 where
  pub store : Store
  pub list : Dlist
  pub ret : ℤ

unfoldable pub dlist_init : Dlist
dlist_init = record { size = 0; head = 0; tail = 0 }

unfoldable pub dlist_node_create : Store → ℕ → ℕ → Store
dlist_node_create h fresh d = write h fresh (some (dnode d 0 0))

abbrev pub refused : Store → Dlist → Result Done
refused h l = ok (record { store = h; list = l; ret = negsuc 0 })

unfoldable pub ins_next_at : Store → ℕ → Dlist → ℕ → ℕ → Result Done
ins_next_at h fresh l elem d = do
  let h0 = dlist_node_create h fresh d
  e ← load h0 elem
  h1 ← set_next h0 fresh e.next
  h2 ← link_prev h1 e.next fresh
  h3 ← set_prev h2 fresh elem
  h4 ← set_next h3 elem fresh
  ok (record {
    store = h4;
    list = record l { size = l.size + 1; tail = if l.tail == elem then fresh else l.tail };
    ret = pos (l.size + 1);
  })

unfoldable pub dlist_ins_next : Store → ℕ → Dlist → ℕ → ℕ → Result Done
dlist_ins_next h fresh l elem d =
    if elem == 0
    then refused h l
    else if fresh == 0
    then refused h l
    else ins_next_at h fresh l elem d

unfoldable pub ins_prev_at : Store → ℕ → Dlist → ℕ → ℕ → Result Done
ins_prev_at h fresh l elem d = do
  let h0 = dlist_node_create h fresh d
  e ← load h0 elem
  h1 ← set_prev h0 fresh e.prev
  h2 ← link_next h1 e.prev fresh
  h3 ← set_next h2 fresh elem
  h4 ← set_prev h3 elem fresh
  ok (record {
    store = h4;
    list = record l { size = l.size + 1; head = if l.head == elem then fresh else l.head };
    ret = pos (l.size + 1);
  })

unfoldable pub dlist_ins_prev : Store → ℕ → Dlist → ℕ → ℕ → Result Done
dlist_ins_prev h fresh l elem d =
    if elem == 0
    then refused h l
    else if fresh == 0
    then refused h l
    else ins_prev_at h fresh l elem d

-- The first node of an empty list.
unfoldable pub ins_only : Store → ℕ → Dlist → ℕ → Result Done
ins_only h fresh l d = do
  assert (l.head == 0 && l.tail == 0)
  if fresh == 0
      then refused h l
      else ok (record {
        store = dlist_node_create h fresh d;
        list = record { size = l.size + 1; head = fresh; tail = fresh };
        ret = pos (l.size + 1);
      })

unfoldable pub dlist_prepend : Store → ℕ → Dlist → ℕ → Result Done
dlist_prepend h fresh l d =
    if l.head == 0 then ins_only h fresh l d else dlist_ins_prev h fresh l l.head d

unfoldable pub dlist_append : Store → ℕ → Dlist → ℕ → Result Done
dlist_append h fresh l d =
    if l.tail == 0 then ins_only h fresh l d else dlist_ins_next h fresh l l.tail d

-- What a removal leaves, with `*data` if it is stored.
pub record Removed : Type 0 where
  pub store : Store
  pub list : Dlist
  pub value : Option ℕ
  pub ret : ℤ

-- `mp_free`, or the two stores of NULL.
unfoldable pub give_up : Store → ℕ → DlistNode → Bool → Store
give_up h elem e need_free = write h elem (if need_free then none else some (dnode e.value 0 0))

unfoldable pub remove_at : Store → Dlist → ℕ → Bool → Result Removed
remove_at h l elem need_free = do
  e ← load h elem
  h1 ← link_next h e.prev e.next
  h2 ← link_prev h1 e.next e.prev
  e' ← load h2 elem
  ok (record {
    store = give_up h2 elem e' need_free;
    list = record {
      size = l.size - 1;
      head = if elem == l.head then e.next else l.head;
      tail = if elem == l.tail then e.prev else l.tail;
    };
    value = some e'.value;
    ret = pos (l.size - 1);
  })

unfoldable pub dlist_remove : Store → Dlist → ℕ → Bool → Result Removed
dlist_remove h l elem need_free =
    if elem == 0
    then ok (record { store = h; list = l; value = none; ret = negsuc 0 })
    else remove_at h l elem need_free

unfoldable pub nothing_popped : Store → Dlist → Result Removed
nothing_popped h l = do
  assert (l.head == 0 && l.tail == 0)
  ok (record { store = h; list = l; value = none; ret = pos l.size })

unfoldable pub dlist_pop_front : Store → Dlist → Result Removed
dlist_pop_front h l = if l.head == 0 then nothing_popped h l else dlist_remove h l l.head true

unfoldable pub dlist_pop_back : Store → Dlist → Result Removed
dlist_pop_back h l = if l.tail == 0 then nothing_popped h l else dlist_remove h l l.tail true

-- 1 for an empty list.
unfoldable pub dlist_empty : Dlist → Result ℕ
dlist_empty l =
    if l.size == 0
    then (assert (l.head == 0 && l.tail == 0) >> ok 1)
    else (assert (not (l.head == 0) && not (l.tail == 0)) >> ok 0)
