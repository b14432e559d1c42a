-- ===== src/Queue.antt =====
-- src/queue.c: a queue is a doubly linked list that grows at the tail and shrinks at the head.
pub mod Refines
use sftt.Base.{
  ℕ, zero, suc, ◌+◌, Bool, true, false, Option, none, some, List, [], ◌∷◌, ◌==◌, if◌then◌else◌,
  Result, ok, fault, out_of_fuel, ◌>>=◌,
}
use sftt.Dlist.{
  DlistNode, Store, Dlist, Done, Removed, load, dlist_append, dlist_pop_front, dlist_empty,
}

-- `struct queue`
pub record Queue : Type 0 where
  pub list : Dlist

unfoldable pub queue_enqueue : Store → ℕ → Queue → ℕ → Result Done
queue_enqueue h fresh q v = dlist_append h fresh q.list v

unfoldable pub queue_dequeue : Store → Queue → Result Removed
queue_dequeue h q = dlist_pop_front h q.list

-- NULL, the number 0, for an empty queue.
unfoldable pub queue_peek : Store → Queue → Result ℕ
queue_peek h q = if q.list.head == 0 then ok 0 else do c ← load h q.list.head; ok c.value

unfoldable pub queue_size : Queue → ℕ
queue_size q = q.list.size

-- Without a queue, or without its list, the answer is 0.
unfoldable pub queue_is_empty : Option Queue → Result ℕ
queue_is_empty none = ok 0
queue_is_empty (some q) = dlist_empty q.list
