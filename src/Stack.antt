-- ===== src/Stack.antt =====
-- src/stack.c: a stack is a doubly linked list whose head is the top.
pub mod Refines
use sftt.Base.{
  ℕ, zero, suc, ◌+◌, Bool, true, false, Option, none, some, List, [], ◌∷◌, ◌==◌, if◌then◌else◌,
  Result, ok, fault, out_of_fuel, ◌>>=◌,
}
use sftt.Dlist.{DlistNode, Store, Dlist, Done, Removed, load, dlist_prepend, dlist_pop_front}

-- `struct stack`
pub record Stack : Type 0 where
  pub list : Dlist

unfoldable pub stack_push : Store → ℕ → Stack → ℕ → Result Done
stack_push h fresh s v = dlist_prepend h fresh s.list v

unfoldable pub stack_pop : Store → Stack → Result Removed
stack_pop h s = dlist_pop_front h s.list

-- NULL, the number 0, for an empty stack.
unfoldable pub stack_peek : Store → Stack → Result ℕ
stack_peek h s = if s.list.head == 0 then ok 0 else do c ← load h s.list.head; ok c.value

unfoldable pub stack_size : Stack → ℕ
stack_size s = s.list.size

-- Without a stack, or without its list, the answer is 1.
unfoldable pub stack_is_empty : Option Stack → ℕ
stack_is_empty none = 1
stack_is_empty (some s) = if s.list.size == 0 then 1 else 0

-- What the loop stores into the array, from its first cell on.
unfoldable pub peek_all_from : ℕ → Store → ℕ → Result (List ℕ)
peek_all_from zero h p = out_of_fuel
peek_all_from (suc fuel) h p =
    if p == 0
    then ok []
    else do c ← load h p; rest ← peek_all_from fuel h c.next; ok (c.value ∷ rest)

unfoldable pub stack_peek_all : Store → Stack → Result (List ℕ)
stack_peek_all h s = peek_all_from (suc s.list.size) h s.list.head
