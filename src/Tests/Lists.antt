-- ===== src/Tests/Lists.antt =====
-- Linked lists, stacks and queues of two nodes.
use sftt.Base.{
  ℕ, ◌≡◌, refl, true, none, some, List, [], ◌∷◌, arith, Result, ok, ◌==◌, if◌then◌else◌, ltb,
}
use sftt.Base.Int.{ℤ, pos, negsuc}
use sftt.Base.Traces.{Run, stay, step}
use sftt.Dlist.{
  Store, Dlist, Done, Removed, dnode, write, load, dlist_ins_next, dlist_ins_prev, dlist_remove,
  dlist_prepend, dlist_append, dlist_pop_front, remove_at, ins_prev_at, ins_next_at,
  dlist_node_create, set_next, set_prev, link_next, link_prev, give_up,
}
use sftt.Dlist.Cells.{Cells, IsList}
use sftt.Dlist.Remove.{TakenOut, dlist_remove_lem}
use sftt.Dlist.Walk.{free_mode_mp_free, dlist_destroy, dlist_sort}
use sftt.Dlist.Destroy.{Destroyed, dlist_destroy_lem}
use sftt.Dlist.Sort.{IsOrder}
use sftt.Dlist.Sort.Loop.{replaces}
use sftt.Dlist.Sort.Rounds.{SortedTo, dlist_sort_lem}
use sftt.Stack.{Stack, stack_push, stack_pop, stack_peek_all, peek_all_from, stack_is_empty}
use sftt.Stack.Refines as OfStack
use sftt.Queue.{Queue, queue_enqueue, queue_dequeue, queue_is_empty}
use sftt.Queue.Refines as OfQueue

-- The data 5 at the address 10 and the data 3 at the address 20.
abbrev two_cells : Cells
two_cells = (10, 5) ∷ (20, 3) ∷ []

abbrev two_nodes : Store
two_nodes a =
    if a == 10
    then some (dnode 5 0 20)
    else if a == 20
    then some (dnode 3 10 0)
    else if a == 30
    then some (dnode 4 0 0)
    else none

abbrev two : Dlist
two = record { size = 2; head = 10; tail = 20 }

two-IsList : IsList two_nodes two two_cells
two-IsList = record {
  chain = (λ e. absurd (omega (arith, e)), refl, (λ e. absurd (omega (arith, e)), refl, tt));
  distinct = λ a. ground arith;
  head = refl;
  tail = refl;
  size = refl;
}

-- The data 4 at the address 30.
abbrev one : Dlist
one = record { size = 1; head = 30; tail = 30 }

one-IsList : IsList two_nodes one ((30, 4) ∷ [])
one-IsList = record {
  chain = (λ e. absurd (omega (arith, e)), refl, tt);
  distinct = λ a. ground arith;
  head = refl;
  tail = refl;
  size = refl;
}

dlist_remove_lem_example :
    TakenOut two_nodes 20 3 true two_cells (dlist_remove two_nodes two 20 true) ((10, 5) ∷ [])
dlist_remove_lem_example = dlist_remove_lem two_nodes two ((10, 5) ∷ []) 20 3 [] true two-IsList

dlist_destroy_lem_example :
    Destroyed two_nodes free_mode_mp_free two_cells (dlist_destroy free_mode_mp_free two_nodes two)
dlist_destroy_lem_example = dlist_destroy_lem free_mode_mp_free two_nodes two two_cells two-IsList

-- The order of numbers.
abbrev by_size : ℕ → ℕ → ℤ
by_size a b = if ltb b a then pos 1 else if a == b then pos 0 else negsuc 0

by_size-IsOrder : IsOrder (replaces by_size true)
by_size-IsOrder = record {
  asym = λ a b h. ground (arith, h);
  trans = λ a b c h k. ground (arith, h, k);
}

dlist_sort_lem_example :
    SortedTo (replaces by_size true) two_nodes two_cells (dlist_sort by_size true two_nodes two)
dlist_sort_lem_example =
    dlist_sort_lem by_size true two_nodes two two_cells by_size-IsOrder two-IsList

abbrev done_of : Result Done → Done
done_of (ok d) = d
done_of other = record { store = two_nodes; list = two; ret = pos 0 }

abbrev gone_of : Result Removed → Removed
gone_of (ok g) = g
gone_of other = record { store = two_nodes; list = two; value = none; ret = pos 0 }

-- 7 goes in at the address 40, and a value comes out.
abbrev pushed : Done
pushed = done_of (stack_push two_nodes 40 (record { list = two }) 7)

abbrev popped : Removed
popped = gone_of (stack_pop pushed.store (record { list = pushed.list }))

pushed_ok : stack_push two_nodes 40 (record { list = two }) 7 ≡ ok pushed
unfolding stack_push dlist_prepend dlist_ins_prev ins_prev_at dlist_node_create load set_prev
    link_next set_next write
pushed_ok = refl

popped_ok : stack_pop pushed.store (record { list = pushed.list }) ≡ ok popped
unfolding stack_pop stack_push dlist_pop_front dlist_remove remove_at give_up link_prev
    dlist_prepend dlist_ins_prev ins_prev_at dlist_node_create load set_prev link_next set_next
    write
popped_ok = refl

-- The last value that went in comes out first.
popped_value : popped.value ≡ some 7
unfolding stack_pop stack_push dlist_pop_front dlist_remove remove_at give_up link_prev
    dlist_prepend dlist_ins_prev ins_prev_at dlist_node_create load set_prev link_next set_next
    write
popped_value = refl

abbrev stack_events : List OfStack.Event
stack_events = OfStack.put 7 pushed.ret ∷ OfStack.take popped.value popped.ret ∷ []

abbrev after_pop : Stack
after_pop = record { list = popped.list }

stack-Run :
    Run OfStack.Step (two_nodes, record { list = two }) stack_events (popped.store, after_pop)
stack-Run =
    step (two_nodes, record { list = two }) (pushed.store, record { list = pushed.list })
      (popped.store, after_pop) (OfStack.put 7 pushed.ret)
      (OfStack.take popped.value popped.ret ∷ [])
      (OfStack.puts two_nodes (record { list = two }) 40 7 pushed refl
        (λ e. absurd (omega (arith, e))) pushed_ok)
      (step (pushed.store, record { list = pushed.list }) (popped.store, after_pop)
        (popped.store, after_pop) (OfStack.take popped.value popped.ret) []
        (OfStack.takes pushed.store (record { list = pushed.list }) popped popped_ok)
        (stay (popped.store, after_pop)))

stack-refines_example :
    (ws : List ℕ) × Run OfStack.Spec (5 ∷ 3 ∷ []) stack_events ws
    × OfStack.IsOf (popped.store, after_pop) ws
stack-refines_example =
    OfStack.stack-refines two_nodes popped.store (record { list = two }) after_pop (5 ∷ 3 ∷ [])
      stack_events (two_cells, two-IsList, refl) stack-Run

abbrev enqueued : Done
enqueued = done_of (queue_enqueue two_nodes 40 (record { list = two }) 7)

abbrev dequeued : Removed
dequeued = gone_of (queue_dequeue enqueued.store (record { list = enqueued.list }))

enqueued_ok : queue_enqueue two_nodes 40 (record { list = two }) 7 ≡ ok enqueued
unfolding queue_enqueue dlist_append dlist_ins_next ins_next_at dlist_node_create load set_prev
    link_prev set_next write
enqueued_ok = refl

dequeued_ok : queue_dequeue enqueued.store (record { list = enqueued.list }) ≡ ok dequeued
unfolding queue_dequeue queue_enqueue dlist_pop_front dlist_remove remove_at give_up link_prev
    dlist_append dlist_ins_next ins_next_at dlist_node_create load set_prev link_next set_next write
dequeued_ok = refl

-- The first value of the queue comes out.
dequeued_value : dequeued.value ≡ some 5
unfolding queue_dequeue queue_enqueue dlist_pop_front dlist_remove remove_at give_up link_prev
    dlist_append dlist_ins_next ins_next_at dlist_node_create load set_prev link_next set_next write
dequeued_value = refl

abbrev queue_events : List OfQueue.Event
queue_events = OfQueue.put 7 enqueued.ret ∷ OfQueue.take dequeued.value dequeued.ret ∷ []

abbrev after_dequeue : Queue
after_dequeue = record { list = dequeued.list }

queue-Run :
    Run OfQueue.Step (two_nodes, record { list = two }) queue_events (dequeued.store, after_dequeue)
queue-Run =
    step (two_nodes, record { list = two }) (enqueued.store, record { list = enqueued.list })
      (dequeued.store, after_dequeue) (OfQueue.put 7 enqueued.ret)
      (OfQueue.take dequeued.value dequeued.ret ∷ [])
      (OfQueue.puts two_nodes (record { list = two }) 40 7 enqueued refl
        (λ e. absurd (omega (arith, e))) enqueued_ok)
      (step (enqueued.store, record { list = enqueued.list }) (dequeued.store, after_dequeue)
        (dequeued.store, after_dequeue) (OfQueue.take dequeued.value dequeued.ret) []
        (OfQueue.takes enqueued.store (record { list = enqueued.list }) dequeued dequeued_ok)
        (stay (dequeued.store, after_dequeue)))

queue-refines_example :
    (ws : List ℕ) × Run OfQueue.Spec (5 ∷ 3 ∷ []) queue_events ws
    × OfQueue.IsOf (dequeued.store, after_dequeue) ws
queue-refines_example =
    OfQueue.queue-refines two_nodes dequeued.store (record { list = two }) after_dequeue
      (5 ∷ 3 ∷ []) queue_events (two_cells, two-IsList, refl) queue-Run

-- A stack that is not there is empty, a queue that is not there is not.
no_stack : stack_is_empty none ≡ 1
unfolding stack_is_empty
no_stack = refl

no_queue : queue_is_empty none ≡ ok 0
unfolding queue_is_empty
no_queue = refl

-- The top first.
peeked : stack_peek_all two_nodes (record { list = two }) ≡ ok (5 ∷ 3 ∷ [])
unfolding stack_peek_all peek_all_from load
peeked = refl
