-- ===== src/Queue/Refines.antt =====
-- A queue of nodes is a first-in first-out list (src/queue.c).
use sftt.Base.{ℕ, ◌≡◌, ◌≢◌, Option, none, List, [], ◌∷◌, ◌++◌, length, sym, subst, ok}
use sftt.Base.Int.{ℤ, pos, negsuc}
use sftt.Base.Traces.{Run, simulate}
use sftt.Dlist.{Store, Done, Removed}
use sftt.Dlist.Values.{Holds, TakeSpec, Holds-append, Holds-append_refused, Holds-pop_front}
use sftt.Queue.{Queue, queue_enqueue, queue_dequeue}

-- What a caller observes of a call: the value, and what the call returns. An address is NULL where
-- `mp_malloc` has no memory.
pub data Event : Type 0 where
  put : (v : ℕ) (ret : ℤ) → Event
  take : (value : Option ℕ) (ret : ℤ) → Event

-- A call on the nodes.
pub data Step : Store × Queue → Event → Store × Queue → Type 0 where
  puts :
      (h : Store) (q : Queue) (fresh v : ℕ) (done : Done)
      → h fresh ≡ none
      → fresh ≢ 0
      → queue_enqueue h fresh q v ≡ ok done
      → Step (h, q) (put v done.ret) (done.store, record { list = done.list })
  refuses :
      (h : Store) (q : Queue) (v : ℕ) (done : Done)
      → queue_enqueue h 0 q v ≡ ok done
      → Step (h, q) (put v done.ret) (done.store, record { list = done.list })
  takes :
      (h : Store) (q : Queue) (gone : Removed)
      → queue_dequeue h q ≡ ok gone
      → Step (h, q) (take gone.value gone.ret) (gone.store, record { list = gone.list })

-- The same call on a plain list of values, the oldest first.
pub data Spec : List ℕ → Event → List ℕ → Type 0 where
  puts : (vs : List ℕ) (v : ℕ) → Spec vs (put v (pos (length (vs ++ v ∷ [])))) (vs ++ v ∷ [])
  refuses : (vs : List ℕ) (v : ℕ) → Spec vs (put v (negsuc 0)) vs
  takes :
      (vs ws : List ℕ) (value : Option ℕ) (ret : ℤ)
      → TakeSpec vs value ret ws
      → Spec vs (take value ret) ws

-- The nodes of the queue are linked into a list of these values.
abbrev pub IsOf : Store × Queue → List ℕ → Type 0
IsOf (h, q) vs = Holds h q.list vs

Step-simulates :
    (c c' : Store × Queue) (vs : List ℕ) (e : Event)
    → IsOf c vs
    → Step c e c'
    → (ws : List ℕ) × Spec vs e ws × IsOf c' ws
unfolding queue_enqueue queue_dequeue
Step-simulates c c' vs e holds (puts h q fresh v done free ne r) =
    let (ret, after) = Holds-append h q.list fresh vs v done holds free ne r in
    (vs ++ v ∷ [], subst (λ n. Spec vs (put v n) (vs ++ v ∷ [])) (sym ret) (puts vs v), after)
Step-simulates c c' vs e holds (refuses h q v done r) =
    let (ret, after) = Holds-append_refused h q.list vs v done holds r in
    (vs, subst (λ n. Spec vs (put v n) vs) (sym ret) (refuses vs v), after)
Step-simulates c c' vs e holds (takes h q gone r) =
    let (ws, spec, after) = Holds-pop_front h q.list vs gone holds r in
    (ws, takes vs ws gone.value gone.ret spec, after)

-- In every run of calls that enqueue and dequeue on a linked queue, one in which an address that
-- `mp_malloc` gives is free and not NULL or there is none, the values the calls store and return
-- are those of the same run on a plain first-in first-out list, and the nodes keep representing
-- that list.
pub queue-refines :
    (h h' : Store) (q q' : Queue) (vs : List ℕ) (es : List Event)
    → IsOf (h, q) vs
    → Run Step (h, q) es (h', q')
    → (ws : List ℕ) × Run Spec vs es ws × IsOf (h', q') ws
queue-refines h h' q q' vs es holds run =
    simulate Step Spec IsOf Step-simulates (h, q) (h', q') vs es holds run
