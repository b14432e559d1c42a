-- ===== src/Stack/Refines.antt =====
-- A stack of nodes is a last-in first-out list (src/stack.c).
use sftt.Base.{ℕ, ◌≡◌, ◌≢◌, Option, none, List, ◌∷◌, length, sym, subst, ok}
use sftt.Base.Int.{ℤ, pos, negsuc}
use sftt.Base.Traces.{Run, simulate}
use sftt.Dlist.{Store, Done, Removed}
use sftt.Dlist.Values.{Holds, TakeSpec, Holds-prepend, Holds-prepend_refused, Holds-pop_front}
use sftt.Stack.{Stack, stack_push, stack_pop}

-- What a caller observes of a call: the value, and what the call returns. An address is NULL where
-- `mp_malloc` has no memory.
pub data Event : Type 0 where
  put : (v : ℕ) (ret : ℤ) → Event
  take : (value : Option ℕ) (ret : ℤ) → Event

-- A call on the nodes.
pub data Step : Store × Stack → Event → Store × Stack → Type 0 where
  puts :
      (h : Store) (s : Stack) (fresh v : ℕ) (done : Done)
      → h fresh ≡ none
      → fresh ≢ 0
      → stack_push h fresh s v ≡ ok done
      → Step (h, s) (put v done.ret) (done.store, record { list = done.list })
  refuses :
      (h : Store) (s : Stack) (v : ℕ) (done : Done)
      → stack_push h 0 s v ≡ ok done
      → Step (h, s) (put v done.ret) (done.store, record { list = done.list })
  takes :
      (h : Store) (s : Stack) (gone : Removed)
      → stack_pop h s ≡ ok gone
      → Step (h, s) (take gone.value gone.ret) (gone.store, record { list = gone.list })

-- The same call on a plain list of values, the top first.
pub data Spec : List ℕ → Event → List ℕ → Type 0 where
  puts : (vs : List ℕ) (v : ℕ) → Spec vs (put v (pos (length (v ∷ vs)))) (v ∷ vs)
  refuses : (vs : List ℕ) (v : ℕ) → Spec vs (put v (negsuc 0)) vs
  takes :
      (vs ws : List ℕ) (value : Option ℕ) (ret : ℤ)
      → TakeSpec vs value ret ws
      → Spec vs (take value ret) ws

-- The nodes of the stack are linked into a list of these values.
abbrev pub IsOf : Store × Stack → List ℕ → Type 0
IsOf (h, s) vs = Holds h s.list vs

Step-simulates :
    (c c' : Store × Stack) (vs : List ℕ) (e : Event)
    → IsOf c vs
    → Step c e c'
    → (ws : List ℕ) × Spec vs e ws × IsOf c' ws
unfolding stack_push stack_pop
Step-simulates c c' vs e holds (puts h s fresh v done free ne r) =
    let (ret, after) = Holds-prepend h s.list fresh vs v done holds free ne r in
    (v ∷ vs, subst (λ n. Spec vs (put v n) (v ∷ vs)) (sym ret) (puts vs v), after)
Step-simulates c c' vs e holds (refuses h s v done r) =
    let (ret, after) = Holds-prepend_refused h s.list vs v done holds r in
    (vs, subst (λ n. Spec vs (put v n) vs) (sym ret) (refuses vs v), after)
Step-simulates c c' vs e holds (takes h s gone r) =
    let (ws, spec, after) = Holds-pop_front h s.list vs gone holds r in
    (ws, takes vs ws gone.value gone.ret spec, after)

-- In every run of pushes and pops on a linked stack, one in which an address that `mp_malloc`
-- gives is free and not NULL or there is none, the values the calls store and return are those of
-- the same run on a plain last-in first-out list, and the nodes keep representing that list.
pub stack-refines :
    (h h' : Store) (s s' : Stack) (vs : List ℕ) (es : List Event)
    → IsOf (h, s) vs
    → Run Step (h, s) es (h', s')
    → (ws : List ℕ) × Run Spec vs es ws × IsOf (h', s') ws
stack-refines h h' s s' vs es holds run =
    simulate Step Spec IsOf Step-simulates (h, s) (h', s') vs es holds run
