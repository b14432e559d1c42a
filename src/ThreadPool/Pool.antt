-- ===== src/ThreadPool/Pool.antt =====
-- The pool of src/thread_pool.c: its creation, and the choice of a thread.
use sftt.Base.{
  ℕ, zero, suc, ◌+◌, ◌<◌, ◌≡◌, refl, Bool, true, false, not, Option, none, some, List, [], ◌∷◌,
  ◌++◌, if◌then◌else◌, length, replicate, All, ltb, le→ltb, inl, inr, Bool-cases, ap, arith,
}
use sftt.Base.Int.{ℤ, pos, negsuc, is_neg}
use sftt.ThreadPool.{ThreadState, wait, running, finished, ThreadInstance}

-- `struct thread_pool`; the size is the length of the array.
pub record ThreadPool : Type 0 where
  pub initialized : Bool
  pub threads : List ThreadInstance

abbrev pub is_wait : ThreadState → Bool
is_wait wait = true
is_wait running = false
is_wait finished = false

-- The index of the first thread that waits, counted from `i`.
abbrev pub idle_from : ℕ → List ThreadInstance → Option ℕ
idle_from i [] = none
idle_from i (t ∷ ts) = let rest = idle_from (suc i) ts in if is_wait t.state then some i else rest

unfoldable pub get_one_idle_thread : ThreadPool → Option ℕ
get_one_idle_thread tp = if tp.initialized then idle_from 0 tp.threads else none

-- `init_thread_pool` ends at the first thread whose creation does not return 0. `rets` are what the
-- creations return: -1 where `pipe` fails, and else what `pthread_create` returns.
abbrev pub init_thread_pool : List ℤ → ℤ
init_thread_pool [] = pos 0
init_thread_pool (pos zero ∷ rets) = init_thread_pool rets
init_thread_pool (pos (suc e) ∷ rets) = pos (suc e)
init_thread_pool (negsuc e ∷ rets) = negsuc e

-- The pool of as many threads as there are values, or NULL. The two flags tell whether `mp_malloc`
-- gives the pool and its array, and `threads` are what the creations leave in the array.
unfoldable pub create_thread_pool : Bool → Bool → List ℤ → List ThreadInstance → Option ThreadPool
create_thread_pool has_pool has_threads rets threads =
    if ltb 32 (length rets)
    then none
    else if not has_pool
    then none
    else if not has_threads
    then none
    else if is_neg (init_thread_pool rets)
    then none
    else some (record { initialized = true; threads = threads })

-- Thread `k`, counted from `i`, waits and none before it does, or no thread waits.
abbrev pub FirstIdle : ℕ → List ThreadInstance → Option ℕ → Type 0
FirstIdle i ts none = All (λ (t : ThreadInstance). is_wait t.state ≡ false) ts
FirstIdle i ts (some k) =
    (pre : List ThreadInstance) × (t : ThreadInstance) × (post : List ThreadInstance) × (ts
      ≡ pre ++ t ∷ post)
    × (i + length pre ≡ k)
    × (is_wait t.state ≡ true)
    × All (λ (u : ThreadInstance). is_wait u.state ≡ false) pre

FirstIdle-cons :
    (i : ℕ) (t : ThreadInstance) (ts : List ThreadInstance) (o : Option ℕ)
    → is_wait t.state ≡ false
    → FirstIdle (suc i) ts o
    → FirstIdle i (t ∷ ts) o
FirstIdle-cons i t ts none busy all = (busy, all)
FirstIdle-cons i t ts (some k) busy (pre, u, post, e, n, w, all) =
    (t ∷ pre, u, post, ap (λ us. t ∷ us) e, omega (arith, n), w, (busy, all))

idle_from-FirstIdle : (i : ℕ) (ts : List ThreadInstance) → FirstIdle i ts (idle_from i ts)
idle_from-FirstIdle i [] = tt
idle_from-FirstIdle i (t ∷ ts) =
    let it = FirstIdle-cons i t ts (idle_from (suc i) ts) in
    let rec = idle_from-FirstIdle (suc i) ts in
    elim (Bool-cases (is_wait t.state)) [
      | inl free ↦ rw free ([], t, ts, refl, omega arith, free, tt)
      | inr busy ↦ rw busy (it busy rec)
    ]

-- In a pool that is initialized, `get_one_idle_thread` gives the index of a thread that waits,
-- with no thread before it that does, and fails only if no thread waits.
pub get_one_idle_thread-FirstIdle :
    (ts : List ThreadInstance)
    → FirstIdle 0 ts (get_one_idle_thread (record { initialized = true; threads = ts }))
unfolding get_one_idle_thread
get_one_idle_thread-FirstIdle ts = idle_from-FirstIdle 0 ts

-- For at most 32 threads, if `mp_malloc` gives its memory and the first creation that does not
-- return 0 returns a positive error of `pthread_create`, `create_thread_pool` still returns the
-- pool, as initialized.
pub create_thread_pool-blind :
    (n e : ℕ) (rets : List ℤ) (threads : List ThreadInstance)
    → length (replicate n (pos 0) ++ pos (suc e) ∷ rets) < 33
    → create_thread_pool true true (replicate n (pos 0) ++ pos (suc e) ∷ rets) threads
      ≡ some (record { initialized = true; threads = threads })
unfolding create_thread_pool
create_thread_pool-blind n e rets threads lt =
    rw (le→ltb 32 (length (replicate n (pos 0) ++ pos (suc e) ∷ rets)) (omega (arith, lt)), ends n)
      refl
  where
    ends : (n : ℕ) → init_thread_pool (replicate n (pos 0) ++ pos (suc e) ∷ rets) ≡ pos (suc e)
    ends zero = refl
    ends (suc n) = ends n
