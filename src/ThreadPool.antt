-- ===== src/ThreadPool.antt =====
-- src/thread_pool.c: one worker thread and the thread that launches functions on it, as two
-- programs that take turns on the fields of a `struct thread_instance`. A turn is one access to a
-- field or a pipe. The pipes are the numbers of bytes in them; a function and its argument are
-- numbers, NULL is 0, and `call` is what a function returns for an argument. One thread launches.
pub mod Config
pub mod Turns
pub mod Safety
pub mod Settling
pub mod Pool
use sftt.Base.{
  ℕ, zero, suc, ◌+◌, ◌-◌, ◌≡◌, Bool, true, false, Option, none, some, List, [], ◌∷◌, ◌==◌,
  if◌then◌else◌, ◌⊎◌,
}
use sftt.Base.Int.{ℤ, pos, negsuc}

-- `enum thread_state_t`
pub data ThreadState : Type 0 where
  wait : ThreadState
  running : ThreadState
  finished : ThreadState

-- Where the worker stands in `worker_thread_loop`.
pub data Worker : Type 0 where
  reading : Worker
  starting : Worker
  acking : Worker
  loading : Worker
  calling : (f : ℕ) → Worker
  returning : (ret : ℕ) → Worker
  clearing_f : Worker
  clearing_arg : Worker
  finishing : Worker

-- Where the launching thread stands in `launch_one_thread` and `main_turn`.
pub data Main : Type 0 where
  idle : Main
  storing_arg : (f arg : ℕ) → Main
  storing_f : (f arg : ℕ) → Main
  waking : Main
  awaiting_ack : Main

-- The fields of `struct thread_instance`, the bytes in its two pipes, the two threads, and, for
-- the statements only, the functions launched and those called with their arguments, the last first.
pub record ThreadInstance : Type 0 where
  pub state : ThreadState
  pub f : Option ℕ
  pub arg : ℕ
  pub ret : ℕ
  pub main2worker : ℕ
  pub worker2main : ℕ
  pub worker : Worker
  pub main : Main
  pub launched : List (ℕ × ℕ)
  pub called : List (ℕ × ℕ)

-- The load of `f`: the worker sleeps while it is NULL.
abbrev pub load_f : ThreadInstance → Option ℕ → ThreadInstance
load_f t none = t
load_f t (some f) = record t { worker = calling f }

-- None while there is no byte to read.
abbrev pub worker_thread_wait_command : ThreadInstance → Option ThreadInstance
worker_thread_wait_command t =
    if t.main2worker == 0
    then none
    else some (record t { main2worker = t.main2worker - 1; worker = starting })

abbrev pub worker_thread_ack_command : ThreadInstance → ThreadInstance
worker_thread_ack_command t = record t { worker2main = t.worker2main + 1; worker = loading }

module _ (call : ℕ → ℕ → ℕ) where
  -- One turn of the worker; none while it is blocked on its pipe.
  abbrev pub worker_at : Worker → ThreadInstance → Option ThreadInstance
  worker_at reading t = worker_thread_wait_command t
  worker_at starting t = some (record t { state = running; worker = acking })
  worker_at acking t = some (worker_thread_ack_command t)
  worker_at loading t = some (load_f t t.f)
  worker_at (calling f) t =
      some (record t { worker = returning (call f t.arg); called = (f, t.arg) ∷ t.called })
  worker_at (returning r) t = some (record t { ret = r; worker = clearing_f })
  worker_at clearing_f t = some (record t { f = none; worker = clearing_arg })
  worker_at clearing_arg t = some (record t { arg = 0; worker = finishing })
  worker_at finishing t = some (record t { state = wait; worker = reading })

  abbrev pub worker_thread_loop : ThreadInstance → Option ThreadInstance
  worker_thread_loop t = worker_at t.worker t

-- The test that `launch_one_thread` begins with: -EBUSY, with nothing done, unless the state is
-- WAIT.
abbrev pub claim_worker : ThreadState → ℕ → ℕ → ThreadInstance → ThreadInstance
claim_worker wait f arg t = record t { main = storing_arg f arg }
claim_worker running f arg t = t
claim_worker finished f arg t = t

abbrev pub launch_at : Main → ℕ → ℕ → ThreadInstance → Option ThreadInstance
launch_at idle f arg t = some (claim_worker t.state f arg t)
launch_at other f arg t = none

-- A call of `launch_one_thread`, by the thread when it has no other under way.
abbrev pub launch_one_thread : ℕ → ℕ → ThreadInstance → Option ThreadInstance
launch_one_thread f arg t = launch_at t.main f arg t

-- The write to the pipe, and the read of the answer; none while there is no answer.
abbrev pub wake_worker_thread : Main → ThreadInstance → Option ThreadInstance
wake_worker_thread waking t =
    some (record t { main2worker = t.main2worker + 1; main = awaiting_ack })
wake_worker_thread awaiting_ack t =
    if t.worker2main == 0
    then none
    else some (record t { worker2main = t.worker2main - 1; main = idle })
wake_worker_thread other t = none

-- One turn of the call; none when it is over, or is blocked on the pipe.
abbrev pub main_at : Main → ThreadInstance → Option ThreadInstance
main_at (storing_arg f arg) t = some (record t { arg = arg; main = storing_f f arg })
main_at (storing_f f arg) t =
    some (record t { f = some f; main = waking; launched = (f, arg) ∷ t.launched })
main_at other t = wake_worker_thread other t

abbrev pub main_turn : ThreadInstance → Option ThreadInstance
main_turn t = main_at t.main t

abbrev pub wait_at : Main → ThreadState → ℕ → Option ℕ
wait_at idle wait r = some r
wait_at other state r = none

-- What `wait_worker_thread` returns once it stops sleeping.
abbrev pub wait_worker_thread : ThreadInstance → Option ℕ
wait_worker_thread t = wait_at t.main t.state t.ret

-- `create_worker_thread` leaves a thread that waits, with nothing in its pipes; the other fields
-- hold what the memory held.
abbrev pub create_worker_thread : Option ℕ → ℕ → ℕ → ThreadInstance
create_worker_thread f arg ret = record {
  state = wait;
  f = f;
  arg = arg;
  ret = ret;
  main2worker = 0;
  worker2main = 0;
  worker = reading;
  main = idle;
  launched = [];
  called = [];
}

-- What the threads come to, in any order of their turns.
pub data IsReachable (call : ℕ → ℕ → ℕ) : ThreadInstance → Type 0 where
  created : (f : Option ℕ) (arg ret : ℕ) → IsReachable call (create_worker_thread f arg ret)
  works :
      (t u : ThreadInstance)
      → IsReachable call t
      → worker_thread_loop call t ≡ some u
      → IsReachable call u
  launches :
      (t u : ThreadInstance) (f arg : ℕ)
      → IsReachable call t
      → launch_one_thread f arg t ≡ some u
      → IsReachable call u
  goes_on : (t u : ThreadInstance) → IsReachable call t → main_turn t ≡ some u → IsReachable call u
