-- ===== src/ThreadPool/Config.antt =====
-- The configurations that the two threads of src/thread_pool.c can be in.
use sftt.Base.{ℕ, ◌≡◌, Option, some, List, [], ◌∷◌}
use sftt.ThreadPool.{
  ThreadState, wait, running, Worker, reading, starting, acking, loading, calling, returning,
  clearing_f, clearing_arg, finishing, Main, idle, storing_arg, storing_f, waking, awaiting_ack,
  ThreadInstance,
}

abbrev pub conf :
    ThreadState
    → Option ℕ
    → ℕ
    → ℕ
    → ℕ
    → ℕ
    → Worker
    → Main
    → List (ℕ × ℕ)
    → List (ℕ × ℕ)
    → ThreadInstance
conf state f arg ret m2w w2m worker main launched called = record {
  state = state;
  f = f;
  arg = arg;
  ret = ret;
  main2worker = m2w;
  worker2main = w2m;
  worker = worker;
  main = main;
  launched = launched;
  called = called;
}

-- Once the worker has acknowledged, the launch is over when its byte is read.
pub data Front : Main → ℕ → Type 0 where
  over : Front idle 0
  acked : Front awaiting_ack 1

-- The field `ret` holds what the last function called has returned, if there was one.
abbrev pub Answered : (ℕ → ℕ → ℕ) → ℕ → List (ℕ × ℕ) → Type 0
Answered call ret [] = Unit {0}
Answered call ret ((f, a) ∷ jobs) = ret ≡ call f a

-- Where the worker gives the fields back.
pub data Clearing : Worker → Type 0 where
  at_f : Clearing clearing_f
  at_arg : Clearing clearing_arg
  at_state : Clearing finishing

pub data Config (call : ℕ → ℕ → ℕ) : ThreadInstance → Type 0 where
  ready :
      (f : Option ℕ) (arg ret n : ℕ) (m : Main) (jobs : List (ℕ × ℕ))
      → Answered call ret jobs
      → Front m n
      → Config call (conf wait f arg ret 0 n reading m jobs jobs)
  claimed :
      (f' : Option ℕ) (arg' ret f arg : ℕ) (jobs : List (ℕ × ℕ))
      → Answered call ret jobs
      → Config call (conf wait f' arg' ret 0 0 reading (storing_arg f arg) jobs jobs)
  arg_stored :
      (f' : Option ℕ) (ret f arg : ℕ) (jobs : List (ℕ × ℕ))
      → Answered call ret jobs
      → Config call (conf wait f' arg ret 0 0 reading (storing_f f arg) jobs jobs)
  f_stored :
      (ret f arg : ℕ) (jobs : List (ℕ × ℕ))
      → Config call (conf wait (some f) arg ret 0 0 reading waking ((f, arg) ∷ jobs) jobs)
  woken :
      (ret f arg : ℕ) (jobs : List (ℕ × ℕ))
      → Config call (conf wait (some f) arg ret 1 0 reading awaiting_ack ((f, arg) ∷ jobs) jobs)
  started :
      (ret f arg : ℕ) (jobs : List (ℕ × ℕ))
      → Config call (conf wait (some f) arg ret 0 0 starting awaiting_ack ((f, arg) ∷ jobs) jobs)
  is_running :
      (ret f arg : ℕ) (jobs : List (ℕ × ℕ))
      → Config call (conf running (some f) arg ret 0 0 acking awaiting_ack ((f, arg) ∷ jobs) jobs)
  acknowledged :
      (ret f arg n : ℕ) (m : Main) (jobs : List (ℕ × ℕ))
      → Front m n
      → Config call (conf running (some f) arg ret 0 n loading m ((f, arg) ∷ jobs) jobs)
  f_loaded :
      (ret f arg n : ℕ) (m : Main) (jobs : List (ℕ × ℕ))
      → Front m n
      → Config call (conf running (some f) arg ret 0 n (calling f) m ((f, arg) ∷ jobs) jobs)
  returned :
      (ret f arg n : ℕ) (m : Main) (jobs : List (ℕ × ℕ))
      → Front m n
      → Config call (
          conf running
            (some f)
            arg
            ret
            0
            n
            (returning (call f arg))
            m
            ((f, arg) ∷ jobs)
            ((f, arg) ∷ jobs))
  ret_stored :
      (g : Option ℕ) (w : Worker) (arg' f arg n : ℕ) (m : Main) (jobs : List (ℕ × ℕ))
      → Clearing w
      → Front m n
      → Config call (conf running g arg' (call f arg) 0 n w m ((f, arg) ∷ jobs) ((f, arg) ∷ jobs))
