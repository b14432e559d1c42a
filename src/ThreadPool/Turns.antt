-- ===== src/ThreadPool/Turns.antt =====
-- A turn leads from a configuration to another, with fewer turns left (src/thread_pool.c).
use sftt.Base.{some_inj, none_not, ℕ, ◌+◌, ◌*◌, ◌<◌, ◌≡◌, refl, none, some, [], ◌∷◌, arith, subst}
use sftt.ThreadPool.{
  Worker, reading, starting, acking, loading, calling, returning, clearing_f, clearing_arg,
  finishing, Main, idle, storing_arg, storing_f, waking, awaiting_ack, ThreadInstance,
  worker_thread_loop, launch_one_thread, main_turn, IsReachable, created, works, launches, goes_on,
}
use sftt.ThreadPool.Config.{
  over, acked, at_f, at_arg, at_state, Config, ready, claimed, arg_stored, f_stored, woken, started,
  is_running, acknowledged, f_loaded, returned, ret_stored,
}

-- How many turns a thread has at most until it rests. A launch that has not woken the worker yet
-- has the worker's nine turns before it.
abbrev pub main_turns : Main → ℕ
main_turns idle = 0
main_turns (storing_arg f arg) = 13
main_turns (storing_f f arg) = 12
main_turns waking = 11
main_turns awaiting_ack = 1

abbrev pub worker_turns : Worker → ℕ
worker_turns reading = 0
worker_turns starting = 8
worker_turns acking = 7
worker_turns loading = 6
worker_turns (calling f) = 5
worker_turns (returning r) = 4
worker_turns clearing_f = 3
worker_turns clearing_arg = 2
worker_turns finishing = 1

abbrev pub turns : ThreadInstance → ℕ
turns t = main_turns t.main + (worker_turns t.worker + 9 * t.main2worker)

-- A turn leads to a configuration with fewer turns left.
abbrev pub Onward : (ℕ → ℕ → ℕ) → ThreadInstance → ThreadInstance → Type 0
Onward call t u = Config call u × (turns u < turns t)

module _ (call : ℕ → ℕ → ℕ) where
  onward :
      (t u v : ThreadInstance)
      → some v ≡ some u
      → Config call v
      → turns v < turns t
      → Onward call t u
  onward t u v e c lt = subst (λ w. Onward call t w) (some_inj e) (c, lt)

  pub works-Onward :
      (t u : ThreadInstance) → Config call t → worker_thread_loop call t ≡ some u → Onward call t u
  works-Onward t u (ready f arg ret n m jobs ans fr) e = absurd (none_not e)
  works-Onward t u (claimed f' arg' ret f arg jobs ans) e = absurd (none_not e)
  works-Onward t u (arg_stored f' ret f arg jobs ans) e = absurd (none_not e)
  works-Onward t u (f_stored ret f arg jobs) e = absurd (none_not e)
  works-Onward t u (woken ret f arg jobs) e = onward t u _ e (started ret f arg jobs) (omega arith)
  works-Onward t u (started ret f arg jobs) e =
      onward t u _ e (is_running ret f arg jobs) (omega arith)
  works-Onward t u (is_running ret f arg jobs) e =
      onward t u _ e (acknowledged ret f arg 1 awaiting_ack jobs acked) (omega arith)
  works-Onward t u (acknowledged ret f arg n m jobs fr) e =
      onward t u _ e (f_loaded ret f arg n m jobs fr) (omega arith)
  works-Onward t u (f_loaded ret f arg n m jobs fr) e =
      onward t u _ e (returned ret f arg n m jobs fr) (omega arith)
  works-Onward t u (returned ret f arg n m jobs fr) e =
      onward t u _ e (ret_stored (some f) clearing_f arg f arg n m jobs at_f fr) (omega arith)
  works-Onward t u (ret_stored g w arg' f arg n m jobs at_f fr) e =
      onward t u _ e (ret_stored none clearing_arg arg' f arg n m jobs at_arg fr) (omega arith)
  works-Onward t u (ret_stored g w arg' f arg n m jobs at_arg fr) e =
      onward t u _ e (ret_stored g finishing 0 f arg n m jobs at_state fr) (omega arith)
  works-Onward t u (ret_stored g w arg' f arg n m jobs at_state fr) e =
      onward t u _ e (ready g arg' (call f arg) n m ((f, arg) ∷ jobs) refl fr) (omega arith)

  pub goes_on-Onward :
      (t u : ThreadInstance) → Config call t → main_turn t ≡ some u → Onward call t u
  goes_on-Onward t u (ready f arg ret n m jobs ans over) e = absurd (none_not e)
  goes_on-Onward t u (ready f arg ret n m jobs ans acked) e =
      onward t u _ e (ready f arg ret 0 idle jobs ans over) (omega arith)
  goes_on-Onward t u (claimed f' arg' ret f arg jobs ans) e =
      onward t u _ e (arg_stored f' ret f arg jobs ans) (omega arith)
  goes_on-Onward t u (arg_stored f' ret f arg jobs ans) e =
      onward t u _ e (f_stored ret f arg jobs) (omega arith)
  goes_on-Onward t u (f_stored ret f arg jobs) e =
      onward t u _ e (woken ret f arg jobs) (omega arith)
  goes_on-Onward t u (woken ret f arg jobs) e = absurd (none_not e)
  goes_on-Onward t u (started ret f arg jobs) e = absurd (none_not e)
  goes_on-Onward t u (is_running ret f arg jobs) e = absurd (none_not e)
  goes_on-Onward t u (acknowledged ret f arg n m jobs over) e = absurd (none_not e)
  goes_on-Onward t u (acknowledged ret f arg n m jobs acked) e =
      onward t u _ e (acknowledged ret f arg 0 idle jobs over) (omega arith)
  goes_on-Onward t u (f_loaded ret f arg n m jobs over) e = absurd (none_not e)
  goes_on-Onward t u (f_loaded ret f arg n m jobs acked) e =
      onward t u _ e (f_loaded ret f arg 0 idle jobs over) (omega arith)
  goes_on-Onward t u (returned ret f arg n m jobs over) e = absurd (none_not e)
  goes_on-Onward t u (returned ret f arg n m jobs acked) e =
      onward t u _ e (returned ret f arg 0 idle jobs over) (omega arith)
  goes_on-Onward t u (ret_stored g w arg' f arg n m jobs cl over) e = absurd (none_not e)
  goes_on-Onward t u (ret_stored g w arg' f arg n m jobs cl acked) e =
      onward t u _ e (ret_stored g w arg' f arg 0 idle jobs cl over) (omega arith)

  pub launches-Config :
      (t u : ThreadInstance) (f arg : ℕ)
      → Config call t
      → launch_one_thread f arg t ≡ some u
      → Config call u
  launches-Config t u f arg (ready f' arg' ret n m jobs ans over) e =
      subst (Config call) (some_inj e) (claimed f' arg' ret f arg jobs ans)
  launches-Config t u f arg (ready f' arg' ret n m jobs ans acked) e = absurd (none_not e)
  launches-Config t u f arg (claimed f' arg' ret g b jobs ans) e = absurd (none_not e)
  launches-Config t u f arg (arg_stored f' ret g b jobs ans) e = absurd (none_not e)
  launches-Config t u f arg (f_stored ret g b jobs) e = absurd (none_not e)
  launches-Config t u f arg (woken ret g b jobs) e = absurd (none_not e)
  launches-Config t u f arg (started ret g b jobs) e = absurd (none_not e)
  launches-Config t u f arg (is_running ret g b jobs) e = absurd (none_not e)
  launches-Config t u f arg (acknowledged ret g b n m jobs over) e =
      subst (Config call) (some_inj e) (acknowledged ret g b 0 idle jobs over)
  launches-Config t u f arg (acknowledged ret g b n m jobs acked) e = absurd (none_not e)
  launches-Config t u f arg (f_loaded ret g b n m jobs over) e =
      subst (Config call) (some_inj e) (f_loaded ret g b 0 idle jobs over)
  launches-Config t u f arg (f_loaded ret g b n m jobs acked) e = absurd (none_not e)
  launches-Config t u f arg (returned ret g b n m jobs over) e =
      subst (Config call) (some_inj e) (returned ret g b 0 idle jobs over)
  launches-Config t u f arg (returned ret g b n m jobs acked) e = absurd (none_not e)
  launches-Config t u f arg (ret_stored f' w arg' g b n m jobs cl over) e =
      subst (Config call) (some_inj e) (ret_stored f' w arg' g b 0 idle jobs cl over)
  launches-Config t u f arg (ret_stored f' w arg' g b n m jobs cl acked) e = absurd (none_not e)

  -- Every reachable state is one of the configurations.
  pub reachable-Config : (t : ThreadInstance) → IsReachable call t → Config call t
  reachable-Config v (created f arg ret) = ready f arg ret 0 idle [] tt over
  reachable-Config v (works t u r e) = (works-Onward t u (reachable-Config t r) e).0
  reachable-Config v (launches t u f arg r e) = launches-Config t u f arg (reachable-Config t r) e
  reachable-Config v (goes_on t u r e) = (goes_on-Onward t u (reachable-Config t r) e).0
