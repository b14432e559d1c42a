-- ===== src/ThreadPool/Safety.antt =====
-- What `wait_worker_thread` returns, and which functions the worker calls (src/thread_pool.c).
use sftt.Base.{some_inj, none_not, ℕ, ◌≡◌, refl, some, ◌∷◌, ◌⊎◌, inl, inr, subst}
use sftt.ThreadPool.{ThreadInstance, wait_worker_thread, IsReachable}
use sftt.ThreadPool.Config.{
  over, acked, Answered, Config, ready, claimed, arg_stored, f_stored, woken, started, is_running,
  acknowledged, f_loaded, returned, ret_stored,
}
use sftt.ThreadPool.Turns.{reachable-Config}

-- All that was launched has been called, or all but the last.
abbrev pub CalledInOrder : ThreadInstance → Type 0
CalledInOrder t = (t.called ≡ t.launched) ⊎ ((job : ℕ × ℕ) × (t.launched ≡ job ∷ t.called))

module _ (call : ℕ → ℕ → ℕ) where
  Config-CalledInOrder : (t : ThreadInstance) → Config call t → CalledInOrder t
  Config-CalledInOrder t (ready f arg ret n m jobs ans fr) = inl refl
  Config-CalledInOrder t (claimed f' arg' ret f arg jobs ans) = inl refl
  Config-CalledInOrder t (arg_stored f' ret f arg jobs ans) = inl refl
  Config-CalledInOrder t (f_stored ret f arg jobs) = inr ((f, arg), refl)
  Config-CalledInOrder t (woken ret f arg jobs) = inr ((f, arg), refl)
  Config-CalledInOrder t (started ret f arg jobs) = inr ((f, arg), refl)
  Config-CalledInOrder t (is_running ret f arg jobs) = inr ((f, arg), refl)
  Config-CalledInOrder t (acknowledged ret f arg n m jobs fr) = inr ((f, arg), refl)
  Config-CalledInOrder t (f_loaded ret f arg n m jobs fr) = inr ((f, arg), refl)
  Config-CalledInOrder t (returned ret f arg n m jobs fr) = inl refl
  Config-CalledInOrder t (ret_stored g w arg' f arg n m jobs cl fr) = inl refl

  Config-wait :
      (t : ThreadInstance) (r : ℕ)
      → Config call t
      → wait_worker_thread t ≡ some r
      → (t.called ≡ t.launched) × Answered call r t.launched
  Config-wait t r (ready f arg ret n m jobs ans over) e =
      (refl, subst (λ x. Answered call x jobs) (some_inj e) ans)
  Config-wait t r (ready f arg ret n m jobs ans acked) e = absurd (none_not e)
  Config-wait t r (claimed f' arg' ret f arg jobs ans) e = absurd (none_not e)
  Config-wait t r (arg_stored f' ret f arg jobs ans) e = absurd (none_not e)
  Config-wait t r (f_stored ret f arg jobs) e = absurd (none_not e)
  Config-wait t r (woken ret f arg jobs) e = absurd (none_not e)
  Config-wait t r (started ret f arg jobs) e = absurd (none_not e)
  Config-wait t r (is_running ret f arg jobs) e = absurd (none_not e)
  Config-wait t r (acknowledged ret f arg n m jobs over) e = absurd (none_not e)
  Config-wait t r (acknowledged ret f arg n m jobs acked) e = absurd (none_not e)
  Config-wait t r (f_loaded ret f arg n m jobs over) e = absurd (none_not e)
  Config-wait t r (f_loaded ret f arg n m jobs acked) e = absurd (none_not e)
  Config-wait t r (returned ret f arg n m jobs over) e = absurd (none_not e)
  Config-wait t r (returned ret f arg n m jobs acked) e = absurd (none_not e)
  Config-wait t r (ret_stored g w arg' f arg n m jobs cl over) e = absurd (none_not e)
  Config-wait t r (ret_stored g w arg' f arg n m jobs cl acked) e = absurd (none_not e)

-- Whatever the order in which the two threads take their turns, the worker calls exactly the
-- functions that were launched, each with its argument, once and in the order of the launches: at
-- any time it has called all of them or all but the last.
pub called-launched : (call : ℕ → ℕ → ℕ) (t : ThreadInstance) → IsReachable call t → CalledInOrder t
called-launched call t r = Config-CalledInOrder call t (reachable-Config call t r)

-- Whatever the order of the turns, when `wait_worker_thread` returns, every launched function has
-- been called, and the value is what the last of them returned, if any was launched.
pub wait_worker_thread-Answered :
    (call : ℕ → ℕ → ℕ) (t : ThreadInstance) (r : ℕ)
    → IsReachable call t
    → wait_worker_thread t ≡ some r
    → (t.called ≡ t.launched) × Answered call r t.launched
wait_worker_thread-Answered call t r reach e =
    Config-wait call t r (reachable-Config call t reach) e
