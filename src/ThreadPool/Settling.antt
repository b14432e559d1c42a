-- ===== src/ThreadPool/Settling.antt =====
-- A launch that is under way comes to its end (src/thread_pool.c).
use sftt.Base.{ℕ, zero, suc, ◌≤◌, ◌≡◌, refl, some, ◌⊎◌, inl, inr, arith}
use sftt.ThreadPool.{ThreadInstance, worker_thread_loop, wait_worker_thread, main_turn, IsReachable}
use sftt.ThreadPool.Config.{
  over, acked, at_f, at_arg, at_state, Config, ready, claimed, arg_stored, f_stored, woken, started,
  is_running, acknowledged, f_loaded, returned, ret_stored,
}
use sftt.ThreadPool.Turns.{turns, Onward, reachable-Config, works-Onward, goes_on-Onward}

-- `wait_worker_thread` would return, and all that was launched has been called.
abbrev pub Rests : ThreadInstance → Type 0
Rests t = ((r : ℕ) × (wait_worker_thread t ≡ some r)) × (t.called ≡ t.launched)

-- A turn of either thread.
pub data Turn (call : ℕ → ℕ → ℕ) (t u : ThreadInstance) : Type 0 where
  of_worker : worker_thread_loop call t ≡ some u → Turn call t u
  of_main : main_turn t ≡ some u → Turn call t u

-- In whatever order the turns come, at least one thread is not blocked until both rest, and they
-- rest after at most `n` turns.
abbrev pub Settles : (ℕ → ℕ → ℕ) → ℕ → ThreadInstance → Type 0
Settles call zero t = Rests t
Settles call (suc n) t =
    Rests t
    ⊎ (((u : ThreadInstance) × Turn call t u)
        × ((u : ThreadInstance) → Turn call t u → Settles call n u))

module _ (call : ℕ → ℕ → ℕ) where
  -- A thread is not blocked, or both rest.
  Config-enabled :
      (t : ThreadInstance)
      → Config call t
      → (Rests t × (turns t ≡ 0)) ⊎ ((u : ThreadInstance) × Turn call t u)
  Config-enabled t (ready f arg ret n m jobs ans over) = inl (((ret, refl), refl), refl)
  Config-enabled t (ready f arg ret n m jobs ans acked) = inr (_, of_main refl)
  Config-enabled t (claimed f' arg' ret f arg jobs ans) = inr (_, of_main refl)
  Config-enabled t (arg_stored f' ret f arg jobs ans) = inr (_, of_main refl)
  Config-enabled t (f_stored ret f arg jobs) = inr (_, of_main refl)
  Config-enabled t (woken ret f arg jobs) = inr (_, of_worker refl)
  Config-enabled t (started ret f arg jobs) = inr (_, of_worker refl)
  Config-enabled t (is_running ret f arg jobs) = inr (_, of_worker refl)
  Config-enabled t (acknowledged ret f arg n m jobs fr) = inr (_, of_worker refl)
  Config-enabled t (f_loaded ret f arg n m jobs fr) = inr (_, of_worker refl)
  Config-enabled t (returned ret f arg n m jobs fr) = inr (_, of_worker refl)
  Config-enabled t (ret_stored g w arg' f arg n m jobs at_f fr) = inr (_, of_worker refl)
  Config-enabled t (ret_stored g w arg' f arg n m jobs at_arg fr) = inr (_, of_worker refl)
  Config-enabled t (ret_stored g w arg' f arg n m jobs at_state fr) = inr (_, of_worker refl)

  Turn-Onward : (t u : ThreadInstance) → Config call t → Turn call t u → Onward call t u
  Turn-Onward t u c (of_worker e) = works-Onward call t u c e
  Turn-Onward t u c (of_main e) = goes_on-Onward call t u c e

  settle : (n : ℕ) (t : ThreadInstance) → Config call t → turns t ≤ n → Settles call n t
  settle zero t c le = elim (Config-enabled t c) [
    | inl (rests, z) ↦ rests
    | inr (u, turn) ↦ let (c', lt) = Turn-Onward t u c turn in absurd (omega (arith, le, lt))
  ]
  settle (suc n) t c le = elim (Config-enabled t c) [
    | inl (rests, z) ↦ inl rests
    | inr some_turn ↦ inr (
      some_turn,
      λ u turn. let (c', lt) = Turn-Onward t u c turn in settle n u c' (omega (arith, le, lt)),
    )
  ]

  turns_bound : (t : ThreadInstance) → Config call t → turns t ≤ 13
  turns_bound t (ready f arg ret n m jobs ans over) = omega arith
  turns_bound t (ready f arg ret n m jobs ans acked) = omega arith
  turns_bound t (claimed f' arg' ret f arg jobs ans) = omega arith
  turns_bound t (arg_stored f' ret f arg jobs ans) = omega arith
  turns_bound t (f_stored ret f arg jobs) = omega arith
  turns_bound t (woken ret f arg jobs) = omega arith
  turns_bound t (started ret f arg jobs) = omega arith
  turns_bound t (is_running ret f arg jobs) = omega arith
  turns_bound t (acknowledged ret f arg n m jobs over) = omega arith
  turns_bound t (acknowledged ret f arg n m jobs acked) = omega arith
  turns_bound t (f_loaded ret f arg n m jobs over) = omega arith
  turns_bound t (f_loaded ret f arg n m jobs acked) = omega arith
  turns_bound t (returned ret f arg n m jobs over) = omega arith
  turns_bound t (returned ret f arg n m jobs acked) = omega arith
  turns_bound t (ret_stored g w arg' f arg n m jobs at_f over) = omega arith
  turns_bound t (ret_stored g w arg' f arg n m jobs at_f acked) = omega arith
  turns_bound t (ret_stored g w arg' f arg n m jobs at_arg over) = omega arith
  turns_bound t (ret_stored g w arg' f arg n m jobs at_arg acked) = omega arith
  turns_bound t (ret_stored g w arg' f arg n m jobs at_state over) = omega arith
  turns_bound t (ret_stored g w arg' f arg n m jobs at_state acked) = omega arith

-- From any state that the threads can reach, and in whatever order they take their turns, as long
-- as nothing else is launched: at least one of them is not blocked until the launch is over, the
-- function called and the worker waiting again, which is after at most 13 turns.
pub settles : (call : ℕ → ℕ → ℕ) (t : ThreadInstance) → IsReachable call t → Settles call 13 t
settles call t r = let c = reachable-Config call t r in settle call 13 t c (turns_bound call t c)
