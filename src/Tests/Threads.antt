-- ===== src/Tests/Threads.antt =====
-- A worker on which the function 7 is launched with the argument 3.
use sftt.Base.{ℕ, ◌+◌, ◌≡◌, refl, true, Option, none, some, [], ◌∷◌, arith}
use sftt.Base.Int.{pos}
use sftt.ThreadPool.{
  ThreadInstance, worker_thread_loop, launch_one_thread, main_turn, wait_worker_thread,
  create_worker_thread, IsReachable, created, works, launches, goes_on,
}
use sftt.ThreadPool.Config.{Answered}
use sftt.ThreadPool.Safety.{wait_worker_thread-Answered}
use sftt.ThreadPool.Settling.{Settles, settles}
use sftt.ThreadPool.Pool.{create_thread_pool, create_thread_pool-blind}

abbrev add : ℕ → ℕ → ℕ
add f a = f + a

abbrev after : Option ThreadInstance → ThreadInstance
after none = create_worker_thread none 0 0
after (some t) = t

abbrev state_0 : ThreadInstance
state_0 = create_worker_thread none 0 0

reach_0 : IsReachable add state_0
reach_0 = created none 0 0

abbrev state_1 : ThreadInstance
state_1 = after (launch_one_thread 7 3 state_0)

reach_1 : IsReachable add state_1
reach_1 = launches state_0 state_1 7 3 reach_0 refl

abbrev state_2 : ThreadInstance
state_2 = after (main_turn state_1)

reach_2 : IsReachable add state_2
reach_2 = goes_on state_1 state_2 reach_1 refl

abbrev state_3 : ThreadInstance
state_3 = after (main_turn state_2)

reach_3 : IsReachable add state_3
reach_3 = goes_on state_2 state_3 reach_2 refl

abbrev state_4 : ThreadInstance
state_4 = after (main_turn state_3)

reach_4 : IsReachable add state_4
reach_4 = goes_on state_3 state_4 reach_3 refl

abbrev state_5 : ThreadInstance
state_5 = after (worker_thread_loop add state_4)

reach_5 : IsReachable add state_5
reach_5 = works state_4 state_5 reach_4 refl

abbrev state_6 : ThreadInstance
state_6 = after (worker_thread_loop add state_5)

reach_6 : IsReachable add state_6
reach_6 = works state_5 state_6 reach_5 refl

abbrev state_7 : ThreadInstance
state_7 = after (worker_thread_loop add state_6)

reach_7 : IsReachable add state_7
reach_7 = works state_6 state_7 reach_6 refl

abbrev state_8 : ThreadInstance
state_8 = after (main_turn state_7)

reach_8 : IsReachable add state_8
reach_8 = goes_on state_7 state_8 reach_7 refl

abbrev state_9 : ThreadInstance
state_9 = after (worker_thread_loop add state_8)

reach_9 : IsReachable add state_9
reach_9 = works state_8 state_9 reach_8 refl

abbrev state_10 : ThreadInstance
state_10 = after (worker_thread_loop add state_9)

reach_10 : IsReachable add state_10
reach_10 = works state_9 state_10 reach_9 refl

abbrev state_11 : ThreadInstance
state_11 = after (worker_thread_loop add state_10)

reach_11 : IsReachable add state_11
reach_11 = works state_10 state_11 reach_10 refl

abbrev state_12 : ThreadInstance
state_12 = after (worker_thread_loop add state_11)

reach_12 : IsReachable add state_12
reach_12 = works state_11 state_12 reach_11 refl

abbrev state_13 : ThreadInstance
state_13 = after (worker_thread_loop add state_12)

reach_13 : IsReachable add state_13
reach_13 = works state_12 state_13 reach_12 refl

abbrev state_14 : ThreadInstance
state_14 = after (worker_thread_loop add state_13)

reach_14 : IsReachable add state_14
reach_14 = works state_13 state_14 reach_13 refl

-- All turns are taken, and 7 + 3 is there.
result : wait_worker_thread state_14 ≡ some 10
result = refl

wait_worker_thread-Answered_example :
    (state_14.called ≡ state_14.launched) × Answered add 10 state_14.launched
wait_worker_thread-Answered_example = wait_worker_thread-Answered add state_14 10 reach_14 result

settles_example : Settles add 13 state_5
settles_example = settles add state_5 reach_5

create_thread_pool-blind_example :
    create_thread_pool true true (pos 0 ∷ pos 11 ∷ []) (state_0 ∷ state_0 ∷ [])
    ≡ some (record { initialized = true; threads = state_0 ∷ state_0 ∷ [] })
create_thread_pool-blind_example =
    create_thread_pool-blind 1 10 [] (state_0 ∷ state_0 ∷ []) (omega arith)
