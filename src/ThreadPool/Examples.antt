-- ===== src/ThreadPool/Examples.antt =====
-- The thread pool of include/ashe/thread_pool.h with one worker, a task and the destructor.
use ashe.Base.{ℕ, ◌<◌, ◌≡◌, refl, arith}
use ashe.ThreadPool.{
  tally, create, enqueue, stop_pool, World, begin, put, notify_all, Move, puts, stops, tells, Reach,
  begins, after,
}
use ashe.ThreadPool.Served.{count, is_left, IsServed, Reach-IsServed}
use ashe.ThreadPool.Ends.{to_do, Moves, stopping-ends}

abbrev with_task : World
with_task = put 5 (begin 1)

abbrev stopped : World
stopped = record with_task { pool = stop_pool with_task.pool }

abbrev told_all : World
told_all = notify_all stopped

told_all-Reach : Reach 1 told_all
unfolding begin put enqueue create stop_pool
told_all-Reach =
    after stopped told_all
      (after with_task stopped (after (begin 1) with_task begins (puts (begin 1) 5))
        (stops with_task))
      (tells stopped refl)

Reach-IsServed_example : IsServed told_all
Reach-IsServed_example = Reach-IsServed 1 told_all told_all-Reach

stopping-ends_example :
    ((u : World) → Move told_all u → to_do u < to_do told_all)
    × ((u : World) × Moves told_all u
        × (tally is_left u.workers ≡ 1)
        × (u.fetches ≡ told_all.accepted)
        × ((t : ℕ) → count t u.started ≡ count t told_all.accepted)
        × Reach 1 u)
unfolding notify_all
stopping-ends_example = stopping-ends 1 told_all (omega arith) told_all-Reach refl
