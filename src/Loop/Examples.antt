-- ===== src/Loop/Examples.antt =====
-- A concrete run of a message loop, on which the theorems about src/message_loop apply.
use ashe.Base.{
  ℕ, zero, suc, ◌+◌, ◌<◌, ◌≡◌, refl, true, false, ◌⊎◌, List, [], ◌∷◌, ◌++◌, ◌==◌, not, inr, length,
  if◌then◌else◌, arith,
}
use ashe.Loop.{
  PendingTask, reload_work_queue, is_empty, create_loop, add_to_incoming_queue, top_time,
  do_delayed_work,
}
use ashe.Loop.Delayed.{due_work_of, forget_time, do_delayed_work-due}
use ashe.Loop.Destroy.{destroy_loop, destroy, all_posts, prompt_ones, with_delayed, destroy-clears}
use ashe.Loop.Pump.{
  reloading, World, create, sleeping, post, schedule_work, advance, advanced, posted, scheduled,
  Reach, here, more,
}
use ashe.Loop.Pump.Wakeup.{Reach-sleeping, sleeping-leaves}
use ashe.Loop.Pump.Places.{Pick, count, waiting, Reach-waiting}
use ashe.Loop.Pump.Fifo.{prompts, Reach-prompts}
use ashe.Loop.Pump.Delays.{IsOrdered, Reach-IsOrdered}

abbrev steps : ℕ → World → World
steps zero w = w
steps (suc n) w = steps n (advance 7 w)

Reach-steps : (n : ℕ) {w : World} → Reach create w → Reach create (steps n w)
Reach-steps zero r = r
Reach-steps (suc n) r = Reach-steps n (more r (advanced 7))

-- A task is posted, then one with a delay of 50, then one that must not be nested; then the pump
-- is told.
abbrev three_posted : World
three_posted = schedule_work (post 3 7 0 false (post 2 7 50 true (post 1 7 0 true create)))

three_posted-Reach : Reach create three_posted
unfolding create post add_to_incoming_queue create_loop
three_posted-Reach =
    more (more (more (more here (posted 1 7 0 true)) (posted 2 7 50 true)) (posted 3 7 0 false))
      (scheduled (omega arith))

abbrev asleep : World
asleep = steps 30 three_posted

asleep-Reach : Reach create asleep
asleep-Reach = Reach-steps 30 three_posted-Reach

asleep-sleeping : asleep.phase ≡ sleeping
unfolding advance create post schedule_work
asleep-sleeping = refl

three_ran : count (λ c d n. not n) asleep.ran ≡ 1
unfolding advance create post schedule_work
three_ran = refl

Reach-sleeping_example :
    (asleep.loop.work_queue ≡ [])
    × (asleep.loop.deferred_queue ≡ [])
    × ((asleep.loop.incoming_queue ≡ []) ⊎ ((asleep.pump.have_work ≡ true) ⊎ (0 < asleep.owed)))
    × (asleep.pump.delayed_work_time ≡ top_time asleep.loop.delayed_work_queue 0)
Reach-sleeping_example = Reach-sleeping asleep-Reach asleep-sleeping

-- The tasks with callback 2.
abbrev second : Pick
second c d n = c == 2

Reach-waiting_example :
    waiting second asleep.loop + count second asleep.ran ≡ count second asleep.posted
Reach-waiting_example = Reach-waiting second asleep-Reach

Reach-prompts_example :
    (prompts asleep.ran ++ (prompts asleep.loop.work_queue ++ prompts asleep.loop.incoming_queue)
      ≡ prompts asleep.posted)
    × (prompts asleep.loop.delayed_work_queue ≡ [])
    × (prompts asleep.loop.deferred_queue ≡ [])
Reach-prompts_example = Reach-prompts asleep-Reach

three_were_posted : length asleep.posted ≡ 3
unfolding advance create post schedule_work
three_were_posted = refl

Reach-IsOrdered_example : IsOrdered asleep.loop.delayed_work_queue
Reach-IsOrdered_example = Reach-IsOrdered asleep-Reach (omega (arith, three_were_posted))

do_delayed_work-due_example :
    forget_time (do_delayed_work 60 57 asleep.loop)
    ≡ forget_time (due_work_of 60 57 asleep.loop.delayed_work_queue asleep.loop)
unfolding advance create post schedule_work
do_delayed_work-due_example = do_delayed_work-due 60 57 asleep.loop refl (omega arith)

-- The deletion of the task with callback 2 posts one more.
abbrev posts_again : PendingTask → List PendingTask
posts_again t =
    if t.callback == 2
    then record { callback = 9; sequence_num = 0; delayed_run_time = 0; nestable = true } ∷ []
    else []

destroy-clears_example :
    let r = destroy posts_again asleep.loop in
    let m = reload_work_queue asleep.loop in
    (r ≡ destroy_loop posts_again 1 false asleep.loop)
    × (r.1 ≡ false)
    × (r.0.work_queue ≡ [])
    × (r.0.deferred_queue ≡ [])
    × (r.0.delayed_work_queue ≡ [])
    × (r.0.incoming_queue
        ≡ ((m.incoming_queue ++ all_posts posts_again (prompt_ones m.work_queue))
            ++ all_posts posts_again asleep.loop.deferred_queue)
          ++ all_posts posts_again (with_delayed m.work_queue m).delayed_work_queue)
    × (m.incoming_queue
        ≡ (if is_empty asleep.loop.work_queue then [] else asleep.loop.incoming_queue))
destroy-clears_example = destroy-clears posts_again asleep.loop

left_behind : length (destroy posts_again asleep.loop).0.incoming_queue ≡ 1
unfolding advance create post schedule_work destroy
left_behind = refl

-- A task is posted while the thread sleeps.
abbrev late_post : World
late_post = schedule_work (post 4 8 0 true asleep)

late_post-Reach : Reach create late_post
unfolding advance create post schedule_work
late_post-Reach = more (more asleep-Reach (posted 4 8 0 true)) (scheduled (omega arith))

sleeping-leaves_example : (advance 9 late_post).phase ≡ reloading
unfolding advance create post schedule_work
sleeping-leaves_example = sleeping-leaves 9 late_post-Reach refl refl (λ h. cc) (inr (inr refl))

-- A task is posted, and the pump told, just before the thread waits for the time of a delayed task:
-- it waits with the flag set and a task in the incoming queue.
abbrev early_post : World
early_post = steps 5 (schedule_work (post 4 7 0 true (steps 15 three_posted)))

early_post_sleeps :
    (early_post.phase ≡ sleeping)
    × (early_post.pump.have_work ≡ true)
    × (length early_post.loop.incoming_queue ≡ 1)
unfolding advance create post schedule_work
early_post_sleeps = (refl, refl, refl)
