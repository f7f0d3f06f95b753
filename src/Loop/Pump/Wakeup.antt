-- ===== src/Loop/Pump/Wakeup.antt =====
-- When the pump's thread sleeps.
use ashe.Base.{
  ℕ, ◌<◌, ◌≡◌, refl, ap, ◌∙◌, Bool, true, false, not, ◌&&◌, ◌||◌, List, [], ◌∷◌, ◌++◌, Option, none,
  some, ltb, ◌==◌, if◌then◌else◌, arith, ◌⊎◌, inl, inr, ◌≢◌, ◌≤◌,
}
use ashe.Loop.{
  PendingTask, MessageLoop, is_empty, top_time, start_task, defer_or_run_pending_task, run_top,
  do_delayed_of, do_delayed_work,
}
use ashe.Loop.Pump.{
  from_delayed, Phase, reloading, draining, idling, pausing, sleeping, ended, in_task, delaying,
  World, create, go_on, next_phase, after_delayed, stir, stirred, run_delayed, wake, advance_at,
  advance, advanced, posted, scheduled, quitted, Reach, here, more,
}
use ashe.Loop.Pump.Calm.{
  is_after, is_resting, armed, Calm, create-Calm, post-Calm, schedule_work-Calm, notified-Calm,
  quit-Calm, Busy-Calm, go_on-Calm, start-Calm, begin_work-Calm, drain-Calm, finish-Calm, free_of,
  pause-Calm, wake-Calm, run_idle-Calm,
}

do_delayed_work-eq :
    (now next : ℕ) (l : MessageLoop)
    → l.nestable_tasks_allowed ≡ true
    → do_delayed_work now next l ≡ do_delayed_of now next l.delayed_work_queue l
unfolding do_delayed_work
do_delayed_work-eq now next l h = ground arith

is_empty-append : (l : List PendingTask) (t : PendingTask) → is_empty (l ++ t ∷ []) ≡ false
is_empty-append [] t = refl
is_empty-append (x ∷ l) t = refl

-- Behind `doDelayedWork` with nothing run: back to `doWork`, or on to `doIdleWork`.
idle_next :
    (did : Bool) (w : World)
    → w.loop.nestable_tasks_allowed ≡ true
    → (did ≡ false → is_empty w.loop.work_queue ≡ true)
    → (did ≡ false → (is_empty w.loop.incoming_queue || (w.pump.have_work || ltb 0 w.owed)) ≡ true)
    → (is_empty w.loop.deferred_queue && not (armed w)) ≡ false
    → Calm (go_on (next_phase did idling) w)
idle_next true w a b c d =
    go_on-Calm reloading w a (Busy-Calm (record w { phase = reloading }) a (refl, refl, refl, refl))
idle_next false w a b c d = go_on-Calm idling w a (record {
  free = a;
  emptied = λ h. b refl;
  told = λ h. c refl;
  put_off = λ h. d;
  rested = λ h. cc;
})

module _ (now : ℕ) (did : Bool) (w : World) (e : w.phase ≡ delaying did) (c : Calm w) where
  idle_again :
      (l : MessageLoop) (next : ℕ)
      → l.nestable_tasks_allowed ≡ true
      → l.work_queue ≡ w.loop.work_queue
      → l.incoming_queue ≡ w.loop.incoming_queue
      → (is_empty l.deferred_queue && not (next == top_time l.delayed_work_queue 0)) ≡ false
      → Calm (after_delayed did (l, next, none) w)
  unfolding after_delayed
  idle_again l next a q i d =
      idle_next did (record w { loop = l; pump = record w.pump { delayed_work_time = next } }) a
        (λ h. ap is_empty q ∙ c.emptied (ap is_after e ∙ ap not h))
        (λ h.
          ap (λ x. is_empty x || (w.pump.have_work || ltb 0 w.owed)) i
          ∙ c.told (ap is_after e ∙ ap not h))
        d

  run_top-Calm :
      (next : ℕ) (t : PendingTask) (ts : List PendingTask) (l : MessageLoop)
      → l.nestable_tasks_allowed ≡ true
      → l.work_queue ≡ w.loop.work_queue
      → l.incoming_queue ≡ w.loop.incoming_queue
      → l.delayed_work_queue ≡ t ∷ ts
      → Calm (after_delayed did (run_top next t ts l) w)
  unfolding run_top after_delayed defer_or_run_pending_task
  run_top-Calm next t ts l a q i d =
      elim (ltb l.recent_time t.delayed_run_time)
        as (λ b. Calm (after_delayed did (if b then (l, t.delayed_run_time, none) else off) w)) [
          | true ↦ idle_again l t.delayed_run_time a q i (
              let top : top_time l.delayed_work_queue 0 ≡ t.delayed_run_time =
                ap (λ x. top_time x 0) d in
              ground (arith, top))
          | false ↦ elim t.nestable as (λ b. Calm (after_delayed did (off_if b) w)) [
            | true ↦
                start-Calm from_delayed t
                  (record w {
                    loop = start_task popped;
                    pump = record w.pump { delayed_work_time = top_time ts next };
                  })
                  refl
            | false ↦
                idle_again (record popped { deferred_queue = popped.deferred_queue ++ t ∷ [] })
                  (top_time ts next) a q i (ground (arith, is_empty-append l.deferred_queue t))
          ]
        ]
    where
      popped : MessageLoop
      popped = record l { delayed_work_queue = ts }

      off : MessageLoop × ℕ × Option PendingTask
      off = (
        (defer_or_run_pending_task t popped).0,
        top_time ts next,
        (defer_or_run_pending_task t popped).1,
      )

      off_if : Bool → MessageLoop × ℕ × Option PendingTask
      off_if b =
          let r : MessageLoop × Option PendingTask =
            if b
            then (start_task popped, some t)
            else (record popped { deferred_queue = popped.deferred_queue ++ t ∷ [] }, none) in
          (r.0, top_time ts next, r.1)

  run_delayed-Calm : Calm (run_delayed now did w)
  unfolding run_delayed do_delayed_of
  run_delayed-Calm =
      rw (do_delayed_work-eq now w.pump.delayed_work_time w.loop (free_of c e refl))
        (go w.loop.delayed_work_queue refl)
    where
      go :
          (q : List PendingTask)
          → w.loop.delayed_work_queue ≡ q
          → Calm (after_delayed did (do_delayed_of now w.pump.delayed_work_time q w.loop) w)
      go [] h =
          idle_again (record w.loop { recent_time = 0 }) 0 (free_of c e refl) refl refl
            (ground (arith, h))
      go (t ∷ ts) h =
          run_top-Calm w.pump.delayed_work_time t ts
            (record w.loop {
              recent_time =
                  if ltb w.loop.recent_time t.delayed_run_time then now else w.loop.recent_time;
            })
            (free_of c e refl) refl refl h

advance_at-Calm :
    (p : Phase) (now : ℕ) (w : World) → w.phase ≡ p → Calm w → Calm (advance_at p now w)
unfolding advance_at
advance_at-Calm reloading now w e c = begin_work-Calm w (free_of c e refl)
advance_at-Calm draining now w e c = drain-Calm w.loop.work_queue w e (free_of c e refl)
advance_at-Calm (in_task k) now w e c = finish-Calm k w
advance_at-Calm (delaying did) now w e c = run_delayed-Calm now did w e c
advance_at-Calm idling now w e c = run_idle-Calm w e c
advance_at-Calm pausing now w e c = pause-Calm now w e c
advance_at-Calm sleeping now w e c = wake-Calm now w e c
advance_at-Calm ended now w e c = c

Reach-Calm : {w : World} → Reach create w → Calm w
unfolding advance stir
Reach-Calm here = create-Calm
Reach-Calm (more {u} r (advanced now)) = advance_at-Calm u.phase now u refl (Reach-Calm r)
Reach-Calm (more {u} r (posted callback now delay nestable)) =
    post-Calm callback now delay nestable u (Reach-Calm r)
Reach-Calm (more {u} r (scheduled h)) = schedule_work-Calm u (Reach-Calm r)
Reach-Calm (more {u} r stirred) = notified-Calm true u (Reach-Calm r)
Reach-Calm (more {u} r (quitted k h)) = quit-Calm u (Reach-Calm r)

-- Whenever the pump's thread sleeps, whatever other threads have posted in between, no task waits
-- in the work queue or among the deferred ones; if one waits in the incoming queue, the pump's flag
-- is set or a thread that posted is about to set it; and the time the thread sleeps to is that of
-- the first delayed task, or none where there is no delayed task.
pub Reach-sleeping :
    {w : World}
    → Reach create w
    → w.phase ≡ sleeping
    → (w.loop.work_queue ≡ [])
      × (w.loop.deferred_queue ≡ [])
      × ((w.loop.incoming_queue ≡ []) ⊎ ((w.pump.have_work ≡ true) ⊎ (0 < w.owed)))
      × (w.pump.delayed_work_time ≡ top_time w.loop.delayed_work_queue 0)
Reach-sleeping {w} r e =
    let c = Reach-Calm r in
    let told = c.told (ap is_after e) in
    let rested = c.rested (ap is_resting e) in
    (
      nil_of w.loop.work_queue (c.emptied (ap is_after e)),
      nil_of w.loop.deferred_queue (ground arith),
      waits w.loop.incoming_queue w.pump.have_work told,
      ground arith,
    )
  where
    nil_of : (l : List PendingTask) → is_empty l ≡ true → l ≡ []
    nil_of [] h = refl
    nil_of (t ∷ l) h = cc

    waits :
        (l : List PendingTask) (b : Bool)
        → (is_empty l || (b || ltb 0 w.owed)) ≡ true
        → (l ≡ []) ⊎ ((b ≡ true) ⊎ (0 < w.owed))
    waits [] b h = inl refl
    waits (t ∷ l) true h = inr (inl refl)
    waits (t ∷ l) false h = inr (inr (ground arith))

wake-reloading :
    (now : ℕ) (w : World)
    → w.pump.have_work ≡ true
    → (w.pump.delayed_work_time ≡ 0) ⊎ ((w.pump.delayed_work_time ≤ now) ⊎ (w.notified ≡ true))
    → (wake now w).phase ≡ reloading
unfolding wake
wake-reloading now w h (inl t) = ground (arith, h, t)
wake-reloading now w h (inr (inl t)) = ground (arith, h, t)
wake-reloading now w h (inr (inr t)) = ground (arith, h, t)

-- Whenever the pump's thread sleeps while a task is in the incoming queue
-- and no thread that posted has still to tell it, its next step is back to the work, if it sleeps
-- without a time, its time has come, or it was notified since it began to wait.
pub sleeping-leaves :
    {w : World} (now : ℕ)
    → Reach create w
    → w.phase ≡ sleeping
    → w.owed ≡ 0
    → w.loop.incoming_queue ≢ []
    → (w.pump.delayed_work_time ≡ 0) ⊎ ((w.pump.delayed_work_time ≤ now) ⊎ (w.notified ≡ true))
    → (advance now w).phase ≡ reloading
unfolding advance advance_at
sleeping-leaves {w} now r e o i t =
    ap (λ p. (advance_at p now w).phase) e ∙ wake-reloading now w (told (Reach-sleeping r e).2) t
  where
    told :
        (w.loop.incoming_queue ≡ []) ⊎ ((w.pump.have_work ≡ true) ⊎ (0 < w.owed))
        → w.pump.have_work ≡ true
    told (inl h) = absurd (i h)
    told (inr (inl h)) = h
    told (inr (inr h)) = absurd (omega (arith, h, o))
