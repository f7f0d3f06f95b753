-- ===== src/Loop/Pump/Rule.antt =====
-- One rule for what holds of the queues, the posted and the run tasks at every step: it is to be
-- kept by each way in which the loop moves a task.
use ashe.Base.{
  ℕ, ◌≡◌, refl, Bool, true, false, not, List, [], ◌∷◌, ◌++◌, Option, none, some, ltb, leb, ◌&&◌,
  ◌==◌, if◌then◌else◌,
}
use ashe.Loop.{
  PendingTask, MessageLoop, calculate_delayed_runtime, Taken, delayed, started, deferred,
  add_to_incoming_queue, is_empty, reload_work_queue, top_time, start_task, finish_task,
  defer_or_run_pending_task, add_to_delayed_work_queue, take_task, run_top, do_delayed_of,
  do_delayed_work, do_idle_of, do_idle_work,
}
use ashe.Loop.Pump.{
  Caller, from_work, from_delayed, from_idle, Phase, reloading, draining, idling, pausing, sleeping,
  ended, in_task, delaying, World, create, post, schedule_work, quit, go_on, next_phase, start,
  after_delayed, after_idle, reload, begin_work, stir, stirred, after_take, drain, run_delayed,
  run_idle, finish, pause, wake, advance_at, advance, advanced, posted, scheduled, quitted, Reach,
  here, more,
}

abbrev pub Books : Type 1
Books = MessageLoop → List PendingTask → List PendingTask → Type 0

pub record Keeps (K : Books) : Type 0 where
  pub new : K create.loop [] []
  pub flags :
      (a : Bool) (n : ℕ) (l : MessageLoop) (p r : List PendingTask)
      → K l p r
      → K (record l { nestable_tasks_allowed = a; recent_time = n }) p r
  pub posts :
      (t : PendingTask) (l : MessageLoop) (p r : List PendingTask)
      → K l p r
      → K (add_to_incoming_queue t l).0 (p ++ t ∷ []) r
  pub swaps :
      (l : MessageLoop) (p r : List PendingTask)
      → l.work_queue ≡ []
      → K l p r
      → K (record l { incoming_queue = l.work_queue; work_queue = l.incoming_queue }) p r
  pub delays :
      (t : PendingTask) (ts : List PendingTask) (l : MessageLoop) (p r : List PendingTask)
      → l.work_queue ≡ t ∷ ts
      → (t.delayed_run_time == 0) ≡ false
      → K l p r
      → K (add_to_delayed_work_queue t (record l { work_queue = ts })) p r
  pub defers :
      (t : PendingTask) (ts : List PendingTask) (l : MessageLoop) (p r : List PendingTask)
      → l.work_queue ≡ t ∷ ts
      → t.nestable ≡ false
      → K l p r
      → K (record l { work_queue = ts; deferred_queue = l.deferred_queue ++ t ∷ [] }) p r
  pub runs :
      (t : PendingTask) (ts : List PendingTask) (l : MessageLoop) (p r : List PendingTask)
      → l.work_queue ≡ t ∷ ts
      → (t.delayed_run_time == 0) ≡ true
      → t.nestable ≡ true
      → K l p r
      → K (record l { work_queue = ts }) p (r ++ t ∷ [])
  pub defers_delayed :
      (t : PendingTask) (ts : List PendingTask) (l : MessageLoop) (p r : List PendingTask)
      → l.delayed_work_queue ≡ t ∷ ts
      → t.nestable ≡ false
      → K l p r
      → K (record l { delayed_work_queue = ts; deferred_queue = l.deferred_queue ++ t ∷ [] }) p r
  pub runs_delayed :
      (t : PendingTask) (ts : List PendingTask) (l : MessageLoop) (p r : List PendingTask)
      → l.delayed_work_queue ≡ t ∷ ts
      → K l p r
      → K (record l { delayed_work_queue = ts }) p (r ++ t ∷ [])
  pub runs_deferred :
      (t : PendingTask) (ts : List PendingTask) (l : MessageLoop) (p r : List PendingTask)
      → l.deferred_queue ≡ t ∷ ts
      → K l p r
      → K (record l { deferred_queue = ts }) p (r ++ t ∷ [])

module _ (K : Books) (keeps : Keeps K) where
  abbrev Holds : World → Type 0
  Holds w = K w.loop w.posted w.ran

  go_on-Holds : (p : Phase) (w : World) → Holds w → Holds (go_on p w)
  unfolding go_on
  go_on-Holds p w h =
      elim w.pump.keep_running
        as (λ b. Holds (
          if b
          then record w { phase = p }
          else record w { phase = ended; pump = record w.pump { keep_running = true } })) [
            | true ↦ h
            | false ↦ h
          ]

  reload-Holds : (w : World) → Holds w → Holds (reload w)
  unfolding reload reload_work_queue
  reload-Holds w h = go w.loop.work_queue w.loop.incoming_queue h
    where
      with_queues : List PendingTask → List PendingTask → World
      with_queues q i = record w { loop = record w.loop { work_queue = q; incoming_queue = i } }

      go : (q i : List PendingTask) → Holds (with_queues q i) → Holds (reload (with_queues q i))
      go [] [] h = go_on-Holds (delaying false) (with_queues [] []) h
      go [] (t ∷ i) h = keeps.swaps (with_queues [] (t ∷ i)).loop w.posted w.ran refl h
      go (t ∷ q) i h = h

  begin_work-Holds : (w : World) → Holds w → Holds (begin_work w)
  unfolding begin_work
  begin_work-Holds w h =
      elim (not w.loop.nestable_tasks_allowed)
        as (λ b. Holds (if b then go_on (delaying false) w else reload w)) [
          | true ↦ go_on-Holds (delaying false) w h
          | false ↦ reload-Holds w h
        ]

  told-Holds :
      (o : Option ℕ) (l : MessageLoop) (w : World)
      → K l w.posted w.ran
      → Holds (after_take l (delayed o) w)
  unfolding after_take
  told-Holds none l w h = h
  told-Holds (some n) l w h = h

  drain-Holds :
      (q : List PendingTask) (w : World) → w.loop.work_queue ≡ q → Holds w → Holds (drain q w)
  unfolding drain take_task after_take defer_or_run_pending_task start start_task
  drain-Holds [] w e h = h
  drain-Holds (t ∷ ts) w e h =
      elim (t.delayed_run_time == 0)
          as (λ b. (t.delayed_run_time == 0) ≡ b → Holds (takes b t.nestable)) [
            | false ↦ λ d.
                told-Holds
                  (if is_empty w.loop.delayed_work_queue then some t.delayed_run_time else none)
                  (add_to_delayed_work_queue t l) w (keeps.delays t ts w.loop w.posted w.ran e d h)
            | true ↦ λ d.
                elim t.nestable as (λ n. t.nestable ≡ n → Holds (takes true n)) [
                  | true ↦ λ n.
                      keeps.flags false w.loop.recent_time (record w.loop { work_queue = ts })
                        w.posted (w.ran ++ t ∷ []) (keeps.runs t ts w.loop w.posted w.ran e d n h)
                  | false ↦ λ n. keeps.defers t ts w.loop w.posted w.ran e n h
                ]
                  refl
          ]
        refl
    where
      l : MessageLoop
      l = record w.loop { work_queue = ts }

      takes : Bool → Bool → World
      takes b n =
          let r : MessageLoop × Option PendingTask =
            if n
            then (start_task l, some t)
            else (record l { deferred_queue = l.deferred_queue ++ t ∷ [] }, none) in
          let a : MessageLoop × Taken =
            if not b
            then (
              add_to_delayed_work_queue t l,
              delayed (if is_empty l.delayed_work_queue then some t.delayed_run_time else none),
            )
            else elim r.1 [ some r' ↦ (r.0, started r') | none ↦ (r.0, deferred) ] in
          after_take a.0 a.1 w

  idle-Holds :
      (did : Bool) (l : MessageLoop) (next : ℕ) (w : World)
      → K l w.posted w.ran
      → Holds (after_delayed did (l, next, none) w)
  unfolding after_delayed
  idle-Holds did l next w h =
      go_on-Holds (next_phase did idling)
        (record w { loop = l; pump = record w.pump { delayed_work_time = next } }) h

  run_top-Holds :
      (did : Bool) (next : ℕ) (t : PendingTask) (ts : List PendingTask) (l : MessageLoop)
      (w : World)
      → l.delayed_work_queue ≡ t ∷ ts
      → K l w.posted w.ran
      → Holds (after_delayed did (run_top next t ts l) w)
  unfolding run_top after_delayed defer_or_run_pending_task start start_task
  run_top-Holds did next t ts l w e h =
      elim (ltb l.recent_time t.delayed_run_time)
        as (λ b.
          Holds
            (after_delayed did (if b then (l, t.delayed_run_time, none) else off t.nestable) w)) [
              | true ↦ idle-Holds did l t.delayed_run_time w h
              | false ↦
                  elim t.nestable as (λ n. t.nestable ≡ n → Holds (after_delayed did (off n) w)) [
                    | true ↦ λ n.
                        keeps.flags false l.recent_time (record l { delayed_work_queue = ts })
                          w.posted (w.ran ++ t ∷ []) (keeps.runs_delayed t ts l w.posted w.ran e h)
                    | false ↦ λ n.
                        idle-Holds did
                          (record l {
                            delayed_work_queue = ts;
                            deferred_queue = l.deferred_queue ++ t ∷ [];
                          })
                          (top_time ts next) w (keeps.defers_delayed t ts l w.posted w.ran e n h)
                  ]
                    refl
            ]
    where
      popped : MessageLoop
      popped = record l { delayed_work_queue = ts }

      off : Bool → MessageLoop × ℕ × Option PendingTask
      off n =
          let r : MessageLoop × Option PendingTask =
            if n
            then (start_task popped, some t)
            else (record popped { deferred_queue = popped.deferred_queue ++ t ∷ [] }, none) in
          (r.0, top_time ts next, r.1)

  do_delayed_of-Holds :
      (did : Bool) (now next : ℕ) (q : List PendingTask) (w : World)
      → w.loop.delayed_work_queue ≡ q
      → Holds w
      → Holds (after_delayed did (do_delayed_of now next q w.loop) w)
  unfolding do_delayed_of
  do_delayed_of-Holds did now next [] w e h =
      idle-Holds did (record w.loop { recent_time = 0 }) 0 w
        (keeps.flags w.loop.nestable_tasks_allowed 0 w.loop w.posted w.ran h)
  do_delayed_of-Holds did now next (t ∷ ts) w e h =
      let recent : ℕ =
        if ltb w.loop.recent_time t.delayed_run_time then now else w.loop.recent_time in
      run_top-Holds did next t ts (record w.loop { recent_time = recent }) w e
        (keeps.flags w.loop.nestable_tasks_allowed recent w.loop w.posted w.ran h)

  run_delayed-Holds : (now : ℕ) (did : Bool) (w : World) → Holds w → Holds (run_delayed now did w)
  unfolding run_delayed do_delayed_work
  run_delayed-Holds now did w h =
      elim (not w.loop.nestable_tasks_allowed)
        as (λ b. Holds (
          after_delayed did
            (if b
              then (record w.loop { recent_time = 0 }, 0, none)
              else do_delayed_of now w.pump.delayed_work_time w.loop.delayed_work_queue w.loop)
            w)) [
              | true ↦
                  idle-Holds did (record w.loop { recent_time = 0 }) 0 w
                    (keeps.flags w.loop.nestable_tasks_allowed 0 w.loop w.posted w.ran h)
              | false ↦
                  do_delayed_of-Holds did now w.pump.delayed_work_time w.loop.delayed_work_queue w
                    refl h
            ]

  run_idle-Holds : (w : World) → Holds w → Holds (run_idle w)
  unfolding run_idle do_idle_work do_idle_of after_idle start start_task
  run_idle-Holds w h = go w.loop.deferred_queue refl
    where
      go :
          (q : List PendingTask)
          → w.loop.deferred_queue ≡ q
          → Holds (after_idle (do_idle_of q w.loop) w)
      go [] e = go_on-Holds pausing w h
      go (t ∷ ts) e =
          keeps.flags false w.loop.recent_time (record w.loop { deferred_queue = ts }) w.posted
            (w.ran ++ t ∷ []) (keeps.runs_deferred t ts w.loop w.posted w.ran e h)

  finish-Holds : (c : Caller) (w : World) → Holds w → Holds (finish c w)
  unfolding finish finish_task
  finish-Holds c w h = go c
    where
      w' : World
      w' = record w { loop = finish_task w.loop }

      h' : Holds w'
      h' = keeps.flags true w.loop.recent_time w.loop w.posted w.ran h

      go : (c : Caller) → Holds (finish c w)
      go from_work = go_on-Holds (delaying true) w' h'
      go from_delayed = go_on-Holds reloading w' h'
      go from_idle = go_on-Holds reloading w' h'

  pause-Holds : (now : ℕ) (w : World) → Holds w → Holds (pause now w)
  unfolding pause
  pause-Holds now w h =
      elim (w.pump.delayed_work_time == 0)
        as (λ b. Holds (
          if b
          then record w { phase = sleeping; notified = false }
          else if leb w.pump.delayed_work_time now
          then again
          else record w { phase = sleeping; notified = false })) [
            | true ↦ h
            | false ↦
                elim (leb w.pump.delayed_work_time now)
                  as (λ b.
                    Holds (if b then again else record w { phase = sleeping; notified = false })) [
                      | true ↦ h
                      | false ↦ h
                    ]
          ]
    where
      again : World
      again = record w { phase = reloading; pump = record w.pump { delayed_work_time = 0 } }

  wake-Holds : (now : ℕ) (w : World) → Holds w → Holds (wake now w)
  unfolding wake
  wake-Holds now w h =
      elim (w.pump.delayed_work_time == 0)
        as (λ b. Holds (
          if b
          then if w.pump.have_work then gone else w
          else if leb w.pump.delayed_work_time now
          then gone
          else if w.notified && w.pump.have_work
          then gone
          else record w { notified = false })) [
            | true ↦ elim w.pump.have_work as (λ b. Holds (if b then gone else w)) [
              | true ↦ h
              | false ↦ h
            ]
            | false ↦
                elim (leb w.pump.delayed_work_time now)
                  as (λ b. Holds (
                    if b
                    then gone
                    else if w.notified && w.pump.have_work
                    then gone
                    else record w { notified = false })) [
                      | true ↦ h
                      | false ↦
                          elim (w.notified && w.pump.have_work)
                            as (λ b. Holds (if b then gone else record w { notified = false })) [
                              | true ↦ h
                              | false ↦ h
                            ]
                    ]
          ]
    where
      gone : World
      gone = record w { phase = reloading; pump = record w.pump { have_work = false } }

  advance_at-Holds : (p : Phase) (now : ℕ) (w : World) → Holds w → Holds (advance_at p now w)
  unfolding advance_at
  advance_at-Holds reloading now w h = begin_work-Holds w h
  advance_at-Holds draining now w h = drain-Holds w.loop.work_queue w refl h
  advance_at-Holds (in_task c) now w h = finish-Holds c w h
  advance_at-Holds (delaying did) now w h = run_delayed-Holds now did w h
  advance_at-Holds idling now w h = run_idle-Holds w h
  advance_at-Holds pausing now w h = pause-Holds now w h
  advance_at-Holds sleeping now w h = wake-Holds now w h
  advance_at-Holds ended now w h = h

  pub Reach-Holds : {w : World} → Reach create w → Holds w
  unfolding advance create post schedule_work quit stir
  Reach-Holds here = keeps.new
  Reach-Holds (more {u} r (advanced now)) = advance_at-Holds u.phase now u (Reach-Holds r)
  Reach-Holds (more {u} r (posted callback now delay nestable)) =
      keeps.posts
        (record {
          callback = callback;
          sequence_num = 0;
          delayed_run_time = calculate_delayed_runtime now delay;
          nestable = nestable;
        })
        u.loop u.posted u.ran (Reach-Holds r)
  Reach-Holds (more {u} r (scheduled h)) = Reach-Holds r
  Reach-Holds (more {u} r stirred) = Reach-Holds r
  Reach-Holds (more {u} r (quitted k h)) = Reach-Holds r
