-- ===== src/Loop/Pump/Calm.antt =====
-- What is known of the pump in each phase, and the steps that keep it, but for `doDelayedWork`.
use ashe.Base.{
  ℕ, ◌≡◌, refl, ap, sym, ◌∙◌, Bool, true, false, not, ◌&&◌, ◌||◌, List, [], ◌∷◌, ltb, leb, ◌==◌,
  if◌then◌else◌, arith,
}
use ashe.Loop.{
  PendingTask, is_empty, reload_work_queue, top_time, start_task, finish_task,
  defer_or_run_pending_task, add_to_delayed_work_queue, take_task, do_idle_of, do_idle_work,
}
use ashe.Loop.Pump.{
  Caller, from_work, from_delayed, from_idle, Phase, reloading, draining, idling, pausing, sleeping,
  ended, in_task, delaying, World, create, post, schedule_work, quit, go_on, start, after_idle,
  reload, begin_work, after_take, drain, run_idle, finish, pause, wake,
}

abbrev is_running : Phase → Bool
is_running (in_task c) = true
is_running (delaying did) = false
is_running reloading = false
is_running draining = false
is_running idling = false
is_running pausing = false
is_running sleeping = false
is_running ended = false

-- Behind a `doWork` that found nothing, up to the next one.
abbrev pub is_after : Phase → Bool
is_after (delaying did) = not did
is_after (in_task c) = false
is_after reloading = false
is_after draining = false
is_after idling = true
is_after pausing = true
is_after sleeping = true
is_after ended = false

abbrev is_idling : Phase → Bool
is_idling (delaying did) = false
is_idling (in_task c) = false
is_idling reloading = false
is_idling draining = false
is_idling idling = true
is_idling pausing = false
is_idling sleeping = false
is_idling ended = false

abbrev pub is_resting : Phase → Bool
is_resting (delaying did) = false
is_resting (in_task c) = false
is_resting reloading = false
is_resting draining = false
is_resting idling = false
is_resting pausing = true
is_resting sleeping = true
is_resting ended = false

abbrev pub armed : World → Bool
armed w = w.pump.delayed_work_time == top_time w.loop.delayed_work_queue 0

pub record Calm (w : World) : Type 0 where
  pub free : w.loop.nestable_tasks_allowed ≡ not (is_running w.phase)
  pub emptied : is_after w.phase ≡ true → is_empty w.loop.work_queue ≡ true
  pub told :
      is_after w.phase ≡ true
      → (is_empty w.loop.incoming_queue || (w.pump.have_work || ltb 0 w.owed)) ≡ true
  pub put_off : is_idling w.phase ≡ true → (is_empty w.loop.deferred_queue && not (armed w)) ≡ false
  pub rested : is_resting w.phase ≡ true → (is_empty w.loop.deferred_queue && armed w) ≡ true

pub create-Calm : Calm create
unfolding create
create-Calm = record {
  free = refl;
  emptied = λ h. cc;
  told = λ h. cc;
  put_off = λ h. cc;
  rested = λ h. cc;
}

pub post-Calm :
    (callback now delay : ℕ) (nestable : Bool) (w : World)
    → Calm w
    → Calm (post callback now delay nestable w)
unfolding post
post-Calm callback now delay nestable w c = record {
  free = c.free;
  emptied = c.emptied;
  told = λ h. ground (arith, c.told h);
  put_off = c.put_off;
  rested = c.rested;
}

pub schedule_work-Calm : (w : World) → Calm w → Calm (schedule_work w)
unfolding schedule_work
schedule_work-Calm w c = record {
  free = c.free;
  emptied = c.emptied;
  told = λ h. ground arith;
  put_off = c.put_off;
  rested = c.rested;
}

pub notified-Calm : (b : Bool) (w : World) → Calm w → Calm (record w { notified = b })
notified-Calm b w c = record {
  free = c.free;
  emptied = c.emptied;
  told = c.told;
  put_off = c.put_off;
  rested = c.rested;
}

pub quit-Calm : (w : World) → Calm w → Calm (quit w)
unfolding quit
quit-Calm w c = record {
  free = c.free;
  emptied = c.emptied;
  told = c.told;
  put_off = c.put_off;
  rested = c.rested;
}

-- A phase that claims nothing but that no task runs.
abbrev Busy : Phase → Type 0
Busy p =
    (is_running p ≡ false) × (is_after p ≡ false) × (is_idling p ≡ false) × (is_resting p ≡ false)

pub Busy-Calm : (w : World) → w.loop.nestable_tasks_allowed ≡ true → Busy w.phase → Calm w
Busy-Calm w a b = record {
  free = a ∙ sym (ap not b.0);
  emptied = λ h. cc b.1;
  told = λ h. cc b.1;
  put_off = λ h. cc b.2;
  rested = λ h. cc b.3;
}

-- To go on to a phase, its own claims suffice.
pub go_on-Calm :
    (p : Phase) (w : World)
    → w.loop.nestable_tasks_allowed ≡ true
    → Calm (record w { phase = p })
    → Calm (go_on p w)
unfolding go_on
go_on-Calm p w a c =
    elim w.pump.keep_running
      as (λ k. Calm (
        if k
        then record w { phase = p }
        else record w { phase = ended; pump = record w.pump { keep_running = true } })) [
          | true ↦ c
          | false ↦
              Busy-Calm (record w { phase = ended; pump = record w.pump { keep_running = true } }) a
                (refl, refl, refl, refl)
        ]

pub start-Calm :
    (c : Caller) (t : PendingTask) (w : World)
    → w.loop.nestable_tasks_allowed ≡ false
    → Calm (start c t w)
unfolding start
start-Calm c t w a = record {
  free = a;
  emptied = λ h. cc;
  told = λ h. cc;
  put_off = λ h. cc;
  rested = λ h. cc;
}

reload-Calm : (w : World) → w.loop.nestable_tasks_allowed ≡ true → Calm (reload w)
unfolding reload reload_work_queue
reload-Calm w a = go w.loop.work_queue w.loop.incoming_queue
  where
    with_queues : List PendingTask → List PendingTask → World
    with_queues q i = record w { loop = record w.loop { work_queue = q; incoming_queue = i } }

    go : (q i : List PendingTask) → Calm (reload (with_queues q i))
    go [] [] = go_on-Calm (delaying false) (with_queues [] []) a (record {
      free = a;
      emptied = λ h. refl;
      told = λ h. refl;
      put_off = λ h. cc;
      rested = λ h. cc;
    })
    go [] (t ∷ i) =
        Busy-Calm (record (with_queues (t ∷ i) []) { phase = draining }) a (refl, refl, refl, refl)
    go (t ∷ q) i =
        Busy-Calm (record (with_queues (t ∷ q) i) { phase = draining }) a (refl, refl, refl, refl)

pub begin_work-Calm : (w : World) → w.loop.nestable_tasks_allowed ≡ true → Calm (begin_work w)
unfolding begin_work
begin_work-Calm w a =
    let k : not w.loop.nestable_tasks_allowed ≡ false = ap not a in rw k (reload-Calm w a)

pub drain-Calm :
    (l : List PendingTask) (w : World)
    → w.phase ≡ draining
    → w.loop.nestable_tasks_allowed ≡ true
    → Calm (drain l w)
unfolding drain take_task after_take add_to_delayed_work_queue defer_or_run_pending_task start_task
drain-Calm [] w e a = Busy-Calm (record w { phase = reloading }) a (refl, refl, refl, refl)
drain-Calm (t ∷ ts) w e a = ground (arith, e, a)

pub finish-Calm : (c : Caller) (w : World) → Calm (finish c w)
unfolding finish finish_task
finish-Calm from_work w =
    go_on-Calm (delaying true) (record w { loop = finish_task w.loop }) refl
      (Busy-Calm (record w { loop = finish_task w.loop; phase = delaying true }) refl
        (refl, refl, refl, refl))
finish-Calm from_delayed w =
    go_on-Calm reloading (record w { loop = finish_task w.loop }) refl
      (Busy-Calm (record w { loop = finish_task w.loop; phase = reloading }) refl
        (refl, refl, refl, refl))
finish-Calm from_idle w =
    go_on-Calm reloading (record w { loop = finish_task w.loop }) refl
      (Busy-Calm (record w { loop = finish_task w.loop; phase = reloading }) refl
        (refl, refl, refl, refl))

pub free_of :
    {w : World} {p : Phase}
    → Calm w
    → w.phase ≡ p
    → is_running p ≡ false
    → w.loop.nestable_tasks_allowed ≡ true
free_of c e h = c.free ∙ ap (λ p. not (is_running p)) e ∙ ap not h

pub pause-Calm : (now : ℕ) (w : World) → w.phase ≡ pausing → Calm w → Calm (pause now w)
unfolding pause
pause-Calm now w e c =
    elim (w.pump.delayed_work_time == 0)
      as (λ b. Calm (
        if b
        then record w { phase = sleeping; notified = false }
        else if leb w.pump.delayed_work_time now
        then again
        else record w { phase = sleeping; notified = false })) [
          | true ↦ rest
          | false ↦
              elim (leb w.pump.delayed_work_time now)
                as (λ b.
                  Calm (if b then again else record w { phase = sleeping; notified = false })) [
                    | true ↦ Busy-Calm again a (refl, refl, refl, refl)
                    | false ↦ rest
                  ]
        ]
  where
    a : w.loop.nestable_tasks_allowed ≡ true
    a = free_of c e refl

    again : World
    again = record w { phase = reloading; pump = record w.pump { delayed_work_time = 0 } }

    rest : Calm (record w { phase = sleeping; notified = false })
    rest = record {
      free = a;
      emptied = λ h. c.emptied (ap is_after e);
      told = λ h. c.told (ap is_after e);
      put_off = λ h. cc;
      rested = λ h. c.rested (ap is_resting e);
    }

pub wake-Calm : (now : ℕ) (w : World) → w.phase ≡ sleeping → Calm w → Calm (wake now w)
unfolding wake
wake-Calm now w e c =
    elim (w.pump.delayed_work_time == 0)
      as (λ b. Calm (
        if b
        then if w.pump.have_work then gone else w
        else if leb w.pump.delayed_work_time now
        then gone
        else if w.notified && w.pump.have_work
        then gone
        else again)) [
          | true ↦ elim w.pump.have_work as (λ b. Calm (if b then gone else w)) [
            | true ↦ left
            | false ↦ c
          ]
          | false ↦
              elim (leb w.pump.delayed_work_time now)
                as (λ b.
                  Calm
                    (if b then gone else if w.notified && w.pump.have_work then gone else again)) [
                      | true ↦ left
                      | false ↦
                          elim (w.notified && w.pump.have_work)
                            as (λ b. Calm (if b then gone else again)) [
                              | true ↦ left
                              | false ↦ notified-Calm false w c
                            ]
                    ]
        ]
  where
    gone : World
    gone = record w { phase = reloading; pump = record w.pump { have_work = false } }

    again : World
    again = record w { notified = false }

    left : Calm gone
    left = Busy-Calm gone (free_of c e refl) (refl, refl, refl, refl)

pub run_idle-Calm : (w : World) → w.phase ≡ idling → Calm w → Calm (run_idle w)
unfolding run_idle do_idle_work
run_idle-Calm w e c = go w.loop.deferred_queue refl
  where
    go :
        (q : List PendingTask)
        → w.loop.deferred_queue ≡ q
        → Calm (after_idle (do_idle_of q w.loop) w)
    go [] h = go_on-Calm pausing w (free_of c e refl) (record {
      free = free_of c e refl;
      emptied = λ k. c.emptied (ap is_after e);
      told = λ k. c.told (ap is_after e);
      put_off = λ k. cc;
      rested = λ k. ground (arith, c.put_off (ap is_idling e), h);
    })
    go (t ∷ ts) h =
        start-Calm from_idle t
          (record w { loop = start_task (record w.loop { deferred_queue = ts }) }) refl
