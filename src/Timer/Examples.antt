-- ===== src/Timer/Examples.antt =====
-- Concrete timers, on which the theorems about src/timer_manager.cpp apply.
use ashe.Base.{◌≡◌, ◌≢◌, refl, [], ◌∷◌, none, some, arith}
use ashe.Timer.{
  pos, Timers, Action, take, create, insert, claim_id, add, has_ref, erase, set_valid, remove,
  begin_first, run_begin, run_call, next_time, reschedule, end_of, run_end,
}
use ashe.Timer.Invariant.{IsValid}
use ashe.Timer.Calls.{create-IsValid, add-IsValid}
use ashe.Timer.Steps.{
  Begins, here, next, added, begun, ended, Step-IsValid, run_begin-earliest, Reach-create,
}
use ashe.Timer.Silence.{Spared, remove-silent}

-- One timer, due at 5 and then every 10 ticks.
abbrev one_timer : Timers
one_timer = (add 5 7 (pos 10) create).0

-- The same while its handler runs.
abbrev in_handler : Timers
in_handler = record one_timer { time_events = []; running = some (record { next = 5; ref = 0 }) }

one_timer-IsValid : IsValid one_timer
one_timer-IsValid = add-IsValid 5 7 (pos 10) create create-IsValid

in_handler-IsValid : IsValid in_handler
unfolding create add claim_id insert run_begin begin_first
in_handler-IsValid = Step-IsValid (begun 6 in_handler (take 0) refl refl) one_timer-IsValid

-- It was removed by its own handler.
abbrev removed_timer : Timers
removed_timer = (remove 0 in_handler).0

abbrev ended_timer : Timers
ended_timer = record removed_timer { free_ids = 0 ∷ []; running = none }

rescheduled :
    run_end in_handler
    ≡ some (record one_timer { time_events = record { next = 15; ref = 0 } ∷ [] })
unfolding create add claim_id insert run_end end_of next_time reschedule
rescheduled = refl

Reach-create_example : IsValid in_handler
unfolding create add claim_id insert run_begin begin_first
Reach-create_example =
    Reach-create (next (next here (added 5 7 (pos 10))) (begun 6 in_handler (take 0) refl refl))

run_begin-earliest_example :
    (t : Timers) × (a : Action) × (run_begin 6 one_timer ≡ some (t, a))
    × IsValid t
    × Begins 6 one_timer t a
unfolding create add claim_id insert
run_begin-earliest_example = run_begin-earliest 6 one_timer one_timer-IsValid refl

remove-silent_example : run_call ended_timer ≢ some (7, 0)
unfolding create add claim_id insert remove has_ref erase set_valid run_end end_of next_time
    reschedule
remove-silent_example =
    remove-silent 0 in_handler ended_timer ended_timer 7 in_handler-IsValid (omega arith)
      (Spared.next Spared.here (ended (record { next = 5; ref = 0 }) ended_timer refl refl) tt) refl
      Spared.here

-- Another thread removes the timer when the worker has taken its event: the handler is still called.
still_called : run_call removed_timer ≡ some (7, 0)
unfolding create add claim_id insert remove has_ref erase set_valid run_call
still_called = refl
