-- ===== src/Timer.antt =====
-- src/timer_manager.cpp: timers that one worker thread fires. The state is `TimerManager::Private`
-- with the local `te` of `run`; the mutex makes each call one step, and the worker's loop body two,
-- before and behind its part without the lock, which calls the handler that `events_` holds then. Times are ticks of the steady
-- clock, a handler is named by a number, and `none` is an access to `events_` out of range.
pub mod Invariant
pub mod Calls
pub mod Steps
pub mod Ids
pub mod Silence
pub mod Examples
use ashe.Base.{
  ℕ, zero, suc, ◌+◌, Bool, true, false, List, [], ◌∷◌, ◌++◌, Option, none, some, ltb, leb, ◌==◌,
  if◌then◌else◌, ◌>>=◌, length, get_elem?, set,
}

-- A signed duration: `negsuc n` is -(n + 1).
pub data ℤ : Type 0 where
  pos : ℕ → ℤ
  negsuc : ℕ → ℤ

pub record TimerData : Type 0 where
  pub id : ℕ
  pub start : ℕ
  pub period : ℤ
  pub handler : ℕ
  pub valid : Bool

-- `next` and the index `ref` in `events`.
pub record TimeEvent : Type 0 where
  pub next : ℕ
  pub ref : ℕ

-- `running` is `te` from where it is taken until its handler has returned; the top of the stack `free_ids` stands first.
pub record Timers : Type 0 where
  pub done : Bool
  pub events : List TimerData
  pub time_events : List TimeEvent
  pub free_ids : List ℕ
  pub running : Option TimeEvent

unfoldable pub create : Timers
create = record { done = false; events = []; time_events = []; free_ids = []; running = none }

-- `multiset::insert`: behind those that are not later.
unfoldable pub insert : TimeEvent → List TimeEvent → List TimeEvent
insert te [] = te ∷ []
insert te (x ∷ xs) = if ltb te.next x.next then te ∷ x ∷ xs else x ∷ insert te xs

-- The id of a new timer, and the events and free ids left.
unfoldable pub claim_id : List ℕ → List TimerData → (ℕ → TimerData) → ℕ × List TimerData × List ℕ
claim_id [] events e = (length events, events ++ e (length events) ∷ [], [])
claim_id (id ∷ ids) events e = (id, set events id (e id), ids)

-- `TimerData(id, when, period, handler)`.
abbrev pub timer_data : ℕ → ℤ → ℕ → ℕ → TimerData
timer_data when period handler id = record {
  id = id;
  start = when;
  period = period;
  handler = handler;
  valid = true;
}

unfoldable pub add : ℕ → ℕ → ℤ → Timers → Timers × ℕ
unfolding claim_id insert
add when handler period s =
    let (id, events, ids) = claim_id s.free_ids s.events (timer_data when period handler) in
    (
      record s {
        events = events;
        time_events = insert (record { next = when; ref = id }) s.time_events;
        free_ids = ids;
      },
      id,
    )

-- `std::find_if` for a reference.
unfoldable pub has_ref : ℕ → List TimeEvent → Bool
has_ref id [] = false
has_ref id (x ∷ xs) = if x.ref == id then true else has_ref id xs

-- Without the first event that `find_if` finds.
unfoldable pub erase : ℕ → List TimeEvent → List TimeEvent
erase id [] = []
erase id (x ∷ xs) = if x.ref == id then xs else x ∷ erase id xs

unfoldable pub set_valid : Bool → ℕ → List TimerData → List TimerData
set_valid b id [] = []
set_valid b zero (e ∷ es) = record e { valid = b } ∷ es
set_valid b (suc id) (e ∷ es) = e ∷ set_valid b id es

unfoldable pub remove : ℕ → Timers → Timers × Bool
unfolding has_ref erase set_valid
remove id s = if leb (length s.events) id then (s, false) else (
  record s {
    events = set_valid false id s.events;
    time_events = erase id s.time_events;
    free_ids = if has_ref id s.time_events then id ∷ s.free_ids else s.free_ids;
  },
  true,
)

-- What the worker does next: end, wait for work, wait until a time, or, with the event of an id
-- taken, give the lock back to call its handler.
pub data Action : Type 0 where
  stopped idle : Action
  wait_until : ℕ → Action
  take : (id : ℕ) → Action

unfoldable pub begin_first : ℕ → List TimeEvent → Timers → Option (Timers × Action)
begin_first now [] s = some (s, idle)
begin_first now (te ∷ rest) s =
    if leb te.next now
    then some (record s { time_events = rest; running = some te }, take te.ref)
    else some (s, wait_until te.next)

-- The body of the loop in `run` up to `lock.unlock()`.
unfoldable pub run_begin : ℕ → Timers → Option (Timers × Action)
unfolding begin_first
run_begin now s = if s.done then some (s, stopped) else begin_first now s.time_events s

-- The part without the lock: the handler that is called, with its argument. It changes no field,
-- and other calls may stand before it and behind it.
unfoldable pub call_of : Option TimeEvent → List TimerData → Option (ℕ × ℕ)
call_of none events = none
call_of (some te) events = do e ← get_elem? events te.ref; some (e.handler, te.ref)

unfoldable pub run_call : Timers → Option (ℕ × ℕ)
unfolding call_of
run_call s = call_of s.running s.events

-- When a timer goes on: at `next` and its period, if it is valid and periodic.
unfoldable pub next_time : TimerData → ℕ → Option ℕ
next_time e next = elim e.period [
  | pos p ↦ if e.valid then (if ltb 0 p then some (next + p) else none) else none
  | negsuc _ ↦ none
]

unfoldable pub reschedule : TimeEvent → Option ℕ → Timers → Timers
unfolding insert set_valid
reschedule te (some next) s = record s {
  time_events = insert (record te { next = next }) s.time_events;
  running = none;
}
reschedule te none s = record s {
  events = set_valid false te.ref s.events;
  free_ids = te.ref ∷ s.free_ids;
  running = none;
}

unfoldable pub end_of : Option TimeEvent → Timers → Option Timers
unfolding reschedule next_time
end_of none s = some s
end_of (some te) s = do e ← get_elem? s.events te.ref; some (reschedule te (next_time e te.next) s)

-- The body of the loop from `lock.lock()` on.
unfoldable pub run_end : Timers → Option Timers
unfolding end_of
run_end s = end_of s.running s

-- `destory`: the flag, and what is left once the worker has been joined.
unfoldable pub stop : Timers → Timers
stop s = record s { done = true }

unfoldable pub destory : Timers → Timers
destory s = record s { done = true; events = []; time_events = []; free_ids = [] }
