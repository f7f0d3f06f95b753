-- ===== src/Timer/Steps.antt =====
-- Any sequence of calls and of the worker's half rounds, and the invariant over it. A handler may
-- add and remove timers: such calls stand between the two halves of a round, as do those of other
-- threads before the handler is called.
use mathlib.Core.Option.{some-injective}
use ashe.Base.{
  ℕ, zero, suc, ◌+◌, ◌≤◌, ◌<◌, ◌≡◌, ◌≢◌, refl, ap, sym, ◌∙◌, ◌⊎◌, subst, Bool, true, false, ◌&&◌,
  List, [], ◌∷◌, Option, none, some, ltb, leb, arith, length, get_elem?, All, Bool-cases, inl, inr,
}
use ashe.Timer.{
  ℤ, pos, negsuc, TimerData, TimeEvent, Timers, Action, create, insert, stopped, idle, wait_until,
  take, add, set_valid, remove, begin_first, run_begin, run_call, next_time, reschedule, end_of,
  run_end, stop,
}
use ashe.Timer.Invariant.{
  IsValid, count_refs, valid_at, count_refs-insert, insert-IsSorted, length-set_valid,
  valid_at-set_valid,
}
use ashe.Timer.Calls.{
  timers, create-IsValid, add-IsValid, remove-IsValid, get_elem?-valid_at, ref-lt-length,
}

-- What the worker finds when it begins a round, the state that it leaves, and the handler that it
-- calls if no other call comes between.
abbrev pub Begins : ℕ → Timers → Timers → Action → Type 0
Begins now s t stopped = (s.done ≡ true) × (t ≡ s)
Begins now s t idle = (s.done ≡ false) × (s.time_events ≡ []) × (t ≡ s)
Begins now s t (wait_until time) =
    (te : TimeEvent) × (rest : List TimeEvent) × (s.done ≡ false)
    × (s.time_events ≡ te ∷ rest)
    × (te.next ≡ time)
    × (now < time)
    × All (λ y. time ≤ y.next) rest
    × (t ≡ s)
Begins now s t (take id) =
    (te : TimeEvent) × (rest : List TimeEvent) × (e : TimerData) × (s.done ≡ false)
    × (s.time_events ≡ te ∷ rest)
    × (te.ref ≡ id)
    × (te.next ≤ now)
    × All (λ y. te.next ≤ y.next) rest
    × (get_elem? s.events id ≡ some e)
    × (e.valid ≡ true)
    × (t ≡ record s { time_events = rest; running = some te })
    × (run_call t ≡ some (e.handler, id))

take_first-IsValid :
    (d : Bool) (es : List TimerData) (te : TimeEvent) (rest : List TimeEvent) (ids : List ℕ)
    → IsValid (timers d es (te ∷ rest) ids none)
    → IsValid (timers d es rest ids (some te))
take_first-IsValid d es te rest ids v = record {
  placed = λ i. omega (arith, v.placed i);
  sorted = v.sorted.1;
  armed = λ i h. v.armed i (omega (arith, h));
  unarmed = v.unarmed;
}

Begins-first :
    (now : ℕ) (es : List TimerData) (l : List TimeEvent) (ids : List ℕ)
    → let s = timers false es l ids none in
      IsValid s
      → (t : Timers) × (a : Action) × (begin_first now l s ≡ some (t, a))
        × IsValid t
        × Begins now s t a
unfolding begin_first run_call
Begins-first now es [] ids v = (timers false es [] ids none, idle, refl, v, (refl, refl, refl))
Begins-first now es (te ∷ rest) ids v = elim (Bool-cases (leb te.next now)) [
  | inl due ↦
      let s = timers false es (te ∷ rest) ids none in
      let one : 0 < count_refs te.ref (te ∷ rest) = ground arith in
      let (e, at, valid) = get_elem?-valid_at te.ref es (ref-lt-length te.ref s v one) in
      (
        timers false es rest ids (some te),
        take te.ref,
        rw due refl,
        take_first-IsValid false es te rest ids v,
        (
          te,
          rest,
          e,
          refl,
          refl,
          refl,
          ground arith,
          v.sorted.0,
          at,
          valid ∙ v.armed te.ref one,
          refl,
          rw at refl,
        ),
      )
  | inr early ↦ (
    timers false es (te ∷ rest) ids none,
    wait_until te.next,
    rw early refl,
    v,
    (te, rest, refl, refl, refl, ground arith, v.sorted.0, refl),
  )
]

-- With no handler running, the worker always begins its round, in a state that stays valid: it
-- ends if it was told to, waits if there is no event, waits until the earliest event if that is not
-- due, and otherwise takes the earliest event, whose timer is a valid one, and calls the handler of
-- this timer, if no other call comes between.
pub run_begin-earliest :
    (now : ℕ) (s : Timers)
    → IsValid s
    → s.running ≡ none
    → (t : Timers) × (a : Action) × (run_begin now s ≡ some (t, a)) × IsValid t × Begins now s t a
unfolding run_begin
run_begin-earliest now s v r = go s.done s.running r v
  where
    go :
        (d : Bool) (o : Option TimeEvent)
        → o ≡ none
        → let s' = timers d s.events s.time_events s.free_ids o in
          IsValid s'
          → (t : Timers) × (a : Action) × (run_begin now s' ≡ some (t, a))
            × IsValid t
            × Begins now s' t a
    go true o e w =
        (timers true s.events s.time_events s.free_ids o, stopped, refl, w, (refl, refl))
    go false none e w = Begins-first now s.events s.time_events s.free_ids w
    go false (some te) e w = cc

reschedule-IsValid :
    (te : TimeEvent) (next : Option ℕ) (d : Bool) (es : List TimerData) (l : List TimeEvent)
    (ids : List ℕ)
    → let s = timers d es l ids (some te) in
      IsValid s → (next ≢ none → valid_at te.ref es ≡ true) → IsValid (reschedule te next s)
unfolding reschedule
reschedule-IsValid te (some n) d es l ids v h =
    let again : TimeEvent = record te { next = n } in
    let on = h (λ e. cc) in
    record {
      placed = λ i. ground (arith, v.placed i, count_refs-insert i again l);
      sorted = insert-IsSorted again l v.sorted;
      armed = λ i k. ground (arith, v.armed i, count_refs-insert i again l);
      unarmed = v.unarmed;
    }
reschedule-IsValid te none d es l ids v h = record {
  placed = λ i. ground (arith, v.placed i, length-set_valid false te.ref es);
  sorted = v.sorted;
  armed = λ i k. ground (arith, v.armed i, v.placed i, valid_at-set_valid i te.ref es);
  unarmed = λ i k. ground (arith, v.unarmed i, valid_at-set_valid i te.ref es);
}

next_time-valid : (e : TimerData) (n : ℕ) → next_time e n ≢ none → e.valid ≡ true
unfolding next_time
next_time-valid e n h = ground arith

abbrev pub is_periodic : ℤ → Bool
is_periodic (pos zero) = false
is_periodic (pos (suc p)) = true
is_periodic (negsuc n) = false

-- What becomes of the timer whose handler has returned.
abbrev pub Ends : TimeEvent → TimerData → Timers → Timers → Type 0
Ends te e s t =
    ((p : ℕ) × (e.valid ≡ true)
      × (e.period ≡ pos p)
      × (0 < p)
      × (t ≡ record s {
        time_events = insert (record te { next = te.next + p }) s.time_events;
        running = none;
      }))
    ⊎ (((e.valid && is_periodic e.period) ≡ false)
        × (t ≡ record s {
          events = set_valid false te.ref s.events;
          free_ids = te.ref ∷ s.free_ids;
          running = none;
        }))

next_time-Ends :
    (te : TimeEvent) (e : TimerData) (s : Timers)
    → Ends te e s (reschedule te (next_time e te.next) s)
unfolding next_time reschedule
next_time-Ends te e s = go e.period e.valid refl refl
  where
    go :
        (p : ℤ) (b : Bool)
        → e.period ≡ p
        → e.valid ≡ b
        → Ends te e s (reschedule te (next_time e te.next) s)
    go (negsuc n) b h k = rw (h, next_time) (inr (ground arith, refl))
    go (pos p) false h k = rw (h, k, next_time) (inr (ground arith, refl))
    go (pos zero) true h k = rw (h, k, next_time) (inr (ground arith, refl))
    go (pos (suc p)) true h k =
        rw (h, k, next_time)
          (let t : ltb 0 (suc p) ≡ true = ground arith in
            rw t (inl (suc p, refl, refl, omega arith, refl)))

run_end_at :
    (d : Bool) (es : List TimerData) (l : List TimeEvent) (ids : List ℕ) (te : TimeEvent)
    → let s = timers d es l ids (some te) in
      IsValid s
      → (e : TimerData) × (t : Timers) × (get_elem? es te.ref ≡ some e)
        × (run_end s ≡ some t)
        × IsValid t
        × Ends te e s t
unfolding run_end end_of
run_end_at d es l ids te v =
    let s = timers d es l ids (some te) in
    let lt : te.ref < length es = ground (arith, v.placed te.ref) in
    let (e, at, valid) = get_elem?-valid_at te.ref es lt in
    (
      e,
      reschedule te (next_time e te.next) s,
      at,
      rw at refl,
      reschedule-IsValid te (next_time e te.next) d es l ids v
          (λ h. sym valid ∙ next_time-valid e te.next h),
      next_time-Ends te e s,
    )

-- Once a handler has returned, the worker always ends its round, in a valid state with no handler
-- running: a timer that is still valid and periodic is in the queue again, at its time and its
-- period, and any other is no longer valid and its id is free.
pub run_end-reschedules :
    (te : TimeEvent) (s : Timers)
    → IsValid s
    → s.running ≡ some te
    → (e : TimerData) × (t : Timers) × (get_elem? s.events te.ref ≡ some e)
      × (run_end s ≡ some t)
      × IsValid t
      × Ends te e s t
run_end-reschedules te s v r =
    subst
      (λ o.
        let s' = timers s.done s.events s.time_events s.free_ids o in
        IsValid s'
        → (e : TimerData) × (t : Timers) × (get_elem? s.events te.ref ≡ some e)
          × (run_end s' ≡ some t)
          × IsValid t
          × Ends te e s' t)
      (sym r) (run_end_at s.done s.events s.time_events s.free_ids te) v

-- One step: a call, or half of a round of the worker, which runs one handler at a time.
pub data Step (s : Timers) : Timers → Type 0 where
  added : (when handler : ℕ) (period : ℤ) → Step s (add when handler period s).0
  removed : (id : ℕ) → Step s (remove id s).0
  told : Step s (stop s)
  begun :
      (now : ℕ) (t : Timers) (a : Action)
      → s.running ≡ none
      → run_begin now s ≡ some (t, a)
      → Step s t
  ended : (te : TimeEvent) (t : Timers) → s.running ≡ some te → run_end s ≡ some t → Step s t

pub data Reach (s : Timers) : Timers → Type 0 where
  here : Reach s s
  next : {t u : Timers} → Reach s t → Step t u → Reach s u

pub Step-IsValid : {s t : Timers} → Step s t → IsValid s → IsValid t
Step-IsValid {s} (added when handler period) v = add-IsValid when handler period s v
Step-IsValid {s} (removed id) v = remove-IsValid id s v
Step-IsValid {s} told v =
    unfold stop in
    record { placed = v.placed; sorted = v.sorted; armed = v.armed; unarmed = v.unarmed }
Step-IsValid {s} (begun now t a r h) v =
    let (u, b, e, w, k) = run_begin-earliest now s v r in
    subst IsValid (ap (λ (x : Timers × Action). x.0) (some-injective (u, b) (t, a) (sym e ∙ h))) w
Step-IsValid {s} (ended te t r h) v =
    let (e, u, at, k, w, x) = run_end-reschedules te s v r in
    subst IsValid (some-injective u t (sym k ∙ h)) w

-- After any sequence of steps on new timers, each id that was given is in exactly one place, the
-- queue of events is ordered, an event in it is of a valid timer, and a free id of an invalid one.
pub Reach-create : {s : Timers} → Reach create s → IsValid s
Reach-create here = create-IsValid
Reach-create (next r s) = Step-IsValid s (Reach-create r)
