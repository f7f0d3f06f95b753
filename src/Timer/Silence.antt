-- ===== src/Timer/Silence.antt =====
-- What `remove` promises: the handler is not called in another round.
use mathlib.Core.Option.{some-injective}
use ashe.Base.{
  ℕ, zero, suc, ◌+◌, ◌<◌, ◌≡◌, ◌≢◌, refl, ap, sym, ◌∙◌, subst, Bool, true, false, List, [], ◌∷◌,
  Option, none, some, inl, inr, leb, ◌==◌, arith, length, get_elem?, Bool-cases, ◌>>=◌,
}
use ashe.Timer.{
  ℤ, TimerData, TimeEvent, Timers, Action, stopped, idle, wait_until, take, claim_id, timer_data,
  add, remove, call_of, run_call, stop,
}
use ashe.Timer.Invariant.{
  IsValid, count_refs, valid_at, count_refs-insert, count_refs-erase, has_ref-count,
  valid_at-set_valid, valid_at-set, valid_at-append,
}
use ashe.Timer.Calls.{remove-IsValid}
use ashe.Timer.Steps.{
  Step, added, removed, told, begun, ended, Step-IsValid, Begins, Ends, run_begin-earliest,
  run_end-reschedules,
}

-- The step does not give the id away again.
abbrev pub Spares : ℕ → {s t : Timers} → Step s t → Type 0
Spares i {s} (added when handler period) = (add when handler period s).1 ≢ i
Spares i (removed id) = Unit
Spares i told = Unit
Spares i (begun now t a r h) = Unit
Spares i (ended te t r h) = Unit

-- Steps none of which gives the id away again.
pub data Spared (i : ℕ) (s : Timers) : Timers → Type 0 where
  here : Spared i s s
  next : {t u : Timers} → Spared i s t → (m : Step t u) → Spares i m → Spared i s u

record Quiet (i : ℕ) (s : Timers) : Type 0 where
  unqueued : count_refs i s.time_events ≡ 0
  invalid : valid_at i s.events ≡ false

remove-Quiet : (id : ℕ) (s : Timers) → IsValid s → id < length s.events → Quiet id (remove id s).0
unfolding remove
remove-Quiet id s v h =
    let t : leb (length s.events) id ≡ false = ground arith in
    rw t (record {
      unqueued = ground (
        arith,
        v.placed id,
        count_refs-erase id id s.time_events,
        has_ref-count id s.time_events,
      );
      invalid = ground (arith, valid_at-set_valid id id s.events);
    })

add-Quiet :
    (i when handler : ℕ) (period : ℤ) (s : Timers)
    → IsValid s
    → (add when handler period s).1 ≢ i
    → Quiet i s
    → Quiet i (add when handler period s).0
unfolding add claim_id
add-Quiet i when handler period s v ne q = go s.free_ids v ne
  where
    go :
        (ids : List ℕ)
        → IsValid (record s { free_ids = ids })
        → (add when handler period (record s { free_ids = ids })).1 ≢ i
        → Quiet i (add when handler period (record s { free_ids = ids })).0
    go [] w ne =
        let te : TimeEvent = record { next = when; ref = length s.events } in
        record {
          unqueued = ground (arith, q.unqueued, count_refs-insert i te s.time_events);
          invalid = ground (
            arith,
            q.invalid,
            valid_at-append i s.events (timer_data when period handler (length s.events)) refl,
          );
        }
    go (id ∷ ids) w ne =
        let te : TimeEvent = record { next = when; ref = id } in
        let lt : id < length s.events = ground (arith, w.placed id) in
        record {
          unqueued = ground (arith, q.unqueued, count_refs-insert i te s.time_events);
          invalid = ground (
            arith,
            q.invalid,
            valid_at-set i id s.events (timer_data when period handler id) lt refl,
          );
        }

remove_other-Quiet : (i id : ℕ) (s : Timers) → Quiet i s → Quiet i (remove id s).0
unfolding remove
remove_other-Quiet i id s q = elim (Bool-cases (leb (length s.events) id)) [
  | inl t ↦ rw t q
  | inr f ↦ rw f (record {
    unqueued = ground (arith, q.unqueued, count_refs-erase i id s.time_events);
    invalid = ground (arith, q.invalid, valid_at-set_valid i id s.events);
  })
]

Begins-Quiet : (i now : ℕ) (s t : Timers) (a : Action) → Begins now s t a → Quiet i s → Quiet i t
Begins-Quiet i now s t stopped b q = subst (Quiet i) (sym b.1) q
Begins-Quiet i now s t idle b q = subst (Quiet i) (sym b.2) q
Begins-Quiet i now s t (wait_until n) b q = subst (Quiet i) (sym b.7) q
Begins-Quiet i now s t (take id) b q =
    subst (Quiet i) (sym b.10)
      (record { unqueued = ground (arith, q.unqueued, ap (count_refs i) b.4); invalid = q.invalid })

get_elem?-invalid :
    (i : ℕ) (es : List TimerData) (e : TimerData)
    → get_elem? es i ≡ some e
    → e.valid ≡ valid_at i es
get_elem?-invalid i [] e h = cc
get_elem?-invalid zero (x ∷ es) e h = ap (λ (y : TimerData). y.valid) (sym (some-injective x e h))
get_elem?-invalid (suc i) (x ∷ es) e h = get_elem?-invalid i es e h

other_timer :
    (i j : ℕ) (es : List TimerData)
    → valid_at j es ≡ true
    → valid_at i es ≡ false
    → (j == i) ≡ false
other_timer i j es h k = elim (Bool-cases (j == i)) [
  | inl t ↦ let e : j ≡ i = ground arith in absurd (ground (arith, ap (λ x. valid_at x es) e))
  | inr f ↦ f
]

Ends-Quiet :
    (i : ℕ) (te : TimeEvent) (e : TimerData) (s t : Timers)
    → get_elem? s.events te.ref ≡ some e
    → Ends te e s t
    → Quiet i s
    → Quiet i t
Ends-Quiet i te e s t at (inl (p, valid, period, pos, k)) q =
    let there = get_elem?-invalid te.ref s.events e at in
    let other : (te.ref == i) ≡ false =
      other_timer i te.ref s.events (sym there ∙ valid) q.invalid in
    subst (Quiet i) (sym k) (record {
      unqueued =
          ground (
            arith,
            q.unqueued,
            count_refs-insert i (record te { next = te.next + p }) s.time_events,
          );
      invalid = q.invalid;
    })
Ends-Quiet i te e s t at (inr (out, k)) q = subst (Quiet i) (sym k) (record {
  unqueued = q.unqueued;
  invalid = ground (arith, q.invalid, valid_at-set_valid i te.ref s.events);
})

Step-Quiet : (i : ℕ) {s t : Timers} (m : Step s t) → IsValid s → Spares i m → Quiet i s → Quiet i t
Step-Quiet i {s} (added when handler period) v ne q = add-Quiet i when handler period s v ne q
Step-Quiet i {s} (removed id) v ne q = remove_other-Quiet i id s q
Step-Quiet i told v ne q = unfold stop in record { unqueued = q.unqueued; invalid = q.invalid }
Step-Quiet i {s} (begun now t a r h) v ne q =
    let (u, b, e, w, k) = run_begin-earliest now s v r in
    subst (λ (x : Timers × Action). Quiet i x.0) (some-injective (u, b) (t, a) (sym e ∙ h))
      (Begins-Quiet i now s u b k q)
Step-Quiet i {s} (ended te t r h) v ne q =
    let (e, u, at, k, w, x) = run_end-reschedules te s v r in
    subst (Quiet i) (some-injective u t (sym k ∙ h)) (Ends-Quiet i te e s u at x q)

Spared-Quiet : (i : ℕ) {s t : Timers} → Spared i s t → IsValid s → Quiet i s → IsValid t × Quiet i t
Spared-Quiet i here v q = (v, q)
Spared-Quiet i (next r m ne) v q =
    let (w, p) = Spared-Quiet i r v q in (Step-IsValid m w, Step-Quiet i m w ne p)

-- Whether the worker has an event of this id, that is between the halves of a round for it.
abbrev pub has_taken : ℕ → Option TimeEvent → Bool
has_taken i none = false
has_taken i (some te) = te.ref == i

Begins-has_taken :
    (i now : ℕ) (s t : Timers) (a : Action)
    → Begins now s t a
    → Quiet i s
    → has_taken i s.running ≡ false
    → has_taken i t.running ≡ false
Begins-has_taken i now s t stopped b q h = ap (λ (x : Timers). has_taken i x.running) b.1 ∙ h
Begins-has_taken i now s t idle b q h = ap (λ (x : Timers). has_taken i x.running) b.2 ∙ h
Begins-has_taken i now s t (wait_until n) b q h = ap (λ (x : Timers). has_taken i x.running) b.7 ∙ h
Begins-has_taken i now s t (take id) b q h =
    let other : (b.0.ref == i) ≡ false = ground (arith, q.unqueued, ap (count_refs i) b.4) in
    ap (λ (x : Timers). has_taken i x.running) b.10 ∙ other

Ends-has_taken :
    (i : ℕ) (te : TimeEvent) (e : TimerData) (s t : Timers)
    → Ends te e s t
    → has_taken i t.running ≡ false
Ends-has_taken i te e s t (inl (p, valid, period, pos, k)) =
    ap (λ (x : Timers). has_taken i x.running) k
Ends-has_taken i te e s t (inr (out, k)) = ap (λ (x : Timers). has_taken i x.running) k

running-remove : (id : ℕ) (s : Timers) → (remove id s).0.running ≡ s.running
unfolding remove
running-remove id s = elim (Bool-cases (leb (length s.events) id)) [
  | inl t ↦ rw t refl
  | inr f ↦ rw f refl
]

Step-has_taken :
    (i : ℕ) {s t : Timers}
    → Step s t
    → IsValid s
    → Quiet i s
    → has_taken i s.running ≡ false
    → has_taken i t.running ≡ false
Step-has_taken i {s} (added when handler period) v q h = unfold add in h
Step-has_taken i {s} (removed id) v q h = ap (has_taken i) (running-remove id s) ∙ h
Step-has_taken i told v q h = unfold stop in h
Step-has_taken i {s} (begun now t a r e) v q h =
    let (u, b, f, w, k) = run_begin-earliest now s v r in
    subst (λ (x : Timers × Action). has_taken i x.0.running ≡ false)
      (some-injective (u, b) (t, a) (sym f ∙ e)) (Begins-has_taken i now s u b k q h)
Step-has_taken i {s} (ended te t r e) v q h =
    let (d, u, at, k, w, x) = run_end-reschedules te s v r in
    subst (λ (y : Timers). has_taken i y.running ≡ false) (some-injective u t (sym k ∙ e))
      (Ends-has_taken i te d s u x)

Spared-has_taken :
    (i : ℕ) {s t : Timers}
    → Spared i s t
    → IsValid s
    → Quiet i s
    → has_taken i s.running ≡ false
    → has_taken i t.running ≡ false
Spared-has_taken i here v q h = h
Spared-has_taken i (next r m ne) v q h =
    let (w, p) = Spared-Quiet i r v q in Step-has_taken i m w p (Spared-has_taken i r v q h)

not_called :
    (id handler : ℕ) (running : Option TimeEvent) (events : List TimerData)
    → has_taken id running ≡ false
    → call_of running events ≢ some (handler, id)
unfolding call_of
not_called id handler none events h e = cc e
not_called id handler (some te) events h e = go (get_elem? events te.ref) e
  where
    called : TimerData → Option (ℕ × ℕ)
    called d = some (d.handler, te.ref)

    go : (o : Option TimerData) → (o >>= called) ≢ some (handler, id)
    go none f = cc f
    go (some d) f =
        let same : te.ref ≡ id =
          ap (λ (x : ℕ × ℕ). x.1) (some-injective (d.handler, te.ref) (handler, id) f) in
        ground (arith, same, h)

-- After a timer was removed, whatever calls and rounds follow until its id is given to a new timer:
-- from any point on at which the worker is not in a round for its id, no handler is called with this
-- id. Where the worker is in no such round when the timer is removed, that point may be the removal;
-- otherwise, as where a handler removes its own timer, the round that goes on may call the handler.
pub remove-silent :
    (id : ℕ) (s m t : Timers) (handler : ℕ)
    → IsValid s
    → id < length s.events
    → Spared id (remove id s).0 m
    → has_taken id m.running ≡ false
    → Spared id m t
    → run_call t ≢ some (handler, id)
unfolding run_call
remove-silent id s m t handler v lt path free later =
    let (w, q) = Spared-Quiet id path (remove-IsValid id s v) (remove-Quiet id s v lt) in
    not_called id handler t.running t.events (Spared-has_taken id later w q free)
