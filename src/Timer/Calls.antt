-- ===== src/Timer/Calls.antt =====
-- The calls of src/timer_manager.cpp keep the valid states valid.
use ashe.Base.{
  ℕ, zero, suc, ◌<◌, ◌≡◌, refl, Bool, false, List, [], ◌∷◌, Option, some, leb, arith, length,
  get_elem?, length-append, Bool-cases, inl, inr,
}
use ashe.Timer.{ℤ, TimerData, TimeEvent, Timers, create, claim_id, timer_data, add, remove}
use ashe.Timer.Invariant.{
  IsValid, count_refs, valid_at, count_refs-insert, insert-IsSorted, count_refs-erase,
  has_ref-count, erase-IsSorted, length-set_valid, valid_at-set_valid, length-set, valid_at-set,
  valid_at-append,
}

abbrev pub timers : Bool → List TimerData → List TimeEvent → List ℕ → Option TimeEvent → Timers
timers d es l ids r = record { done = d; events = es; time_events = l; free_ids = ids; running = r }

pub create-IsValid : IsValid create
unfolding create
create-IsValid = record {
  placed = λ i. ground arith;
  sorted = tt;
  armed = λ i h. absurd (omega arith);
  unarmed = λ i h. absurd (omega arith);
}

pub add-IsValid :
    (when handler : ℕ) (period : ℤ) (s : Timers) → IsValid s → IsValid (add when handler period s).0
unfolding add claim_id
add-IsValid when handler period s v = go s.free_ids s.events v
  where
    go :
        (ids : List ℕ) (es : List TimerData)
        → IsValid (timers s.done es s.time_events ids s.running)
        → IsValid (add when handler period (timers s.done es s.time_events ids s.running)).0
    go [] es v =
        let te : TimeEvent = record { next = when; ref = length es } in
        let e = timer_data when period handler (length es) in
        record {
          placed = λ i.
              ground (
                arith,
                v.placed i,
                count_refs-insert i te s.time_events,
                length-append es (e ∷ []),
              );
          sorted = insert-IsSorted te s.time_events v.sorted;
          armed = λ i h.
              ground (
                arith,
                v.armed i,
                count_refs-insert i te s.time_events,
                valid_at-append i es e refl,
              );
          unarmed = λ i h. absurd (omega arith);
        }
    go (id ∷ ids) es v =
        let te : TimeEvent = record { next = when; ref = id } in
        let e = timer_data when period handler id in
        let lt : id < length es = ground (arith, v.placed id) in
        record {
          placed = λ i.
              ground (arith, v.placed i, count_refs-insert i te s.time_events, length-set es id e);
          sorted = insert-IsSorted te s.time_events v.sorted;
          armed = λ i h. ground (
            arith,
            v.armed i,
            count_refs-insert i te s.time_events,
            valid_at-set i id es e lt refl,
          );
          unarmed = λ i h. ground (arith, v.placed i, v.unarmed i, valid_at-set i id es e lt refl);
        }

pub remove-IsValid : (id : ℕ) (s : Timers) → IsValid s → IsValid (remove id s).0
unfolding remove
remove-IsValid id s v = elim (Bool-cases (leb (length s.events) id)) [
  | inl t ↦ rw t v
  | inr f ↦ rw f (record {
    placed = λ i. ground (
      arith,
      v.placed i,
      count_refs-erase i id s.time_events,
      length-set_valid false id s.events,
    );
    sorted = erase-IsSorted id s.time_events v.sorted;
    armed = λ i h. ground (
      arith,
      v.armed i,
      v.placed i,
      count_refs-erase i id s.time_events,
      has_ref-count id s.time_events,
      valid_at-set_valid i id s.events,
    );
    unarmed = λ i h. ground (arith, v.unarmed i, valid_at-set_valid i id s.events);
  })
]

-- The timer at an index, where there is one.
pub get_elem?-valid_at :
    (i : ℕ) (es : List TimerData)
    → i < length es
    → (e : TimerData) × (get_elem? es i ≡ some e) × (e.valid ≡ valid_at i es)
get_elem?-valid_at i [] h = absurd (omega arith)
get_elem?-valid_at zero (e ∷ es) h = (e, refl, refl)
get_elem?-valid_at (suc i) (e ∷ es) h = get_elem?-valid_at i es (omega arith)

pub ref-lt-length :
    (i : ℕ) (s : Timers) → IsValid s → 0 < count_refs i s.time_events → i < length s.events
ref-lt-length i s v h = ground (arith, v.placed i)
