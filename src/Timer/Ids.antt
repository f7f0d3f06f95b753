-- ===== src/Timer/Ids.antt =====
-- The ids that `add` gives.
use ashe.Base.{
  ℕ, zero, suc, ◌<◌, ◌≡◌, ◌≢◌, refl, List, [], ◌∷◌, ◌++◌, some, arith, length, get_elem?, set,
}
use ashe.Timer.{ℤ, TimerData, TimeEvent, Timers, claim_id, timer_data, add}
use ashe.Timer.Invariant.{IsValid, count_refs, count_running, count_refs-insert}

get_elem?-append :
    (j : ℕ) (es : List TimerData) (e : TimerData)
    → j ≢ length es
    → get_elem? (es ++ e ∷ []) j ≡ get_elem? es j
get_elem?-append zero [] e h = absurd (h refl)
get_elem?-append (suc j) [] e h = refl
get_elem?-append zero (x ∷ es) e h = refl
get_elem?-append (suc j) (x ∷ es) e h = get_elem?-append j es e (λ k. h (omega (arith, k)))

get_elem?-append_end :
    (es : List TimerData) (e : TimerData) → get_elem? (es ++ e ∷ []) (length es) ≡ some e
get_elem?-append_end [] e = refl
get_elem?-append_end (x ∷ es) e = get_elem?-append_end es e

get_elem?-set :
    (j i : ℕ) (es : List TimerData) (e : TimerData)
    → j ≢ i
    → get_elem? (set es i e) j ≡ get_elem? es j
get_elem?-set j i [] e h = refl
get_elem?-set zero zero (x ∷ es) e h = absurd (h refl)
get_elem?-set (suc j) zero (x ∷ es) e h = refl
get_elem?-set zero (suc i) (x ∷ es) e h = refl
get_elem?-set (suc j) (suc i) (x ∷ es) e h = get_elem?-set j i es e (λ k. h (omega (arith, k)))

get_elem?-set_self :
    (i : ℕ) (es : List TimerData) (e : TimerData)
    → i < length es
    → get_elem? (set es i e) i ≡ some e
get_elem?-set_self i [] e h = absurd (omega arith)
get_elem?-set_self zero (x ∷ es) e h = refl
get_elem?-set_self (suc i) (x ∷ es) e h = get_elem?-set_self i es e (omega arith)

-- In a valid state, `add` gives an id that no event in the queue and no running handler has; the
-- new timer stands at it, with one event; the other timers, and how many events each has, stay.
add_fresh :
    (when handler : ℕ) (period : ℤ) (s : Timers)
    → IsValid s
    → let t = (add when handler period s).0 in
      let id = (add when handler period s).1 in
      (count_refs id s.time_events ≡ 0)
      × (count_running id s.running ≡ 0)
      × (get_elem? t.events id ≡ some (timer_data when period handler id))
      × (count_refs id t.time_events ≡ 1)
      × ((j : ℕ)
          → j ≢ id
          → (get_elem? t.events j ≡ get_elem? s.events j)
            × (count_refs j t.time_events ≡ count_refs j s.time_events))
unfolding add claim_id
add_fresh when handler period s v = go s.free_ids v
  where
    go :
        (ids : List ℕ)
        → let s' = record s { free_ids = ids } in
          IsValid s'
          → let t = (add when handler period s').0 in
            let id = (add when handler period s').1 in
            (count_refs id s.time_events ≡ 0)
            × (count_running id s.running ≡ 0)
            × (get_elem? t.events id ≡ some (timer_data when period handler id))
            × (count_refs id t.time_events ≡ 1)
            × ((j : ℕ)
                → j ≢ id
                → (get_elem? t.events j ≡ get_elem? s.events j)
                  × (count_refs j t.time_events ≡ count_refs j s.time_events))
    go [] w =
        let n = length s.events in
        let te : TimeEvent = record { next = when; ref = n } in
        let e = timer_data when period handler n in
        (
          ground (arith, w.placed n),
          ground (arith, w.placed n),
          get_elem?-append_end s.events e,
          ground (arith, w.placed n, count_refs-insert n te s.time_events),
          λ j h. (
            get_elem?-append j s.events e h,
            ground (arith, count_refs-insert j te s.time_events),
          ),
        )
    go (id ∷ ids) w =
        let te : TimeEvent = record { next = when; ref = id } in
        let e = timer_data when period handler id in
        (
          ground (arith, w.placed id),
          ground (arith, w.placed id),
          get_elem?-set_self id s.events e (ground (arith, w.placed id)),
          ground (arith, w.placed id, count_refs-insert id te s.time_events),
          λ j h. (
            get_elem?-set j id s.events e h,
            ground (arith, count_refs-insert j te s.time_events),
          ),
        )
