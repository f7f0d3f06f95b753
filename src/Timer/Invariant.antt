-- ===== src/Timer/Invariant.antt =====
-- The invariant of the timers: each id that was ever given stands in one place, the free ids, the
-- queue of events or the worker's hand; the queue is ordered by time.
use ashe.Base.{
  ℕ, zero, suc, ◌+◌, ◌≤◌, ◌<◌, ◌≡◌, refl, Bool, true, false, ◌&&◌, List, [], ◌∷◌, ◌++◌, Option,
  none, some, ltb, ◌==◌, if◌then◌else◌, arith, length, set, All, one_if, count, Bool-cases, inl,
  inr,
}
use ashe.Timer.{TimerData, TimeEvent, Timers, insert, has_ref, erase, set_valid}

abbrev pub count_refs : ℕ → List TimeEvent → ℕ
count_refs i [] = 0
count_refs i (x ∷ xs) = one_if (x.ref == i) + count_refs i xs

abbrev pub count_running : ℕ → Option TimeEvent → ℕ
count_running i none = 0
count_running i (some te) = one_if (te.ref == i)

abbrev pub valid_at : ℕ → List TimerData → Bool
valid_at i [] = false
valid_at zero (e ∷ es) = e.valid
valid_at (suc i) (e ∷ es) = valid_at i es

-- No event is earlier than the one before it.
abbrev pub IsSorted : List TimeEvent → Type 0
IsSorted [] = Unit
IsSorted (x ∷ xs) = All (λ y. x.next ≤ y.next) xs × IsSorted xs

pub record IsValid (s : Timers) : Type 0 where
  pub placed :
      (i : ℕ)
      → count i s.free_ids + count_refs i s.time_events + count_running i s.running
        ≡ one_if (ltb i (length s.events))
  pub sorted : IsSorted s.time_events
  pub armed : (i : ℕ) → 0 < count_refs i s.time_events → valid_at i s.events ≡ true
  pub unarmed : (i : ℕ) → 0 < count i s.free_ids → valid_at i s.events ≡ false

pub count_refs-insert :
    (i : ℕ) (te : TimeEvent) (l : List TimeEvent)
    → count_refs i (insert te l) ≡ one_if (te.ref == i) + count_refs i l
unfolding insert
count_refs-insert i te [] = omega arith
count_refs-insert i te (x ∷ xs) = ground (arith, count_refs-insert i te xs)

later : (t u : ℕ) (l : List TimeEvent) → t ≤ u → All (λ y. u ≤ y.next) l → All (λ y. t ≤ y.next) l
later t u [] h a = tt
later t u (x ∷ xs) h a = (omega (arith, a.0), later t u xs h a.1)

All-insert :
    (t : ℕ) (te : TimeEvent) (l : List TimeEvent)
    → t ≤ te.next
    → All (λ y. t ≤ y.next) l
    → All (λ y. t ≤ y.next) (insert te l)
unfolding insert
All-insert t te [] h a = (h, tt)
All-insert t te (x ∷ xs) h a = elim (Bool-cases (ltb te.next x.next)) [
  | inl e ↦ rw e (h, (a.0, a.1))
  | inr e ↦ rw e (a.0, All-insert t te xs h a.1)
]

pub insert-IsSorted : (te : TimeEvent) (l : List TimeEvent) → IsSorted l → IsSorted (insert te l)
unfolding insert
insert-IsSorted te [] s = (tt, tt)
insert-IsSorted te (x ∷ xs) s = elim (Bool-cases (ltb te.next x.next)) [
  | inl e ↦ rw e ((ground arith, later te.next x.next xs (ground arith) s.0), (s.0, s.1))
  | inr e ↦ rw e (All-insert x.next te xs (ground arith) s.0, insert-IsSorted te xs s.1)
]

pub count_refs-erase :
    (i id : ℕ) (l : List TimeEvent)
    → count_refs i (erase id l) + one_if (has_ref id l && id == i) ≡ count_refs i l
unfolding erase has_ref
count_refs-erase i id [] = omega arith
count_refs-erase i id (x ∷ xs) = ground (arith, count_refs-erase i id xs)

pub has_ref-count : (id : ℕ) (l : List TimeEvent) → has_ref id l ≡ ltb 0 (count_refs id l)
unfolding has_ref
has_ref-count id [] = refl
has_ref-count id (x ∷ xs) = ground (arith, has_ref-count id xs)

All-erase :
    (t id : ℕ) (l : List TimeEvent) → All (λ y. t ≤ y.next) l → All (λ y. t ≤ y.next) (erase id l)
unfolding erase
All-erase t id [] a = tt
All-erase t id (x ∷ xs) a = elim (Bool-cases (x.ref == id)) [
  | inl e ↦ rw e a.1
  | inr e ↦ rw e (a.0, All-erase t id xs a.1)
]

pub erase-IsSorted : (id : ℕ) (l : List TimeEvent) → IsSorted l → IsSorted (erase id l)
unfolding erase
erase-IsSorted id [] s = tt
erase-IsSorted id (x ∷ xs) s = elim (Bool-cases (x.ref == id)) [
  | inl e ↦ rw e s.1
  | inr e ↦ rw e (All-erase x.next id xs s.0, erase-IsSorted id xs s.1)
]

pub length-set_valid :
    (b : Bool) (id : ℕ) (es : List TimerData) → length (set_valid b id es) ≡ length es
unfolding set_valid
length-set_valid b id [] = refl
length-set_valid b zero (e ∷ es) = refl
length-set_valid b (suc id) (e ∷ es) = omega (arith, length-set_valid b id es)

pub valid_at-set_valid :
    (i id : ℕ) (es : List TimerData)
    → valid_at i (set_valid false id es) ≡ (if i == id then false else valid_at i es)
unfolding set_valid
valid_at-set_valid i id [] = ground arith
valid_at-set_valid zero zero (e ∷ es) = ground arith
valid_at-set_valid (suc i) zero (e ∷ es) = ground arith
valid_at-set_valid zero (suc id) (e ∷ es) = ground arith
valid_at-set_valid (suc i) (suc id) (e ∷ es) = ground (arith, valid_at-set_valid i id es)

pub length-set : (es : List TimerData) (id : ℕ) (e : TimerData) → length (set es id e) ≡ length es
length-set [] id e = refl
length-set (x ∷ es) zero e = refl
length-set (x ∷ es) (suc id) e = omega (arith, length-set es id e)

pub valid_at-set :
    (i id : ℕ) (es : List TimerData) (e : TimerData)
    → id < length es
    → e.valid ≡ true
    → valid_at i (set es id e) ≡ (if i == id then true else valid_at i es)
valid_at-set i id [] e h v = absurd (omega arith)
valid_at-set zero zero (x ∷ es) e h v = ground arith
valid_at-set (suc i) zero (x ∷ es) e h v = ground arith
valid_at-set zero (suc id) (x ∷ es) e h v = ground arith
valid_at-set (suc i) (suc id) (x ∷ es) e h v = ground (arith, valid_at-set i id es e)

pub valid_at-append :
    (i : ℕ) (es : List TimerData) (e : TimerData)
    → e.valid ≡ true
    → valid_at i (es ++ e ∷ []) ≡ (if i == length es then true else valid_at i es)
valid_at-append zero [] e v = ground arith
valid_at-append (suc i) [] e v = ground arith
valid_at-append zero (x ∷ es) e v = ground arith
valid_at-append (suc i) (x ∷ es) e v = ground (arith, valid_at-append i es e)
