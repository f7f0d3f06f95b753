-- ===== src/ThreadPool/Served.antt =====
-- What holds of the thread pool of src/thread_pool.cpp after any steps: no task is lost, none is
-- forgotten while a worker waits, and workers leave only at the end.
use ashe.Base.{
  ℕ, zero, suc, ◌+◌, ◌≤◌, ◌<◌, ◌≡◌, refl, ap, sym, subst, ◌∙◌, Bool, true, false, List, [], ◌∷◌,
  ◌++◌, append_assoc, some, ◌==◌, if◌then◌else◌, map, replicate, length, arith,
}
use mathlib.Core.Option.{some-injective}
use ashe.ThreadPool.{
  ThreadPool, Worker, blocked, ready, fetched, busy, left, tally, is_blocked, create, enqueue, turn,
  stop_pool, World, begin, put, fetched_by, wake, notify_all, Move, turns, calls, finishes, Step,
  moves, puts, notifies, notifies_none, wakes, stops, tells, Reach, begins, after,
}

abbrev pub is_ready : Worker → ℕ
is_ready ready = 1
is_ready v = 0

abbrev pub is_left : Worker → ℕ
is_left left = 1
is_left v = 0

abbrev pub count : ℕ → List ℕ → ℕ
count t [] = 0
count t (u ∷ us) = (if u == t then 1 else 0) + count t us

-- Whether a worker has this task and has not called it.
abbrev pub holds : ℕ → Worker → ℕ
holds t (fetched u) = if u == t then 1 else 0
holds t v = 0

pub record IsServed (w : World) : Type 0 where
  pub in_order : w.accepted ≡ w.fetches ++ w.pool.tasks
  pub each : (t : ℕ) → count t w.fetches ≡ count t w.started + tally (holds t) w.workers
  -- While a worker waits unasked, each task has a worker at the lock or a call to come.
  pub awake :
      0 < tally is_blocked w.workers → length w.pool.tasks ≤ tally is_ready w.workers + w.notices
  pub at_end : 0 < tally is_left w.workers → (w.pool.stop ≡ true) × (w.pool.tasks ≡ [])
  pub all_told : w.told ≡ true → (w.pool.stop ≡ true) × (tally is_blocked w.workers ≡ 0)

pub tally-append :
    (f : Worker → ℕ) (xs ys : List Worker) → tally f xs + tally f ys ≡ tally f (xs ++ ys)
tally-append f [] ys = omega arith
tally-append f (x ∷ xs) ys = let behind = tally-append f xs ys in omega (arith, behind)

-- One worker of the row, another in its place.
pub tally-swap :
    (f : Worker → ℕ) (ws xs ys : List Worker) (u v : Worker)
    → ws ≡ xs ++ u ∷ ys
    → tally f (xs ++ v ∷ ys) + f u ≡ tally f ws + f v
tally-swap f ws xs ys u v e =
    rw e (omega (arith, tally-append f xs (u ∷ ys), tally-append f xs (v ∷ ys)))

-- What a worker's turn does.
pub data Turned : ThreadPool → ThreadPool → Worker → Type 0 where
  waits : Turned (record { tasks = []; stop = false }) (record { tasks = []; stop = false }) blocked
  leaves : Turned (record { tasks = []; stop = true }) (record { tasks = []; stop = true }) left
  takes :
      (t : ℕ) (ts : List ℕ) (s : Bool)
      → Turned (record { tasks = t ∷ ts; stop = s }) (record { tasks = ts; stop = s }) (fetched t)

pub turn-some :
    (p : ThreadPool) → (q : ThreadPool) × (v : Worker) × (turn p ≡ some (q, v)) × Turned p q v
unfolding turn
turn-some p = go p.tasks p.stop
  where
    go :
        (ts : List ℕ) (s : Bool)
        → (q : ThreadPool) × (v : Worker) × (turn (record { tasks = ts; stop = s }) ≡ some (q, v))
          × Turned (record { tasks = ts; stop = s }) q v
    go [] false = (record { tasks = []; stop = false }, blocked, refl, waits)
    go [] true = (record { tasks = []; stop = true }, left, refl, leaves)
    go (t ∷ ts) false = (record { tasks = ts; stop = false }, fetched t, refl, takes t ts false)
    go (t ∷ ts) true = (record { tasks = ts; stop = true }, fetched t, refl, takes t ts true)

pub turn-Turned : (p q : ThreadPool) (v : Worker) → turn p ≡ some (q, v) → Turned p q v
turn-Turned p q v e =
    let (q', v', e', turned) = turn-some p in
    subst (λ (o : ThreadPool × Worker). Turned p o.0 o.1)
      (some-injective (q', v') (q, v) (sym e' ∙ e)) turned

Turned-in_order :
    (p q : ThreadPool) (v : Worker) (accepted fetches : List ℕ)
    → Turned p q v
    → accepted ≡ fetches ++ p.tasks
    → accepted ≡ fetched_by v fetches ++ q.tasks
Turned-in_order p q v accepted fetches waits e = e
Turned-in_order p q v accepted fetches leaves e = e
Turned-in_order p q v accepted fetches (takes t ts s) e = e ∙ sym (append_assoc fetches (t ∷ []) ts)

count-snoc : (t u : ℕ) (us : List ℕ) → count t (us ++ u ∷ []) ≡ count t us + holds t (fetched u)
count-snoc t u [] = omega arith
count-snoc t u (x ∷ us) = omega (arith, count-snoc t u us)

fetched_by-count :
    (t : ℕ) (v : Worker) (us : List ℕ) → count t (fetched_by v us) ≡ count t us + holds t v
fetched_by-count t blocked us = omega arith
fetched_by-count t ready us = omega arith
fetched_by-count t (fetched u) us = count-snoc t u us
fetched_by-count t (busy u) us = omega arith
fetched_by-count t left us = omega arith

Turned-awake :
    (p q : ThreadPool) (v : Worker) (b b' r r' n : ℕ)
    → Turned p q v
    → b' ≡ b + is_blocked v
    → r' + 1 ≡ r + is_ready v
    → (0 < b → length p.tasks ≤ r + n)
    → 0 < b'
    → length q.tasks ≤ r' + n
Turned-awake p q v b b' r r' n waits eb er old some_b = omega arith
Turned-awake p q v b b' r r' n leaves eb er old some_b = omega arith
Turned-awake p q v b b' r r' n (takes t ts s) eb er old some_b =
    let before = old (omega (arith, eb, some_b)) in omega (arith, er, before)

Turned-at_end :
    (p q : ThreadPool) (v : Worker) (l l' : ℕ)
    → Turned p q v
    → l' ≡ l + is_left v
    → (0 < l → (p.stop ≡ true) × (p.tasks ≡ []))
    → 0 < l'
    → (q.stop ≡ true) × (q.tasks ≡ [])
Turned-at_end p q v l l' waits e old some_l = old (omega (arith, e, some_l))
Turned-at_end p q v l l' leaves e old some_l = (refl, refl)
Turned-at_end p q v l l' (takes t ts s) e old some_l =
    let none_left = (old (omega (arith, e, some_l))).1 in cc none_left

Turned-all_told :
    (p q : ThreadPool) (v : Worker) (b b' : ℕ)
    → Turned p q v
    → b' ≡ b + is_blocked v
    → (p.stop ≡ true) × (b ≡ 0)
    → (q.stop ≡ true) × (b' ≡ 0)
Turned-all_told p q v b b' waits e (stopped, none_b) = cc stopped
Turned-all_told p q v b b' leaves e (stopped, none_b) = (stopped, omega (arith, e, none_b))
Turned-all_told p q v b b' (takes t ts s) e (stopped, none_b) = (stopped, omega (arith, e, none_b))

Move-IsServed : (w u : World) → Move w u → IsServed w → IsServed u
Move-IsServed m u (turns w xs ys p v at here) s =
    let turned = turn-Turned w.pool p v here in
    let swap = λ (f : Worker → ℕ). tally-swap f w.workers xs ys ready v at in
    record {
      in_order = Turned-in_order w.pool p v w.accepted w.fetches turned s.in_order;
      each = λ t. omega (arith, s.each t, fetched_by-count t v w.fetches, swap (holds t));
      awake =
          Turned-awake w.pool p v (tally is_blocked w.workers) (tally is_blocked (xs ++ v ∷ ys))
            (tally is_ready w.workers) (tally is_ready (xs ++ v ∷ ys)) w.notices turned
            (omega (arith, swap is_blocked)) (omega (arith, swap is_ready)) s.awake;
      at_end =
          Turned-at_end w.pool p v (tally is_left w.workers) (tally is_left (xs ++ v ∷ ys)) turned
            (omega (arith, swap is_left)) s.at_end;
      all_told = λ told.
          Turned-all_told w.pool p v (tally is_blocked w.workers) (tally is_blocked (xs ++ v ∷ ys))
            turned (omega (arith, swap is_blocked)) (s.all_told told);
    }
Move-IsServed m u (calls w xs ys t at) s =
    let swap = λ (f : Worker → ℕ). tally-swap f w.workers xs ys (fetched t) (busy t) at in
    record {
      in_order = s.in_order;
      each = λ k. omega (arith, s.each k, count-snoc k t w.started, swap (holds k));
      awake = λ b. omega (arith, s.awake (omega (arith, b, swap is_blocked)), swap is_ready);
      at_end = λ l. s.at_end (omega (arith, l, swap is_left));
      all_told = λ told. ((s.all_told told).0, omega (arith, (s.all_told told).1, swap is_blocked));
    }
Move-IsServed m u (finishes w xs ys t at) s =
    let swap = λ (f : Worker → ℕ). tally-swap f w.workers xs ys (busy t) ready at in
    record {
      in_order = s.in_order;
      each = λ k. omega (arith, s.each k, swap (holds k));
      awake = λ b. omega (arith, s.awake (omega (arith, b, swap is_blocked)), swap is_ready);
      at_end = λ l. s.at_end (omega (arith, l, swap is_left));
      all_told = λ told. ((s.all_told told).0, omega (arith, (s.all_told told).1, swap is_blocked));
    }

-- A worker comes out of its wait.
woken-IsServed :
    (w : World) (n : ℕ) (xs ys : List Worker)
    → w.notices ≤ suc n
    → w.workers ≡ xs ++ blocked ∷ ys
    → IsServed w
    → IsServed (record w { notices = n; workers = xs ++ ready ∷ ys })
woken-IsServed w n xs ys few at s =
    let swap = λ (f : Worker → ℕ). tally-swap f w.workers xs ys blocked ready at in
    record {
      in_order = s.in_order;
      each = λ k. omega (arith, s.each k, swap (holds k));
      awake = λ b. omega (arith, few, s.awake (omega (arith, b, swap is_blocked)), swap is_ready);
      at_end = λ l. s.at_end (omega (arith, l, swap is_left));
      all_told = λ told. ((s.all_told told).0, omega (arith, (s.all_told told).1, swap is_blocked));
    }

tally-wake :
    (vs : List Worker)
    → (tally is_blocked (map wake vs) ≡ 0) × (tally is_left (map wake vs) ≡ tally is_left vs)
tally-wake [] = (refl, refl)
tally-wake (blocked ∷ vs) = let (b, l) = tally-wake vs in (omega (arith, b), omega (arith, l))
tally-wake (ready ∷ vs) = let (b, l) = tally-wake vs in (omega (arith, b), omega (arith, l))
tally-wake (fetched t ∷ vs) = let (b, l) = tally-wake vs in (omega (arith, b), omega (arith, l))
tally-wake (busy t ∷ vs) = let (b, l) = tally-wake vs in (omega (arith, b), omega (arith, l))
tally-wake (left ∷ vs) = let (b, l) = tally-wake vs in (omega (arith, b), omega (arith, l))

length-snoc : (ts : List ℕ) (t : ℕ) → length (ts ++ t ∷ []) ≡ length ts + 1
length-snoc [] t = refl
length-snoc (u ∷ ts) t = omega (arith, length-snoc ts t)

wake-holds : (t : ℕ) (vs : List Worker) → tally (holds t) (map wake vs) ≡ tally (holds t) vs
wake-holds t [] = refl
wake-holds t (blocked ∷ vs) = omega (arith, wake-holds t vs)
wake-holds t (ready ∷ vs) = omega (arith, wake-holds t vs)
wake-holds t (fetched u ∷ vs) = omega (arith, wake-holds t vs)
wake-holds t (busy u ∷ vs) = omega (arith, wake-holds t vs)
wake-holds t (left ∷ vs) = omega (arith, wake-holds t vs)

put-IsServed : (w : World) (t : ℕ) → IsServed w → IsServed (put t w)
unfolding put enqueue
put-IsServed w t s =
    elim w.pool.stop as (λ b. w.pool.stop ≡ b → IsServed (put t w)) [
      | true ↦ λ e. record {
        in_order = rw e s.in_order;
        each = s.each;
        awake = λ b. rw e (omega (arith, s.awake b));
        at_end = λ l. simp e (refl, (s.at_end l).1);
        all_told = λ told. simp e (refl, (s.all_told told).1);
      }
      | false ↦ λ e. record {
        in_order =
            rw e (ap (λ l. l ++ t ∷ []) s.in_order ∙ append_assoc w.fetches w.pool.tasks (t ∷ []));
        each = s.each;
        awake = λ b. rw e (omega (arith, s.awake b, length-snoc w.pool.tasks t));
        at_end = λ l. cc ((sym e ∙ (s.at_end l).0));
        all_told = λ told. cc ((sym e ∙ (s.all_told told).0));
      }
    ]
      refl

Step-IsServed : (w u : World) → Step w u → IsServed w → IsServed u
unfolding stop_pool notify_all
Step-IsServed w u (moves m n move) s = Move-IsServed m n move s
Step-IsServed m u (puts w t) s = put-IsServed w t s
Step-IsServed m u (notifies w n xs ys e at) s = woken-IsServed w n xs ys (omega (arith, e)) at s
Step-IsServed m u (notifies_none w n e none_b) s = record {
  in_order = s.in_order;
  each = s.each;
  awake = λ b. omega (arith, b, none_b);
  at_end = s.at_end;
  all_told = s.all_told;
}
Step-IsServed m u (wakes w xs ys at) s = woken-IsServed w w.notices xs ys (omega arith) at s
Step-IsServed m u (stops w) s = record {
  in_order = s.in_order;
  each = s.each;
  awake = s.awake;
  at_end = λ l. (refl, (s.at_end l).1);
  all_told = λ told. (refl, (s.all_told told).1);
}
Step-IsServed m u (tells w stopped) s =
    let (b, l) = tally-wake w.workers in
    record {
      in_order = s.in_order;
      each = λ t. omega (arith, s.each t, wake-holds t w.workers);
      awake = λ some_b. omega (arith, some_b, b);
      at_end = λ some_l. s.at_end (omega (arith, some_l, l));
      all_told = λ told. (stopped, b);
    }

tally-replicate :
    (threads : ℕ)
    → (tally is_blocked (replicate threads ready) ≡ 0)
      × (tally is_left (replicate threads ready) ≡ 0)
tally-replicate zero = (refl, refl)
tally-replicate (suc n) = let (b, l) = tally-replicate n in (omega (arith, b), omega (arith, l))

replicate-holds : (t n : ℕ) → tally (holds t) (replicate n ready) ≡ 0
replicate-holds t zero = refl
replicate-holds t (suc n) = omega (arith, replicate-holds t n)

-- After any steps of the workers, the callers and the destructor, in any order: the tasks that
-- the queue took are those that workers took out of it, in that order, and then those in it; and
-- each task was taken out as often as it began and a worker has it that has not called it. While a
-- worker waits, the tasks in the queue are no more than the workers at the lock and the calls of
-- `notify_one` to come. If a worker has left, the pool is stopped and its queue empty; and after
-- `notify_all` the pool is stopped and no worker waits.
pub Reach-IsServed : (threads : ℕ) (w : World) → Reach threads w → IsServed w
unfolding begin create
Reach-IsServed threads w begins =
    let (b, l) = tally-replicate threads in
    record {
      in_order = refl;
      each = λ t. omega (arith, replicate-holds t threads);
      awake = λ some_b. omega (arith, some_b, b);
      at_end = λ some_l. absurd (omega (arith, some_l, l));
      all_told = λ told. cc told;
    }
Reach-IsServed threads w (after m u r step) = Step-IsServed m u step (Reach-IsServed threads m r)
