-- ===== src/ThreadPool/Ends.antt =====
-- The end of the thread pool of src/thread_pool.cpp: what the destructor's joins wait for.
use ashe.Base.{
  ℕ, zero, suc, ◌+◌, ◌*◌, ◌≤◌, ◌<◌, ◌≡◌, refl, ap, sym, ◌∙◌, true, ◌⊎◌, inl, inr, List, [], ◌∷◌,
  ◌++◌, append-nil, map, replicate, length, arith,
}
use ashe.ThreadPool.{
  ThreadPool, Worker, blocked, ready, fetched, busy, left, tally, is_blocked, World, begin, put,
  wake, notify_all, Move, turns, calls, finishes, Step, moves, puts, notifies, notifies_none, wakes,
  stops, tells, Reach, begins, after,
}
use ashe.ThreadPool.Served.{
  count, holds, is_left, tally-swap, Turned, waits, leaves, takes, turn-some, turn-Turned, IsServed,
  Reach-IsServed,
}

abbrev one : Worker → ℕ
one v = 1

-- The moves that a worker has before it, but for those of the tasks in the queue.
abbrev rounds : Worker → ℕ
rounds blocked = 0
rounds ready = 1
rounds (fetched t) = 3
rounds (busy t) = 2
rounds left = 0

abbrev pub to_do : World → ℕ
to_do w = 3 * length w.pool.tasks + tally rounds w.workers

pub data Moves : World → World → Type 0 where
  done : (w : World) → Moves w w
  more : (w m u : World) → Move w m → Moves m u → Moves w u

tally-map : (vs : List Worker) → tally one (map wake vs) ≡ tally one vs
tally-map [] = refl
tally-map (v ∷ vs) = omega (arith, tally-map vs)

Move-crew : (w u : World) → Move w u → tally one u.workers ≡ tally one w.workers
Move-crew m u (turns w xs ys p v at here) = omega (arith, tally-swap one w.workers xs ys ready v at)
Move-crew m u (calls w xs ys t at) =
    omega (arith, tally-swap one w.workers xs ys (fetched t) (busy t) at)
Move-crew m u (finishes w xs ys t at) =
    omega (arith, tally-swap one w.workers xs ys (busy t) ready at)

Step-crew : (w u : World) → Step w u → tally one u.workers ≡ tally one w.workers
unfolding put notify_all
Step-crew w u (moves m n move) = Move-crew m n move
Step-crew m u (puts w t) = refl
Step-crew m u (notifies w n xs ys e at) =
    omega (arith, tally-swap one w.workers xs ys blocked ready at)
Step-crew m u (notifies_none w n e none_b) = refl
Step-crew m u (wakes w xs ys at) = omega (arith, tally-swap one w.workers xs ys blocked ready at)
Step-crew m u (stops w) = refl
Step-crew m u (tells w stopped) = tally-map w.workers

Reach-crew : (threads : ℕ) (w : World) → Reach threads w → tally one w.workers ≡ threads
unfolding begin
Reach-crew threads w begins = crew_of threads
  where
    crew_of : (n : ℕ) → tally one (replicate n ready) ≡ n
    crew_of zero = refl
    crew_of (suc n) = omega (arith, crew_of n)
Reach-crew threads w (after m u r step) = Step-crew m u step ∙ Reach-crew threads m r

Turned-to_do :
    (p q : ThreadPool) (v : Worker)
    → Turned p q v
    → p.stop ≡ true
    → 3 * length q.tasks + rounds v < 3 * length p.tasks + 1
Turned-to_do p q v waits stopped = cc stopped
Turned-to_do p q v leaves stopped = omega arith
Turned-to_do p q v (takes t ts s) stopped = omega arith

-- When all workers are told of the end, each move brings it nearer.
Move-to_do : (w u : World) → IsServed w → w.told ≡ true → Move w u → to_do u < to_do w
Move-to_do m u s told (turns w xs ys p v at here) =
    let swap = tally-swap rounds w.workers xs ys ready v at in
    omega (arith, swap, Turned-to_do w.pool p v (turn-Turned w.pool p v here) (s.all_told told).0)
Move-to_do m u s told (calls w xs ys t at) =
    omega (arith, tally-swap rounds w.workers xs ys (fetched t) (busy t) at)
Move-to_do m u s told (finishes w xs ys t at) =
    omega (arith, tally-swap rounds w.workers xs ys (busy t) ready at)

Move-told : (w u : World) → Move w u → (u.told ≡ w.told) × (u.accepted ≡ w.accepted)
Move-told m u (turns w xs ys p v at here) = (refl, refl)
Move-told m u (calls w xs ys t at) = (refl, refl)
Move-told m u (finishes w xs ys t at) = (refl, refl)

-- A row in which no worker waits: all have left, or one can go on.
who_moves :
    (vs : List Worker)
    → tally is_blocked vs ≡ 0
    → (tally is_left vs ≡ tally one vs)
      ⊎ (((xs : List Worker) × (ys : List Worker) × (vs ≡ xs ++ ready ∷ ys))
          ⊎ (((xs : List Worker) × (ys : List Worker) × (t : ℕ) × (vs ≡ xs ++ fetched t ∷ ys))
              ⊎ ((xs : List Worker) × (ys : List Worker) × (t : ℕ) × (vs ≡ xs ++ busy t ∷ ys))))
who_moves [] b = inl refl
who_moves (blocked ∷ vs) b = absurd (omega (arith, b))
who_moves (ready ∷ vs) b = inr (inl ([], vs, refl))
who_moves (fetched t ∷ vs) b = inr (inr (inl ([], vs, t, refl)))
who_moves (busy t ∷ vs) b = inr (inr (inr ([], vs, t, refl)))
who_moves (left ∷ vs) b = elim (who_moves vs (omega (arith, b))) [
  | inl l ↦ inl (omega (arith, l))
  | inr (inl (xs, ys, e)) ↦ inr (inl (left ∷ xs, ys, ap (λ l. left ∷ l) e))
  | inr (inr (inl (xs, ys, t, e))) ↦ inr (inr (inl (left ∷ xs, ys, t, ap (λ l. left ∷ l) e)))
  | inr (inr (inr (xs, ys, t, e))) ↦ inr (inr (inr (left ∷ xs, ys, t, ap (λ l. left ∷ l) e)))
]

next-Move :
    (w : World)
    → IsServed w
    → w.told ≡ true
    → (tally is_left w.workers ≡ tally one w.workers) ⊎ ((u : World) × Move w u)
next-Move w s told = elim (who_moves w.workers (s.all_told told).1) [
  | inl l ↦ inl l
  | inr (inl (xs, ys, e)) ↦
      let (q, v, here, turned) = turn-some w.pool in inr (_, turns w xs ys q v e here)
  | inr (inr (inl (xs, ys, t, e))) ↦ inr (_, calls w xs ys t e)
  | inr (inr (inr (xs, ys, t, e))) ↦ inr (_, finishes w xs ys t e)
]

run_out :
    (n threads : ℕ) (w : World)
    → to_do w ≤ n
    → Reach threads w
    → w.told ≡ true
    → (u : World) × Moves w u
      × (tally is_left u.workers ≡ tally one u.workers)
      × Reach threads u
      × (u.accepted ≡ w.accepted)
run_out zero threads w few r told = elim (next-Move w (Reach-IsServed threads w r) told) [
  | inl l ↦ (w, done w, l, r, refl)
  | inr (m, move) ↦
      let nearer = Move-to_do w m (Reach-IsServed threads w r) told move in
      absurd (omega (arith, nearer, few))
]
run_out (suc n) threads w few r told = elim (next-Move w (Reach-IsServed threads w r) told) [
  | inl l ↦ (w, done w, l, r, refl)
  | inr (m, move) ↦
      let nearer = Move-to_do w m (Reach-IsServed threads w r) told move in
      let (same, kept) = Move-told w m move in
      let (u, ms, l, r', e) =
        run_out n threads m (omega (arith, nearer, few)) (after w m r (moves w m move))
          (same ∙ told) in
      (u, more w m u move ms, l, r', e ∙ kept)
]

left-few : (vs : List Worker) → tally is_left vs ≤ tally one vs
left-few [] = omega arith
left-few (blocked ∷ vs) = omega (arith, left-few vs)
left-few (ready ∷ vs) = omega (arith, left-few vs)
left-few (fetched t ∷ vs) = omega (arith, left-few vs)
left-few (busy t ∷ vs) = omega (arith, left-few vs)
left-few (left ∷ vs) = omega (arith, left-few vs)

none_held : (t : ℕ) (vs : List Worker) → tally is_left vs ≡ tally one vs → tally (holds t) vs ≡ 0
none_held t [] l = refl
none_held t (blocked ∷ vs) l = absurd (omega (arith, l, left-few vs))
none_held t (ready ∷ vs) l = absurd (omega (arith, l, left-few vs))
none_held t (fetched u ∷ vs) l = absurd (omega (arith, l, left-few vs))
none_held t (busy u ∷ vs) l = absurd (omega (arith, l, left-few vs))
none_held t (left ∷ vs) l = omega (arith, none_held t vs (omega (arith, l)))

-- A pool with at least one worker, after any steps and with the destructor's `notify_all`
-- called: each move of a worker makes the number of moves to come smaller, and there are moves
-- after which all the workers have left, as the destructor's joins wait for, the tasks that
-- were taken out are the tasks that the queue took, in that order, and each of these began, as
-- often as the queue took it.
pub stopping-ends :
    (threads : ℕ) (w : World)
    → 0 < threads
    → Reach threads w
    → w.told ≡ true
    → ((u : World) → Move w u → to_do u < to_do w)
      × ((u : World) × Moves w u
          × (tally is_left u.workers ≡ threads)
          × (u.fetches ≡ w.accepted)
          × ((t : ℕ) → count t u.started ≡ count t w.accepted)
          × Reach threads u)
stopping-ends threads w some_worker r told =
    let (u, ms, l, r', e) = run_out (to_do w) threads w (omega arith) r told in
    let s = Reach-IsServed threads u r' in
    let crew = Reach-crew threads u r' in
    let empty = (s.at_end (omega (arith, l, crew, some_worker))).1 in
    let all_out =
      sym (append-nil u.fetches) ∙ ap (λ ts. u.fetches ++ ts) (sym empty) ∙ sym s.in_order ∙ e in
    (
      λ m move. Move-to_do w m (Reach-IsServed threads w r) told move,
      (
        u,
        ms,
        l ∙ crew,
        all_out,
        λ t.
            omega (arith, s.each t, none_held t u.workers (omega (arith, l)), ap (count t) all_out),
        r',
      ),
    )
