-- ===== src/AsyncWorker/Stopped.antt =====
-- The worker of src/async_worker.cpp when `stop` was called.
use ashe.Base.{ℕ, suc, ◌≡◌, refl, ap, ◌∙◌, Bool, true, false, List, [], ◌++◌, some, append-nil}
use ashe.AsyncWorker.{
  Thread, no_thread, entering, at_lock, waiting, fetched, in_task, finished, AsyncWorker, is_alive,
  start, stop, clear_tasks, invoke, notify_one, turn, advance, World, taken, held, Step, starts,
  invokes, notifies, wakes, clears, stops, advances, Steps, here, after,
}
use ashe.AsyncWorker.Kept.{
  Advanced, enters, waits, ends, takes, calls, finishes, advance-Advanced, no_wait, took,
  took-dropped, held-notified,
}

-- The moves that the thread has left when the worker was stopped.
abbrev pub moves_left : Thread → ℕ
moves_left no_thread = 0
moves_left entering = 2
moves_left at_lock = 1
moves_left waiting = 0
moves_left (fetched t) = 3
moves_left (in_task t) = 2
moves_left finished = 0

record IsQuiet (bs ts : List ℕ) (w : World) : Type 0 where
  stopped : w.worker.exit ≡ true
  no_wait_left : w.worker.thread ≡ waiting → ⊥
  silent : w.started ++ held w.worker.thread ≡ bs
  none_taken : took w.gone ≡ ts

Advanced-quiet :
    (a b : AsyncWorker)
    → Advanced a b
    → a.exit ≡ true
    → (b.exit ≡ true)
      × (b.thread ≡ waiting → ⊥)
      × (taken a.thread b.thread ≡ [])
      × (held b.thread ≡ [])
      × (suc (moves_left b.thread) ≡ moves_left a.thread)
Advanced-quiet a b (enters x q r) e = (e, (λ n. cc n), refl, refl, refl)
Advanced-quiet a b (waits r) e = cc e
Advanced-quiet a b (ends q r) e = (refl, (λ n. cc n), refl, refl, refl)
Advanced-quiet a b (takes t ts r) e = cc e
Advanced-quiet a b (calls t x q r) e = (e, (λ n. cc n), refl, refl, refl)
Advanced-quiet a b (finishes t x q r) e = (e, (λ n. cc n), refl, refl, refl)

start-quiet :
    (fails : Bool) (t : Thread) (x : Bool) (q : List ℕ) (r : Bool)
    → let b : AsyncWorker =
        (start fails (record { thread = t; exit = x; work_queue = q; running = r })).1 in
      x ≡ true
      → (t ≡ waiting → ⊥)
      → (b.exit ≡ true) × (b.thread ≡ waiting → ⊥) × (held b.thread ≡ held t)
unfolding start
start-quiet true no_thread x q r e n = (e, n, refl)
start-quiet false no_thread x q r e n = (e, (λ m. cc m), refl)
start-quiet fails entering x q r e n = (e, n, refl)
start-quiet fails at_lock x q r e n = (e, n, refl)
start-quiet fails waiting x q r e n = (e, n, refl)
start-quiet fails (fetched t) x q r e n = (e, n, refl)
start-quiet fails (in_task t) x q r e n = (e, n, refl)
start-quiet true finished x q r e n = (e, n, refl)
start-quiet false finished x q r e n = (e, (λ m. cc m), refl)

Step-IsQuiet : (bs ts : List ℕ) (w u : World) → Step w u → IsQuiet bs ts w → IsQuiet bs ts u
unfolding stop clear_tasks invoke notify_one
Step-IsQuiet bs ts m u (starts w fails) s =
    let (e, n, h) =
      start-quiet fails w.worker.thread w.worker.exit w.worker.work_queue w.worker.running s.stopped
        s.no_wait_left in
    record {
      stopped = e;
      no_wait_left = n;
      silent = ap (λ l. w.started ++ l) h ∙ s.silent;
      none_taken = s.none_taken;
    }
Step-IsQuiet bs ts m u (invokes w t) s = record {
  stopped = s.stopped;
  no_wait_left = s.no_wait_left;
  silent = s.silent;
  none_taken = s.none_taken;
}
Step-IsQuiet bs ts m u (notifies w) s = record {
  stopped = s.stopped;
  no_wait_left = λ n. no_wait w.worker.thread n;
  silent = ap (λ l. w.started ++ l) (held-notified w.worker.thread) ∙ s.silent;
  none_taken = s.none_taken;
}
Step-IsQuiet bs ts m u (wakes w) s = record {
  stopped = s.stopped;
  no_wait_left = λ n. no_wait w.worker.thread n;
  silent = ap (λ l. w.started ++ l) (held-notified w.worker.thread) ∙ s.silent;
  none_taken = s.none_taken;
}
Step-IsQuiet bs ts m u (clears w) s = record {
  stopped = s.stopped;
  no_wait_left = s.no_wait_left;
  silent = s.silent;
  none_taken = took-dropped w.gone w.worker.work_queue ∙ s.none_taken;
}
Step-IsQuiet bs ts m u (stops w) s = record {
  stopped = refl;
  no_wait_left = λ n. no_wait w.worker.thread n;
  silent = ap (λ l. w.started ++ l) (held-notified w.worker.thread) ∙ s.silent;
  none_taken = took-dropped w.gone w.worker.work_queue ∙ s.none_taken;
}
Step-IsQuiet bs ts m u (advances w a e) s =
    let (x, n, nothing, out, less) =
      Advanced-quiet w.worker a (advance-Advanced w.worker a e) s.stopped in
    record {
      stopped = x;
      no_wait_left = n;
      silent =
          ap (λ l. (w.started ++ held w.worker.thread) ++ l) out
          ∙ append-nil (w.started ++ held w.worker.thread)
          ∙ s.silent;
      none_taken =
          ap (λ l. took (w.gone ++ l)) nothing ∙ ap took (append-nil w.gone) ∙ s.none_taken;
    }

Steps-IsQuiet : (bs ts : List ℕ) (w u : World) → Steps w u → IsQuiet bs ts w → IsQuiet bs ts u
Steps-IsQuiet bs ts w u (here x) s = s
Steps-IsQuiet bs ts w u (after x m v steps step) s =
    Step-IsQuiet bs ts m v step (Steps-IsQuiet bs ts x m steps s)

advance-some :
    (t : Thread) (q : List ℕ) (r : Bool)
    → let a : AsyncWorker = record { thread = t; exit = true; work_queue = q; running = r } in
      is_alive t ≡ true → (t ≡ waiting → ⊥) → (b : AsyncWorker) × (advance a t ≡ some b)
unfolding advance turn
advance-some no_thread q r alive n = cc alive
advance-some entering q r alive n = (_, refl)
advance-some at_lock q r alive n = (_, refl)
advance-some waiting q r alive n = absurd (n refl)
advance-some (fetched t) q r alive n = (_, refl)
advance-some (in_task t) q r alive n = (_, refl)
advance-some finished q r alive n = cc alive

-- From the locked part of `stop` on, whatever steps follow, also further calls of `start` and
-- `invoke`: no task is taken out of the queue to be run, and no task begins but the one that the
-- thread had taken and not called, if there was one: those that began, and then that one where it
-- has not begun yet, are what they were. And where the thread has not finished it can move on, and
-- each such move leaves one move less of the at most three that it has before its end.
pub stop-silent :
    (w u : World)
    → Steps (record w { worker = stop w.worker }) u
    → (took u.gone ≡ took w.gone)
      × (u.started ++ held u.worker.thread ≡ w.started ++ held w.worker.thread)
      × (is_alive u.worker.thread ≡ true
          → (b : AsyncWorker) × (advance u.worker u.worker.thread ≡ some b)
            × (suc (moves_left b.thread) ≡ moves_left u.worker.thread))
unfolding stop
stop-silent w u steps =
    let s =
      Steps-IsQuiet (w.started ++ held w.worker.thread) (took w.gone)
        (record w { worker = stop w.worker }) u steps
        (record {
          stopped = refl;
          no_wait_left = λ n. no_wait w.worker.thread n;
          silent = ap (λ l. w.started ++ l) (held-notified w.worker.thread);
          none_taken = refl;
        }) in
    (
      s.none_taken,
      s.silent,
      λ alive.
          let (b, e) = at_exit u.worker s.stopped alive s.no_wait_left in
          (b, e, (Advanced-quiet u.worker b (advance-Advanced u.worker b e) s.stopped).4),
    )
  where
    at_exit :
        (a : AsyncWorker)
        → a.exit ≡ true
        → is_alive a.thread ≡ true
        → (a.thread ≡ waiting → ⊥)
        → (b : AsyncWorker) × (advance a a.thread ≡ some b)
    at_exit a e alive n =
        let (b, f) = advance-some a.thread a.work_queue a.running alive n in
        (b, ap (λ x. advance (record a { exit = x }) a.thread) e ∙ f)
