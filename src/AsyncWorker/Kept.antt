-- ===== src/AsyncWorker/Kept.antt =====
-- What holds of the worker of src/async_worker.cpp after any steps.
use ashe.Base.{
  ℕ, ◌<◌, ◌≡◌, refl, ap, sym, subst, ◌∙◌, Bool, true, false, ◌⊎◌, inl, inr, List, [], ◌∷◌, ◌++◌,
  append_assoc, append-nil, some, map, arith,
}
use mathlib.Core.Option.{some-injective}
use ashe.AsyncWorker.{
  Thread, no_thread, entering, at_lock, waiting, fetched, in_task, finished, AsyncWorker, create,
  start, notified, stop, clear_tasks, invoke, notify_one, advance, World, dropped, taken, held,
  Step, starts, invokes, notifies, wakes, clears, stops, advances, begin, Steps, here, after,
}

abbrev pub task_of : ℕ × Bool → ℕ
task_of (t, began) = t

abbrev pub in_loop : Thread → Bool
in_loop at_lock = true
in_loop waiting = true
in_loop (fetched t) = true
in_loop (in_task t) = true
in_loop t = false

-- Those of the tasks that left the queue which the thread took.
abbrev pub took : List (ℕ × Bool) → List ℕ
took [] = []
took ((t, true) ∷ xs) = t ∷ took xs
took ((t, false) ∷ xs) = took xs

pub record IsKept (w : World) : Type 0 where
  pub in_order : w.given ≡ map task_of w.gone ++ w.worker.work_queue
  -- The thread waits only where no task is left, or where a call of `notify_one` is to come.
  pub awake :
      w.worker.thread ≡ waiting
      → (w.worker.exit ≡ false) × ((w.worker.work_queue ≡ []) ⊎ (0 < w.notices))
  pub all_begin : took w.gone ≡ w.started ++ held w.worker.thread
  pub flag : w.worker.running ≡ in_loop w.worker.thread

map-append : (f : ℕ × Bool → ℕ) (xs ys : List (ℕ × Bool)) → map f (xs ++ ys) ≡ map f xs ++ map f ys
map-append f [] ys = refl
map-append f (x ∷ xs) ys = ap (λ l. f x ∷ l) (map-append f xs ys)

map-dropped : (ts : List ℕ) → map task_of (dropped ts) ≡ ts
map-dropped [] = refl
map-dropped (t ∷ ts) = ap (λ l. t ∷ l) (map-dropped ts)

emptied :
    (given : List ℕ) (gone : List (ℕ × Bool)) (queue : List ℕ)
    → given ≡ map task_of gone ++ queue
    → given ≡ map task_of (gone ++ dropped queue) ++ []
emptied given gone queue e =
    e
    ∙ ap (λ q. map task_of gone ++ q) (sym (map-dropped queue))
    ∙ sym (map-append task_of gone (dropped queue))
    ∙ sym (append-nil (map task_of (gone ++ dropped queue)))

pub no_wait {ℓ} : {A : Type ℓ} (t : Thread) → notified t ≡ waiting → A
no_wait no_thread e = cc e
no_wait entering e = cc e
no_wait at_lock e = cc e
no_wait waiting e = cc e
no_wait (fetched t) e = cc e
no_wait (in_task t) e = cc e
no_wait finished e = cc e

notified-in_loop : (t : Thread) → in_loop (notified t) ≡ in_loop t
notified-in_loop no_thread = refl
notified-in_loop entering = refl
notified-in_loop at_lock = refl
notified-in_loop waiting = refl
notified-in_loop (fetched t) = refl
notified-in_loop (in_task t) = refl
notified-in_loop finished = refl

pub held-notified : (t : Thread) → held (notified t) ≡ held t
held-notified no_thread = refl
held-notified entering = refl
held-notified at_lock = refl
held-notified waiting = refl
held-notified (fetched t) = refl
held-notified (in_task t) = refl
held-notified finished = refl

took-append : (xs ys : List (ℕ × Bool)) → took (xs ++ ys) ≡ took xs ++ took ys
took-append [] ys = refl
took-append ((t, true) ∷ xs) ys = ap (λ l. t ∷ l) (took-append xs ys)
took-append ((t, false) ∷ xs) ys = took-append xs ys

pub took-dropped : (xs : List (ℕ × Bool)) (q : List ℕ) → took (xs ++ dropped q) ≡ took xs
took-dropped [] [] = refl
took-dropped [] (t ∷ q) = took-dropped [] q
took-dropped ((t, true) ∷ xs) q = ap (λ l. t ∷ l) (took-dropped xs q)
took-dropped ((t, false) ∷ xs) q = took-dropped xs q

-- What the thread's moves do.
pub data Advanced : AsyncWorker → AsyncWorker → Type 0 where
  enters :
      (x : Bool) (q : List ℕ) (r : Bool)
      → Advanced
          (record { thread = entering; exit = x; work_queue = q; running = r })
          (record { thread = at_lock; exit = x; work_queue = q; running = true })
  waits :
      (r : Bool)
      → Advanced
          (record { thread = at_lock; exit = false; work_queue = []; running = r })
          (record { thread = waiting; exit = false; work_queue = []; running = r })
  ends :
      (q : List ℕ) (r : Bool)
      → Advanced
          (record { thread = at_lock; exit = true; work_queue = q; running = r })
          (record { thread = finished; exit = true; work_queue = q; running = false })
  takes :
      (t : ℕ) (ts : List ℕ) (r : Bool)
      → Advanced
          (record { thread = at_lock; exit = false; work_queue = t ∷ ts; running = r })
          (record { thread = fetched t; exit = false; work_queue = ts; running = r })
  calls :
      (t : ℕ) (x : Bool) (q : List ℕ) (r : Bool)
      → Advanced
          (record { thread = fetched t; exit = x; work_queue = q; running = r })
          (record { thread = in_task t; exit = x; work_queue = q; running = r })
  finishes :
      (t : ℕ) (x : Bool) (q : List ℕ) (r : Bool)
      → Advanced
          (record { thread = in_task t; exit = x; work_queue = q; running = r })
          (record { thread = at_lock; exit = x; work_queue = q; running = r })

pub advance-Advanced : (a b : AsyncWorker) → advance a a.thread ≡ some b → Advanced a b
unfolding advance
advance-Advanced a b e = go a.thread a.exit a.work_queue a.running e
  where
    reached : (a c : AsyncWorker) → Advanced a c → some c ≡ some b → Advanced a b
    reached a c m e = subst (λ (x : AsyncWorker). Advanced a x) (some-injective c b e) m

    go :
        (t : Thread) (x : Bool) (q : List ℕ) (r : Bool)
        → advance (record { thread = t; exit = x; work_queue = q; running = r }) t ≡ some b
        → Advanced (record { thread = t; exit = x; work_queue = q; running = r }) b
    go no_thread x q r e = cc e
    go entering x q r e = reached _ _ (enters x q r) e
    go at_lock false [] r e = reached _ _ (waits r) e
    go at_lock false (t ∷ ts) r e = reached _ _ (takes t ts r) e
    go at_lock true [] r e = reached _ _ (ends [] r) e
    go at_lock true (t ∷ ts) r e = reached _ _ (ends (t ∷ ts) r) e
    go waiting x q r e = cc e
    go (fetched t) x q r e = reached _ _ (calls t x q r) e
    go (in_task t) x q r e = reached _ _ (finishes t x q r) e
    go finished x q r e = cc e

abbrev world : AsyncWorker → ℕ → List ℕ → List (ℕ × Bool) → List ℕ → World
world a notices given gone started = record {
  worker = a;
  notices = notices;
  given = given;
  gone = gone;
  started = started;
}

same_order :
    (given : List ℕ) (gone : List (ℕ × Bool)) (queue : List ℕ)
    → given ≡ map task_of gone ++ queue
    → given ≡ map task_of (gone ++ []) ++ queue
same_order given gone queue e = e ∙ ap (λ g. map task_of g ++ queue) (sym (append-nil gone))

no_change :
    (gone : List (ℕ × Bool)) (started : List ℕ)
    → took gone ≡ started ++ []
    → took (gone ++ []) ≡ (started ++ []) ++ []
no_change gone started e = ap took (append-nil gone) ∙ e ∙ sym (append-nil (started ++ []))

Advanced-IsKept :
    (a b : AsyncWorker) (notices : ℕ) (given : List ℕ) (gone : List (ℕ × Bool)) (started : List ℕ)
    → Advanced a b
    → IsKept (world a notices given gone started)
    → IsKept (world b notices given (gone ++ taken a.thread b.thread) (started ++ held a.thread))
Advanced-IsKept a b notices given gone started (enters x q r) s = record {
  in_order = same_order given gone q s.in_order;
  all_begin = no_change gone started s.all_begin;
  awake = λ e. cc e;
  flag = refl;
}
Advanced-IsKept a b notices given gone started (waits r) s = record {
  in_order = same_order given gone [] s.in_order;
  all_begin = no_change gone started s.all_begin;
  awake = λ e. (refl, inl refl);
  flag = s.flag;
}
Advanced-IsKept a b notices given gone started (ends q r) s = record {
  in_order = same_order given gone q s.in_order;
  all_begin = no_change gone started s.all_begin;
  awake = λ e. cc e;
  flag = refl;
}
Advanced-IsKept a b notices given gone started (takes t ts r) s = record {
  in_order =
      s.in_order
      ∙ sym (append_assoc (map task_of gone) (t ∷ []) ts)
      ∙ ap (λ l. l ++ ts) (sym (map-append task_of gone ((t, true) ∷ [])));
  all_begin = took-append gone ((t, true) ∷ []) ∙ ap (λ l. l ++ t ∷ []) s.all_begin;
  awake = λ e. cc e;
  flag = s.flag;
}
Advanced-IsKept a b notices given gone started (calls t x q r) s = record {
  in_order = same_order given gone q s.in_order;
  all_begin = ap took (append-nil gone) ∙ s.all_begin ∙ sym (append-nil (started ++ t ∷ []));
  awake = λ e. cc e;
  flag = s.flag;
}
Advanced-IsKept a b notices given gone started (finishes t x q r) s = record {
  in_order = same_order given gone q s.in_order;
  all_begin = no_change gone started s.all_begin;
  awake = λ e. cc e;
  flag = s.flag;
}

start-IsKept :
    (fails : Bool) (t : Thread) (x : Bool) (q : List ℕ) (r : Bool) (notices : ℕ) (given : List ℕ)
    (gone : List (ℕ × Bool)) (started : List ℕ)
    → let a : AsyncWorker = record { thread = t; exit = x; work_queue = q; running = r } in
      IsKept (world a notices given gone started)
      → IsKept (world (start fails a).1 notices given gone started)
unfolding start
start-IsKept true no_thread x q r notices given gone started s = s
start-IsKept false no_thread x q r notices given gone started s = record {
  in_order = s.in_order;
  all_begin = s.all_begin;
  awake = λ e. cc e;
  flag = s.flag;
}
start-IsKept fails entering x q r notices given gone started s = s
start-IsKept fails at_lock x q r notices given gone started s = s
start-IsKept fails waiting x q r notices given gone started s = s
start-IsKept fails (fetched t) x q r notices given gone started s = s
start-IsKept fails (in_task t) x q r notices given gone started s = s
start-IsKept true finished x q r notices given gone started s = s
start-IsKept false finished x q r notices given gone started s = record {
  in_order = s.in_order;
  all_begin = s.all_begin;
  awake = λ e. cc e;
  flag = s.flag;
}

Step-IsKept : (w u : World) → Step w u → IsKept w → IsKept u
unfolding stop clear_tasks invoke notify_one
Step-IsKept m u (starts w fails) s =
    start-IsKept fails w.worker.thread w.worker.exit w.worker.work_queue w.worker.running w.notices
      w.given w.gone w.started s
Step-IsKept m u (invokes w t) s = record {
  in_order =
      ap (λ l. l ++ t ∷ []) s.in_order
      ∙ append_assoc (map task_of w.gone) w.worker.work_queue (t ∷ []);
  all_begin = s.all_begin;
  awake = λ e. ((s.awake e).0, inr (omega arith));
  flag = s.flag;
}
Step-IsKept m u (notifies w) s = record {
  in_order = s.in_order;
  all_begin = s.all_begin ∙ ap (λ h. w.started ++ h) (sym (held-notified w.worker.thread));
  awake = λ e. no_wait w.worker.thread e;
  flag = s.flag ∙ sym (notified-in_loop w.worker.thread);
}
Step-IsKept m u (wakes w) s = record {
  in_order = s.in_order;
  all_begin = s.all_begin ∙ ap (λ h. w.started ++ h) (sym (held-notified w.worker.thread));
  awake = λ e. no_wait w.worker.thread e;
  flag = s.flag ∙ sym (notified-in_loop w.worker.thread);
}
Step-IsKept m u (clears w) s = record {
  in_order = emptied w.given w.gone w.worker.work_queue s.in_order;
  all_begin = took-dropped w.gone w.worker.work_queue ∙ s.all_begin;
  awake = λ e. ((s.awake e).0, inl refl);
  flag = s.flag;
}
Step-IsKept m u (stops w) s = record {
  in_order = emptied w.given w.gone w.worker.work_queue s.in_order;
  all_begin =
      took-dropped w.gone w.worker.work_queue
      ∙ s.all_begin
      ∙ ap (λ h. w.started ++ h) (sym (held-notified w.worker.thread));
  awake = λ e. no_wait w.worker.thread e;
  flag = s.flag ∙ sym (notified-in_loop w.worker.thread);
}
Step-IsKept m u (advances w a e) s =
    Advanced-IsKept w.worker a w.notices w.given w.gone w.started (advance-Advanced w.worker a e) s

begin-IsKept : IsKept begin
unfolding begin create
begin-IsKept = record { in_order = refl; all_begin = refl; awake = λ e. cc e; flag = refl }

-- After any steps of the thread and the callers, from a new worker on: the tasks given are those
-- that the thread took or that were dropped, in the order in which they left the queue, and then
-- those in the queue; and those that it took are those that began, in that order, and then the one
-- that it has taken and not called, if there is one. The thread waits only while the worker is not stopped, and while its queue is empty or
-- a call of `notify_one` is to come. The flag of `isRunning` is set just while the thread is in
-- its loop.
pub Steps-IsKept : (w : World) → Steps begin w → IsKept w
Steps-IsKept w steps = go begin w steps refl
  where
    go : (v w : World) → Steps v w → v ≡ begin → IsKept w
    go v w (here x) e = subst IsKept (sym e) begin-IsKept
    go v w (after x m u steps step) e = Step-IsKept m u step (go x m steps e)
