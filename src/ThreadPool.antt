-- ===== src/ThreadPool.antt =====
-- include/ashe/thread_pool.h and src/thread_pool.cpp: tasks in a queue, and the workers that take
-- them. A task is a number. What a thread does under the mutex is one step, and so is a call of
-- the condition variable; between the steps any thread may go on, and a wait may end unasked.
pub mod Served
pub mod Ends
mod Examples
use ashe.Base.{
  ℕ, zero, suc, ◌+◌, ◌≡◌, Bool, true, false, not, ◌&&◌, ◌||◌, List, [], ◌∷◌, ◌++◌, Option, none,
  some, map, replicate, if◌then◌else◌,
}

pub record ThreadPool : Type 0 where
  pub tasks : List ℕ
  pub stop : Bool

-- Where a worker stands: in `condition.wait`, at the lock, behind it with the task that it took and
-- has not called, in a task, or behind its `return`.
pub data Worker : Type 0 where
  blocked : Worker
  ready : Worker
  fetched : ℕ → Worker
  busy : ℕ → Worker
  left : Worker

-- The sum of a number for each worker.
abbrev pub tally : (Worker → ℕ) → List Worker → ℕ
tally f [] = 0
tally f (v ∷ vs) = f v + tally f vs

abbrev pub is_blocked : Worker → ℕ
is_blocked blocked = 1
is_blocked v = 0

abbrev pub is_empty : List ℕ → Bool
is_empty [] = true
is_empty (t ∷ ts) = false

unfoldable pub create : ThreadPool
create = record { tasks = []; stop = false }

unfoldable pub enqueue : ℕ → ThreadPool → ThreadPool
enqueue t p = if not p.stop then record p { tasks = p.tasks ++ t ∷ [] } else p

-- The predicate of the wait.
unfoldable pub may_go : ThreadPool → Bool
may_go p = p.stop || not (is_empty p.tasks)

-- `none` would be `front` of an empty queue.
unfoldable pub take_front : ThreadPool → List ℕ → Option (ThreadPool × Worker)
take_front p [] = none
take_front p (t ∷ ts) = some (record p { tasks = ts }, fetched t)

-- A worker that has the lock, up to where it gives it back.
unfoldable pub turn : ThreadPool → Option (ThreadPool × Worker)
unfolding may_go take_front
turn p =
    if not (may_go p)
    then some (p, blocked)
    else if p.stop && is_empty p.tasks
    then some (p, left)
    else take_front p p.tasks

-- The destructor's locked part.
unfoldable pub stop_pool : ThreadPool → ThreadPool
stop_pool p = record p { stop = true }

-- The pool, its workers, the calls of `notify_one` to come, whether `notify_all` was called; and,
-- to state theorems by, the tasks that the queue took, those that left it and those that began, each
-- in order.
pub record World : Type 0 where
  pub pool : ThreadPool
  pub workers : List Worker
  pub notices : ℕ
  pub told : Bool
  pub accepted : List ℕ
  pub fetches : List ℕ
  pub started : List ℕ

unfoldable pub begin : ℕ → World
unfolding create
begin threads = record {
  pool = create;
  workers = replicate threads ready;
  notices = 0;
  told = false;
  accepted = [];
  fetches = [];
  started = [];
}

unfoldable pub put : ℕ → World → World
unfolding enqueue
put t w = record w {
  pool = enqueue t w.pool;
  notices = w.notices + 1;
  accepted = if w.pool.stop then w.accepted else w.accepted ++ t ∷ [];
}

abbrev pub fetched_by : Worker → List ℕ → List ℕ
fetched_by (fetched t) ts = ts ++ t ∷ []
fetched_by v ts = ts

abbrev pub wake : Worker → Worker
wake blocked = ready
wake v = v

unfoldable pub notify_all : World → World
notify_all w = record w { told = true; workers = map wake w.workers }

-- A worker goes on.
pub data Move : World → World → Type 0 where
  turns :
      (w : World) (xs ys : List Worker) (p : ThreadPool) (v : Worker)
      → w.workers ≡ xs ++ ready ∷ ys
      → turn w.pool ≡ some (p, v)
      → Move w (record w { pool = p; workers = xs ++ v ∷ ys; fetches = fetched_by v w.fetches })
  -- `task()`, without the lock.
  calls :
      (w : World) (xs ys : List Worker) (t : ℕ)
      → w.workers ≡ xs ++ fetched t ∷ ys
      → Move w (record w { workers = xs ++ busy t ∷ ys; started = w.started ++ t ∷ [] })
  finishes :
      (w : World) (xs ys : List Worker) (t : ℕ)
      → w.workers ≡ xs ++ busy t ∷ ys
      → Move w (record w { workers = xs ++ ready ∷ ys })

pub data Step : World → World → Type 0 where
  moves : (w u : World) → Move w u → Step w u
  puts : (w : World) (t : ℕ) → Step w (put t w)
  -- `notify_one` with a worker that waits, and with none.
  notifies :
      (w : World) (n : ℕ) (xs ys : List Worker)
      → w.notices ≡ suc n
      → w.workers ≡ xs ++ blocked ∷ ys
      → Step w (record w { notices = n; workers = xs ++ ready ∷ ys })
  notifies_none :
      (w : World) (n : ℕ)
      → w.notices ≡ suc n
      → tally is_blocked w.workers ≡ 0
      → Step w (record w { notices = n })
  -- A wait that ends unasked.
  wakes :
      (w : World) (xs ys : List Worker)
      → w.workers ≡ xs ++ blocked ∷ ys
      → Step w (record w { workers = xs ++ ready ∷ ys })
  stops : (w : World) → Step w (record w { pool = stop_pool w.pool })
  tells : (w : World) → w.pool.stop ≡ true → Step w (notify_all w)

pub data Reach (threads : ℕ) : World → Type 0 where
  begins : Reach threads (begin threads)
  after : (w u : World) → Reach threads w → Step w u → Reach threads u
