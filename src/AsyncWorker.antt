-- ===== src/AsyncWorker.antt =====
-- src/async_worker.cpp and include/ashe/async_worker.h: one thread that runs the tasks it is given.
-- What happens under the mutex is one step; between two steps any other thread may go on.
pub mod Kept
pub mod Stopped
mod Examples
use ashe.Base.{
  ℕ, zero, suc, ◌+◌, ◌-◌, ◌≡◌, Bool, true, false, not, ◌||◌, List, [], ◌∷◌, ◌++◌, Option, none,
  some, map, length, if◌then◌else◌,
}

-- `thread_`: not valid, at the start of `run`, before the lock, in the wait, behind the lock with
-- the task that it took and has not called, in a task, finished.
pub data Thread : Type 0 where
  no_thread : Thread
  entering : Thread
  at_lock : Thread
  waiting : Thread
  fetched : ℕ → Thread
  in_task : ℕ → Thread
  finished : Thread

pub record AsyncWorker : Type 0 where
  pub thread : Thread
  pub exit : Bool
  pub work_queue : List ℕ
  pub running : Bool

unfoldable pub create : AsyncWorker
create = record { thread = no_thread; exit = false; work_queue = []; running = false }

-- `thread_` is valid, and a wait for it of no time ends with a timeout.
abbrev pub is_alive : Thread → Bool
is_alive no_thread = false
is_alive finished = false
is_alive t = true

-- `fails` is whether `std::async` throws.
unfoldable pub start : Bool → AsyncWorker → Bool × AsyncWorker
start fails a =
    if is_alive a.thread
    then (true, a)
    else if fails
    then (false, a)
    else (true, record a { thread = entering })

abbrev pub notified : Thread → Thread
notified waiting = at_lock
notified t = t

-- The locked part of `stop`, which then waits for the thread.
unfoldable pub stop : AsyncWorker → AsyncWorker
stop a = record a { work_queue = []; exit = true; thread = notified a.thread }

unfoldable pub clear_tasks : AsyncWorker → AsyncWorker
clear_tasks a = record a { work_queue = [] }

unfoldable pub tasks_count : AsyncWorker → ℕ
tasks_count a = length a.work_queue

unfoldable pub is_running : AsyncWorker → Bool
is_running a = a.running

-- The locked part of `invoke`, and its call of `notify_one`.
unfoldable pub invoke : ℕ → AsyncWorker → AsyncWorker
invoke t a = record a { work_queue = a.work_queue ++ t ∷ [] }

unfoldable pub notify_one : AsyncWorker → AsyncWorker
notify_one a = record a { thread = notified a.thread }

abbrev pub is_empty : List ℕ → Bool
is_empty [] = true
is_empty (t ∷ ts) = false

-- `none` would be `front` of an empty queue.
unfoldable pub take_front : AsyncWorker → List ℕ → Option AsyncWorker
take_front a [] = none
take_front a (t ∷ ts) = some (record a { work_queue = ts; thread = fetched t })

-- A round of the loop up to the task, under the lock.
unfoldable pub turn : AsyncWorker → Option AsyncWorker
unfolding take_front
turn a =
    if not (a.exit || not (is_empty a.work_queue))
    then some (record a { thread = waiting })
    else if a.exit
    then some (record a { running = false; thread = finished })
    else take_front a a.work_queue

-- The thread goes on; `none` where it does not.
unfoldable pub advance : AsyncWorker → Thread → Option AsyncWorker
unfolding turn
advance a no_thread = none
advance a entering = some (record a { running = true; thread = at_lock })
advance a at_lock = turn a
advance a waiting = none
advance a (fetched t) = some (record a { thread = in_task t })
advance a (in_task t) = some (record a { thread = at_lock })
advance a finished = none

-- The worker, the calls of `notify_one` to come; and, to state theorems by, the tasks given,
-- those that left the queue with whether the thread took them, and those that began, each in order.
pub record World : Type 0 where
  pub worker : AsyncWorker
  pub notices : ℕ
  pub given : List ℕ
  pub gone : List (ℕ × Bool)
  pub started : List ℕ

abbrev pub dropped : List ℕ → List (ℕ × Bool)
dropped ts = map (λ t. (t, false)) ts

-- The task that the thread has taken and not called, and what a move of the thread takes and calls.
abbrev pub taken : Thread → Thread → List (ℕ × Bool)
taken at_lock (fetched t) = (t, true) ∷ []
taken before now = []

abbrev pub held : Thread → List ℕ
held (fetched t) = t ∷ []
held t = []

pub data Step : World → World → Type 0 where
  starts : (w : World) (fails : Bool) → Step w (record w { worker = (start fails w.worker).1 })
  invokes :
      (w : World) (t : ℕ)
      → Step w (record w {
        worker = invoke t w.worker;
        notices = w.notices + 1;
        given = w.given ++ t ∷ [];
      })
  notifies :
      (w : World) → Step w (record w { worker = notify_one w.worker; notices = w.notices - 1 })
  -- A wait that ends unasked.
  wakes : (w : World) → Step w (record w { worker = notify_one w.worker })
  clears :
      (w : World)
      → Step w
          (record w { worker = clear_tasks w.worker; gone = w.gone ++ dropped w.worker.work_queue })
  stops :
      (w : World)
      → Step w (record w { worker = stop w.worker; gone = w.gone ++ dropped w.worker.work_queue })
  advances :
      (w : World) (a : AsyncWorker)
      → advance w.worker w.worker.thread ≡ some a
      → Step w (record w {
        worker = a;
        gone = w.gone ++ taken w.worker.thread a.thread;
        started = w.started ++ held w.worker.thread;
      })

unfoldable pub begin : World
unfolding create
begin = record { worker = create; notices = 0; given = []; gone = []; started = [] }

pub data Steps : World → World → Type 0 where
  here : (w : World) → Steps w w
  after : (w m u : World) → Steps w m → Step m u → Steps w u
