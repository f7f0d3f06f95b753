-- ===== src/AsyncWorker/Examples.antt =====
-- The worker of src/async_worker.cpp started, given two tasks and stopped.
use ashe.Base.{suc, ◌≡◌, refl, true, false, [], ◌∷◌, ◌++◌, some}
use ashe.AsyncWorker.{
  at_lock, fetched, held, AsyncWorker, create, is_alive, start, stop, invoke, turn, advance, World,
  starts, invokes, advances, begin, Steps, here, after,
}
use ashe.AsyncWorker.Kept.{took, IsKept, Steps-IsKept}
use ashe.AsyncWorker.Stopped.{moves_left, stop-silent}

abbrev started : World
started = record begin { worker = (start false begin.worker).1 }

abbrev one_given : World
one_given = record started { worker = invoke 7 started.worker; notices = 1; given = 7 ∷ [] }

abbrev two_given : World
two_given = record one_given { worker = invoke 8 one_given.worker; notices = 2; given = 7 ∷ 8 ∷ [] }

abbrev in_lock : World
in_lock = record two_given {
  worker = record { thread = at_lock; exit = false; work_queue = 7 ∷ 8 ∷ []; running = true };
}

abbrev in_first : World
in_first = record two_given {
  worker = record { thread = fetched 7; exit = false; work_queue = 8 ∷ []; running = true };
  gone = (7, true) ∷ [];
}

in_first-Steps : Steps begin in_first
unfolding begin create start invoke advance turn
in_first-Steps =
    after begin in_lock in_first
      (after begin two_given in_lock
        (after begin one_given two_given
          (after begin started one_given
            (after begin begin started (here begin) (starts begin false)) (invokes started 7))
          (invokes one_given 8))
        (advances two_given in_lock.worker refl))
      (advances in_lock in_first.worker refl)

Steps-IsKept_example : IsKept in_first
Steps-IsKept_example = Steps-IsKept in_first in_first-Steps

abbrev stopped : World
stopped = record in_first { worker = stop in_first.worker }

abbrev third_given : World
third_given = record stopped {
  worker = invoke 9 stopped.worker;
  notices = 3;
  given = 7 ∷ 8 ∷ 9 ∷ [];
}

stop-silent_example :
    (took third_given.gone ≡ took in_first.gone)
    × (third_given.started ++ held third_given.worker.thread
        ≡ in_first.started ++ held in_first.worker.thread)
    × (is_alive third_given.worker.thread ≡ true
        → (b : AsyncWorker) × (advance third_given.worker third_given.worker.thread ≡ some b)
          × (suc (moves_left b.thread) ≡ moves_left third_given.worker.thread))
unfolding begin
stop-silent_example =
    stop-silent in_first third_given
      (after stopped stopped third_given (here stopped) (invokes stopped 9))
