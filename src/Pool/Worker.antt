-- ===== src/Pool/Worker.antt =====
-- `Async` of core/vca/async.cpp and async.h, and `ThreadPool` of desktop/src/qtc/ThreadPool.cpp.
-- What stands between taking the mutex and giving it back is one step; the threads' steps may come
-- in any order. Tasks do not throw: those of `Async` keep an exception for their future.
use vca.Prelude.{
  ℕ, zero, suc, ◌<◌, ◌≡◌, Bool, true, false, List, [], ◌∷◌, ◌++◌, Option, none, some, if◌then◌else◌,
  ◌==◌,
}

-- A thread is about to look whether its wait is over, sleeps in the wait, calls a task or has left
-- the loop.
pub data Worker (T : Type 0) : Type 0 where
  waiting sleeping : Worker T
  running : T → Worker T
  exited : Worker T

-- The members of the class; whether `shutdown` has called `notify_all`; and as a history the tasks
-- that were pushed and those that a thread took, both in the order in which that was done.
pub record Pool (T : Type 0) : Type 0 where
  pub done : Bool
  pub notified : Bool
  pub thread_count : ℕ
  pub threads : ℕ → Worker T
  pub tasks : List T
  pub pushed : List T
  pub started : List T

-- What a thread can do next: push a task, from outside or from within a task, with the thread that
-- `notify_one` rouses; look whether the wait is over; come back from a task; begin `shutdown`; call
-- `notify_all` in it. `rouses` is a wait that ends without a call, or the `notify_one` of
-- `ThreadPool`, which comes after the mutex is given back.
pub data Event (T : Type 0) : Type 0 where
  pushes : T → Option ℕ → Event T
  pushes_from : ℕ → T → Option ℕ → Event T
  wakes returns rouses : ℕ → Event T
  shuts_down notifies_all : Event T

module _ {T : Type 0} where
  -- The constructor, when all of the threads start.
  abbrev pub start : ℕ → Pool T
  start n = record {
    done = false;
    notified = false;
    thread_count = n;
    threads = λ _. waiting;
    tasks = [];
    pushed = [];
    started = [];
  }

  abbrev pub set_thread : ℕ → Worker T → Pool T → Pool T
  set_thread i w p = record p { threads = λ j. if j == i then w else p.threads j }

  -- A thread that sleeps looks again.
  unfoldable pub awake : Worker T → Worker T
  awake waiting = waiting
  awake sleeping = waiting
  awake (running t) = running t
  awake exited = exited

  unfoldable pub notify_one : Option ℕ → Pool T → Pool T
  notify_one none p = p
  notify_one (some i) p = set_thread i (awake (p.threads i)) p

  unfoldable pub notify_all : Pool T → Pool T
  notify_all p = record p { notified = true; threads = λ j. awake (p.threads j) }

  -- `push`: without threads the task is run at once.
  unfoldable pub push : T → Option ℕ → Pool T → Pool T
  push t i p = elim p.thread_count [
    | zero ↦ record p { pushed = p.pushed ++ t ∷ []; started = p.started ++ t ∷ [] }
    | suc _ ↦ notify_one i (record p { pushed = p.pushed ++ t ∷ []; tasks = p.tasks ++ t ∷ [] })
  ]

  -- The head of the loop in `worker`: the condition of the wait, which gives the mutex back and
  -- sleeps while it does not hold, and what follows it up to the call of the task.
  unfoldable pub wake : ℕ → Pool T → Pool T
  wake i p = elim p.tasks [
    | [] ↦ if p.done then set_thread i exited p else set_thread i sleeping p
    | t ∷ rest ↦ record (set_thread i (running t) p) { tasks = rest; started = p.started ++ t ∷ [] }
  ]

  -- `shutdown` up to the call of `notify_all`.
  abbrev pub shut_down : Pool T → Pool T
  shut_down p = record p { done = true }

  unfoldable pub step : Event T → Pool T → Pool T
  step (pushes t i) p = push t i p
  step (pushes_from j t i) p = push t i p
  step (wakes i) p = wake i p
  step (returns i) p = set_thread i waiting p
  step (rouses i) p = notify_one (some i) p
  step shuts_down p = shut_down p
  step notifies_all p = notify_all p

  -- A call of `notify_one` rouses a thread that sleeps. `none` is allowed at any time, for a call that
  -- finds no sleeping thread and for one that is still to come.
  abbrev pub Roused : Option ℕ → Pool T → Type 0
  Roused none p = Unit
  Roused (some i) p = p.threads i ≡ sleeping

  -- When an event can happen. The pool is not used from outside once it is being destroyed.
  abbrev pub Allowed : Event T → Pool T → Type 0
  Allowed (pushes t i) p = (p.done ≡ false) × Roused i p
  Allowed (pushes_from j t i) p =
      (j < p.thread_count) × ((u : T) × (p.threads j ≡ running u)) × Roused i p
  Allowed (wakes i) p = (i < p.thread_count) × (p.threads i ≡ waiting)
  Allowed (returns i) p = (i < p.thread_count) × ((u : T) × (p.threads i ≡ running u))
  Allowed (rouses i) p = p.threads i ≡ sleeping
  Allowed shuts_down p = Unit
  Allowed notifies_all p = p.done ≡ true

  -- The pools that `n` threads can come to, in any order of their steps.
  pub data IsReached (n : ℕ) : Pool T → Type 0 where
    begins : IsReached n (start n)
    goes_on : (p : Pool T) (e : Event T) → IsReached n p → Allowed e p → IsReached n (step e p)
