-- ===== src/Tests/Pool.antt =====
-- Tests of the thread pools, with one thread and two tasks, and of the queue of commands.
use vca.Prelude.{none, ℕ, zero, suc, ◌≡◌, refl, ◌++◌, arith, map, flatten, ◌+◌, ◌∷◌, List, []}
use vca.Pool.Worker.{
  Pool, pushes, wakes, returns, shuts_down, notifies_all, awake, notify_one, notify_all, start,
  push, wake, step, IsReached, begins, goes_on,
}
use vca.Pool.Commands.{Queue, sync, sync-ran}
use vca.Pool.Drain.{AllExited, drained}

abbrev pushed_two : Pool ℕ
unfolding step push notify_one
pushed_two = step (pushes 8 none) (step (pushes 7 none) (start 1))

abbrev ended : Pool ℕ
unfolding step
ended = step shuts_down pushed_two

abbrev finished : Pool ℕ
unfolding step wake
finished =
    step (wakes 0) (step (returns 0) (step (wakes 0) (step (returns 0) (step (wakes 0) ended))))

finished-IsReached : IsReached 1 finished
unfolding step push notify_one wake
finished-IsReached =
    goes_on _ (wakes 0)
      (goes_on _ (returns 0)
        (goes_on _ (wakes 0)
          (goes_on _ (returns 0)
            (goes_on _ (wakes 0)
              (goes_on _ shuts_down
                (goes_on _ (pushes 8 none) (goes_on _ (pushes 7 none) begins (refl, tt)) (refl, tt))
                tt)
              (omega arith, refl))
            (omega arith, (7, refl)))
          (omega arith, refl))
        (omega arith, (8, refl)))
      (omega arith, refl)

finished-AllExited : AllExited finished
unfolding step push notify_one wake
finished-AllExited zero h = refl
finished-AllExited (suc i) h = absurd (omega arith)

drained_example : finished.started ≡ finished.pushed
drained_example = drained 1 finished finished-IsReached finished-AllExited

-- The thread sleeps for want of a task, and the shutdown rouses it; a task is pushed before.
abbrev roused : Pool ℕ
unfolding step wake push notify_one notify_all awake
roused = step notifies_all (step shuts_down (step (pushes 7 none) (step (wakes 0) (start 1))))

abbrev queue : Queue ℕ
queue = record { commands = 1 ∷ 2 ∷ []; ran = [] }

abbrev pushes_next : ℕ → List ℕ
pushes_next c = (c + 10) ∷ []

sync-ran_example :
    ((sync pushes_next queue).ran ≡ queue.ran ++ queue.commands)
    × ((sync pushes_next queue).commands ≡ flatten (map pushes_next queue.commands))
sync-ran_example = sync-ran pushes_next queue
