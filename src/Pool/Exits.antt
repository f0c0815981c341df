-- ===== src/Pool/Exits.antt =====
-- How a thread of the pools of core/vca/async.cpp and desktop/src/qtc/ThreadPool.cpp leaves its loop
-- in `shutdown`.
use vca.Prelude.{ℕ, zero, suc, ◌<◌, ◌≡◌, ◌≢◌, true, length}
use vca.Pool.Worker.{
  Worker, waiting, sleeping, running, exited, Pool, wakes, returns, step, IsReached,
}

module _ {T : Type 0} where
  -- After `notify_all` the pool is done and no thread sleeps.
  abbrev IsRoused : Pool T → Type 0
  IsRoused p = p.notified ≡ true → (p.done ≡ true) × ((i : ℕ) → p.threads i ≢ sleeping)

  -- What one thread does that is left to itself: it comes back from its task, and then come rounds
  -- of its loop.
  unfoldable pub come_back : ℕ → Pool T → Pool T
  come_back i p = elim (p.threads i) [
    | waiting ↦ p
    | sleeping ↦ p
    | running t ↦ step (returns i) p
    | exited ↦ p
  ]

  unfoldable pub rounds : ℕ → ℕ → Pool T → Pool T
  rounds zero i p = p
  rounds (suc k) i p = rounds k i (step (returns i) (step (wakes i) p))

  abbrev pub finish : ℕ → Pool T → Pool T
  finish i p = step (wakes i) (rounds (length p.tasks) i (come_back i p))

  -- The thread is about to look whether its wait is over.
  record IsLooking (n i : ℕ) (p : Pool T) : Type 0 where
    reached : IsReached n p
    counted : i < p.thread_count
    looks : p.threads i ≡ waiting
    ending : p.done ≡ true
