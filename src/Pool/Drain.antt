-- ===== src/Pool/Drain.antt =====
-- The tasks of the thread pools of core/vca/async.cpp and desktop/src/qtc/ThreadPool.cpp.
use vca.Prelude.{
  Bool, Option, none, some, ℕ, zero, suc, ◌<◌, ◌≡◌, ◌≢◌, refl, ap, sym, ◌∙◌, true, List, [], ◌∷◌,
  ◌++◌, if◌then◌else◌, ◌==◌, append_assoc, append-nil, Bool-cases, inl, inr, ◌⊎◌, arith, if-elim,
  ==_iff,
}
use vca.Pool.Worker.{
  Worker, waiting, sleeping, running, exited, Pool, Event, pushes, pushes_from, wakes, returns,
  rouses, shuts_down, notifies_all, start, set_thread, awake, notify_one, notify_all, push, wake,
  step, Allowed, IsReached, begins, goes_on,
}

pub zero-cases : (n : ℕ) → (n ≡ 0) ⊎ ((m : ℕ) × (n ≡ suc m))
zero-cases zero = inl refl
zero-cases (suc m) = inr (m, refl)

module _ {T : Type 0} where
  -- Every thread has left its loop, so that `join` returns for each.
  abbrev pub AllExited : Pool T → Type 0
  AllExited p = (i : ℕ) → i < p.thread_count → p.threads i ≡ exited

  record IsSound (p : Pool T) : Type 0 where
    order : p.started ++ p.tasks ≡ p.pushed
    late : (i : ℕ) → p.threads i ≡ exited → p.done ≡ true
    empty : AllExited p → p.tasks ≡ []

  -- Setting a thread that has left its loop has to do with a pool that is done.
  set_thread-late :
      (i j : ℕ) (w : Worker T) (p : Pool T)
      → (w ≡ exited → p.done ≡ true)
      → (p.threads j ≡ exited → p.done ≡ true)
      → (set_thread i w p).threads j ≡ exited
      → p.done ≡ true
  set_thread-late i j w p new old =
      if-elim (λ v. v ≡ exited → p.done ≡ true) (j == i) w (p.threads j) (λ _. new) (λ _. old)

  pub set_thread_self : (i : ℕ) (w : Worker T) (p : Pool T) → (set_thread i w p).threads i ≡ w
  set_thread_self i w p = rw ((==_iff i i).1 refl)

  -- A pool of which a thread has not left its loop.
  not-AllExited : (p : Pool T) (i : ℕ) → i < p.thread_count → p.threads i ≢ exited → ¬ AllExited p
  not-AllExited p i lt h a = h (a i lt)

  -- Rousing makes no thread leave its loop.
  awake_exited : (w : Worker T) → awake w ≡ exited → w ≡ exited
  unfolding awake
  awake_exited waiting h = cc h
  awake_exited sleeping h = cc h
  awake_exited (running t) h = h
  awake_exited exited h = h

  -- Threads that did not leave their loops leave a sound pool sound.
  threads-IsSound :
      (p : Pool T) (f : ℕ → Worker T) (notified : Bool)
      → ((j : ℕ) → f j ≡ exited → p.threads j ≡ exited)
      → IsSound p
      → IsSound (record p { notified = notified; threads = f })
  threads-IsSound p f notified back s = record {
    order = s.order;
    late = λ j q. s.late j (back j q);
    empty = λ a. s.empty (λ j lt. back j (a j lt));
  }

  notify_one-IsSound : (i : Option ℕ) (p : Pool T) → IsSound p → IsSound (notify_one i p)
  unfolding notify_one
  notify_one-IsSound none p s = s
  notify_one-IsSound (some i) p s =
      threads-IsSound p (set_thread i (awake (p.threads i)) p).threads p.notified back s
    where
      back :
          (j : ℕ) → (set_thread i (awake (p.threads i)) p).threads j ≡ exited → p.threads j ≡ exited
      back j = elim (Bool-cases (j == i)) [
        | inl e ↦ λ h.
            let same : j ≡ i = (==_iff j i).0 e in
            ap p.threads same ∙ awake_exited (p.threads i) (rw e at h)
        | inr e ↦ λ h. rw e at h
      ]

  notify_all-IsSound : (p : Pool T) → IsSound p → IsSound (notify_all p)
  unfolding notify_all
  notify_all-IsSound p s =
      threads-IsSound p (λ j. awake (p.threads j)) true (λ j. awake_exited (p.threads j)) s

  push-IsSound :
      (t : T) (i : Option ℕ) (p : Pool T)
      → (0 < p.thread_count → ¬ AllExited p)
      → IsSound p
      → IsSound (push t i p)
  unfolding push
  push-IsSound t i p live s = elim (zero-cases p.thread_count) [
    | inl e ↦
        let none_left : p.tasks ≡ [] = s.empty (λ j lt. absurd (omega arith)) in
        let same : p.started ≡ p.pushed =
          sym (append-nil p.started) ∙ ap (p.started ++◌) (sym none_left) ∙ s.order in
        rw (e, push)
          (record {
            order =
                ap ((p.started ++ t ∷ []) ++◌) none_left
                ∙ append-nil (p.started ++ t ∷ [])
                ∙ ap (λ l. l ++ t ∷ []) same;
            late = s.late;
            empty = λ _. none_left;
          })
    | inr (n, e) ↦
        let busy : ¬ AllExited p = live (omega arith) in
        rw (e, push)
          (notify_one-IsSound i
            (record p { pushed = p.pushed ++ t ∷ []; tasks = p.tasks ++ t ∷ [] })
            (record {
              order = sym (append_assoc p.started p.tasks (t ∷ [])) ∙ ap (λ l. l ++ t ∷ []) s.order;
              late = s.late;
              empty = λ a. absurd (busy a);
            }))
  ]

  -- A thread of the pool that is set to another state than `exited`.
  set_thread-IsSound :
      (i : ℕ) (w : Worker T) (p : Pool T)
      → i < p.thread_count
      → w ≢ exited
      → IsSound p
      → IsSound (set_thread i w p)
  set_thread-IsSound i w p lt h s = record {
    order = s.order;
    late = λ j. set_thread-late i j w p (λ q. absurd (h q)) (s.late j);
    empty = λ a.
        absurd (not-AllExited (set_thread i w p) i lt (λ q. h (sym (set_thread_self i w p) ∙ q)) a);
  }

  wake_tasks-IsSound :
      (i : ℕ) (p : Pool T) (ts : List T)
      → i < p.thread_count
      → p.tasks ≡ ts
      → IsSound p
      → IsSound (elim ts [
        | [] ↦ if p.done then set_thread i exited p else set_thread i sleeping p
        | t ∷ rest ↦ record (set_thread i (running t) p) {
          tasks = rest;
          started = p.started ++ t ∷ [];
        }
      ])
  wake_tasks-IsSound i p [] lt e s =
      if-elim IsSound p.done (set_thread i exited p) (set_thread i sleeping p)
        (λ d. record {
          order = s.order;
          late = λ j. set_thread-late i j exited p (λ _. d) (s.late j);
          empty = λ _. e;
        })
        (λ _. set_thread-IsSound i sleeping p lt (λ q. cc q) s)
  wake_tasks-IsSound i p (t ∷ rest) lt e s = record {
    order = append_assoc p.started (t ∷ []) rest ∙ ap (p.started ++◌) (sym e) ∙ s.order;
    late = λ j. set_thread-late i j (running t) p (λ q. cc) (s.late j);
    empty = λ a. absurd (
        not-AllExited (set_thread i (running t) p) i lt
          (λ q. cc (set_thread_self i (running t) p, q)) a);
  }

  wake-IsSound : (i : ℕ) (p : Pool T) → i < p.thread_count → IsSound p → IsSound (wake i p)
  unfolding wake
  wake-IsSound i p lt s = wake_tasks-IsSound i p p.tasks lt refl s

  start-IsSound : (n : ℕ) → IsSound (start {T = T} n)
  start-IsSound n = record { order = refl; late = λ i q. cc; empty = λ _. refl }

  step-IsSound : (e : Event T) (p : Pool T) → Allowed e p → IsSound p → IsSound (step e p)
  unfolding step
  step-IsSound (pushes t i) p h s = push-IsSound t i p (λ lt a. cc (h.0, s.late 0 (a 0 lt))) s
  step-IsSound (pushes_from j t i) p (lt, (u, h), _) s =
      push-IsSound t i p (λ _. not-AllExited p j lt (λ q. cc (h, q))) s
  step-IsSound (wakes i) p (lt, w) s = wake-IsSound i p lt s
  step-IsSound (returns i) p (lt, _) s = set_thread-IsSound i waiting p lt (λ q. cc q) s
  step-IsSound (rouses i) p h s = notify_one-IsSound (some i) p s
  step-IsSound shuts_down p h s = record { order = s.order; late = λ _ _. refl; empty = s.empty }
  step-IsSound notifies_all p h s = notify_all-IsSound p s

  reached-IsSound : (n : ℕ) (p : Pool T) → IsReached n p → IsSound p
  reached-IsSound n _ begins = start-IsSound n
  reached-IsSound n _ (goes_on p e r h) = step-IsSound e p h (reached-IsSound n p r)

  -- Tasks are begun in the order in which they were pushed, each once.
  pub started-in_order : (n : ℕ) (p : Pool T) → IsReached n p → p.started ++ p.tasks ≡ p.pushed
  started-in_order n p r = (reached-IsSound n p r).order

  -- In whatever order the threads take their steps: when each has left its loop, so that the
  -- destructor has joined them all, every task that was pushed was begun, once and in the order of
  -- the pushes, those included that a task pushed during the shutdown.
  pub drained : (n : ℕ) (p : Pool T) → IsReached n p → AllExited p → p.started ≡ p.pushed
  drained n p r a =
      let s = reached-IsSound n p r in
      sym (append-nil p.started) ∙ ap (p.started ++◌) (sym (s.empty a)) ∙ s.order
