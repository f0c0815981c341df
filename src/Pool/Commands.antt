-- ===== src/Pool/Commands.antt =====
-- `CommandQueue` of desktop/src/qtc/CommandQueue.cpp.
use vca.Prelude.{◌≡◌, refl, sym, ◌∙◌, List, [], ◌∷◌, ◌++◌, append_assoc, append-nil, map, flatten}

-- The member, and as a history the commands that were run.
pub record Queue (T : Type 0) : Type 0 where
  pub commands : List T
  pub ran : List T

-- `pushes_of c` is what is pushed while the command runs, by itself or by another thread.
module _ {T : Type 0} (pushes_of : T → List T) where
  unfoldable pub push_command : T → Queue T → Queue T
  push_command t q = record q { commands = q.commands ++ t ∷ [] }

  -- One round of the loop in `sync`.
  unfoldable pub run_command : T → Queue T → Queue T
  run_command c q = record { commands = q.commands ++ pushes_of c; ran = q.ran ++ c ∷ [] }

  unfoldable pub run_commands : List T → Queue T → Queue T
  run_commands [] q = q
  run_commands (c ∷ commands) q = run_commands commands (run_command c q)

  -- `sync`: the queue is taken whole, and left empty, before the first command is run.
  unfoldable pub sync : Queue T → Queue T
  sync q = elim q.commands [
    | [] ↦ q
    | c ∷ commands ↦ run_commands (c ∷ commands) (record q { commands = [] })
  ]

  -- What some commands that were run leave.
  IsAfter : List T → Queue T → Queue T → Type 0
  IsAfter cs q q' =
      (q'.ran ≡ q.ran ++ cs) × (q'.commands ≡ q.commands ++ flatten (map pushes_of cs))

  run_commands-IsAfter : (cs : List T) (q : Queue T) → IsAfter cs q (run_commands cs q)
  unfolding run_commands run_command flatten IsAfter
  run_commands-IsAfter [] q = (sym (append-nil q.ran), sym (append-nil q.commands))
  run_commands-IsAfter (c ∷ cs) q =
      let (ran, pushed) = run_commands-IsAfter cs (run_command c q) in
      (
        ran ∙ append_assoc q.ran (c ∷ []) cs,
        pushed ∙ append_assoc q.commands (pushes_of c) (flatten (map pushes_of cs)),
      )

  sync-cases :
      (commands ran : List T)
      → IsAfter commands
          (record { commands = []; ran = ran })
          (sync (record { commands = commands; ran = ran }))
  unfolding sync flatten IsAfter
  sync-cases [] ran = (sym (append-nil ran), refl)
  sync-cases (c ∷ cs) ran = run_commands-IsAfter (c ∷ cs) (record { commands = []; ran = ran })

  -- A call of `sync` runs the commands that were there when it began, in the order in which they
  -- were pushed, and no other: what is pushed meanwhile waits in its order for the next call.
  pub sync-ran :
      (q : Queue T)
      → ((sync q).ran ≡ q.ran ++ q.commands)
        × ((sync q).commands ≡ flatten (map pushes_of q.commands))
  unfolding IsAfter
  sync-ran q = sync-cases q.commands q.ran
