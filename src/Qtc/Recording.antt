-- ===== src/Qtc/Recording.antt =====
-- The recording of desktop/src/qtc/Model.cpp: an action that is undone gives the values back.
use vca.Prelude.{
  ◌≡◌, refl, ap, sym, ◌∙◌, Bool, true, false, List, [], ◌∷◌, ◌++◌, none, some, take, Decides,
  Bool-cases, inl, inr, arith,
}
use vca.Qtc.Node.{NodeId, UpdateType, Change, Action}
use vca.Qtc.Model.{
  Model, limit_actions, record_change, persist, track_value_change, set_value, end_action,
  start_action, undo_last, undo, redo,
}
use vca.Qtc.Writes.{values, write, rewind, replay, Chain, rewind-replay, values-set_value}
use vca.Qtc.Undo.{undo_last-effect, redo-effect}

module _ {V : Type 0} where
  limit_actions_full :
      (a : Action V) (older : List (Action V)) → limit_actions (a ∷ older) ≡ a ∷ take 99 older
  unfolding limit_actions
  limit_actions_full a older = refl

  end_action-active :
      (m : Model V) (changes : Action V)
      → m.active_action ≡ some changes
      → (values (end_action m) ≡ values m)
        × ((end_action m).undo_stack ≡ limit_actions (changes ∷ m.undo_stack))
        × ((end_action m).redo_stack ≡ m.redo_stack)
  unfolding end_action
  end_action-active m changes h = rw h (refl, refl, refl)

  Chain-append :
      (cs : List (Change V)) (c : Change V) (s : NodeId → V)
      → Chain s cs
      → replay cs s c.node ≡ c.old_value
      → Chain s (cs ++ c ∷ [])
  Chain-append [] c s h e = (e, tt)
  Chain-append (d ∷ cs) c s h e = (h.0, Chain-append cs c (write d.node d.new_value s) h.1 e)

  replay-append :
      (cs : List (Change V)) (c : Change V) (s : NodeId → V)
      → replay (cs ++ c ∷ []) s ≡ write c.node c.new_value (replay cs s)
  replay-append [] c s = refl
  replay-append (d ∷ cs) c s = replay-append cs c (write d.node d.new_value s)

  -- The values were `s` when the action began, and its changes so far led to the present ones.
  pub record IsRecording (s : NodeId → V) (undos : List (Action V)) (changes : Action V)
      (m : Model V) : Type 0 where
    pub ready : m.initialized ≡ true
    pub heeding : m.ignore_changes ≡ false
    pub active : m.active_action ≡ some changes
    pub stack : m.undo_stack ≡ undos
    pub chain : Chain s changes
    pub current : values m ≡ replay changes s

  -- Beginning an action records from the present values.
  pub start_action-IsRecording :
      (m : Model V)
      → m.initialized ≡ true
      → m.ignore_changes ≡ false
      → m.active_action ≡ none
      → IsRecording (values m) m.undo_stack [] (start_action m)
  unfolding start_action
  start_action-IsRecording m r h e =
      rw (e, start_action)
        (record { ready = r; heeding = h; active = refl; stack = refl; chain = tt; current = refl })

module _ {V : Type 0} (value_eq : V → V → Bool) where
  tracked-active :
      (id : NodeId) (v : V) (m : Model V) (changes : Action V)
      → m.initialized ≡ true
      → m.ignore_changes ≡ false
      → (m.nodes id).actionable ≡ true
      → m.active_action ≡ some changes
      → let c : Change V = record { node = id; old_value = (m.nodes id).value; new_value = v } in
        let t = track_value_change value_eq id v m in
        (t.initialized ≡ true)
        × (t.ignore_changes ≡ false)
        × (t.active_action ≡ some (changes ++ c ∷ []))
        × (t.undo_stack ≡ m.undo_stack)
  unfolding track_value_change persist record_change
  tracked-active id v m changes r h a e = ground arith

module _ {V : Type 0} (value_eq : V → V → Bool) (decides : Decides value_eq) where
  -- While an action is recorded, setting an actionable node keeps the record: the changes so far
  -- lead from the values of the beginning to the present ones, and the undo stack is as it was.
  pub set_value-IsRecording :
      (s : NodeId → V) (undos : List (Action V)) (changes : Action V) (id : NodeId) (v : V)
      (t : UpdateType) (m : Model V)
      → IsRecording s undos changes m
      → (m.nodes id).actionable ≡ true
      → (changes' : Action V) × IsRecording s undos changes' (set_value value_eq id v t m)
  unfolding set_value
  set_value-IsRecording s undos changes id v t m h a =
      elim (Bool-cases (value_eq (m.nodes id).value v)) [
        | inl e ↦ (changes, rw (e, set_value) h)
        | inr e ↦
            let c : Change V = record {
              node = id;
              old_value = (m.nodes id).value;
              new_value = v;
            } in
            let (ready, heeding, active, stack) =
              tracked-active value_eq id v m changes h.ready h.heeding a h.active in
            let now : values (set_value value_eq id v t m) ≡ replay (changes ++ c ∷ []) s =
              values-set_value value_eq decides id v t m
              ∙ ap (write id v) h.current
              ∙ sym (replay-append changes c s) in
            (
              changes ++ c ∷ [],
              record {
                ready = rw (e, set_value) ready;
                heeding = rw (e, set_value) heeding;
                active = rw (e, set_value) active;
                stack = rw (e, set_value) (stack ∙ h.stack);
                chain = Chain-append changes c s h.chain (ap (λ f. f id) (sym h.current));
                current = now;
              },
            )
      ]

  -- Undoing an action that was recorded gives back every value from before it, whatever changes it
  -- holds, and puts it on the redo stack, of which the 100 newest actions are kept.
  pub undo-IsRecording :
      (s : NodeId → V) (undos : List (Action V)) (changes : Action V) (m : Model V)
      → IsRecording s undos changes m
      → (values (undo value_eq m) ≡ s)
        × ((undo value_eq m).redo_stack ≡ limit_actions (changes ∷ m.redo_stack))
  unfolding undo
  undo-IsRecording s undos changes m h =
      let (vals, us, rs) = end_action-active m changes h.active in
      let (back, _, put, _) =
        undo_last-effect value_eq decides (end_action m) changes (take 99 m.undo_stack)
          (us ∙ limit_actions_full changes m.undo_stack) in
      (
        back ∙ ap (rewind changes) (vals ∙ h.current) ∙ rewind-replay changes s h.chain,
        put ∙ ap (λ r. limit_actions (changes ∷ r)) rs,
      )

  -- If the last action leads from some values to the present ones, redo after an undo gives the
  -- present values.
  pub redo-undo_last :
      (s : NodeId → V) (m : Model V) (last : Action V) (rest : List (Action V))
      → m.undo_stack ≡ last ∷ rest
      → Chain s last
      → values m ≡ replay last s
      → values (redo value_eq (undo_last value_eq m)) ≡ values m
  redo-undo_last s m last rest h c e =
      let (vals, us, rs, ig) = undo_last-effect value_eq decides m last rest h in
      redo-effect value_eq decides (undo_last value_eq m) last (take 99 m.redo_stack)
        (rs ∙ limit_actions_full last m.redo_stack)
      ∙ ap (replay last) (vals ∙ ap (rewind last) e ∙ rewind-replay last s c)
      ∙ sym e
