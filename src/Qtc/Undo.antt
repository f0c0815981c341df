-- ===== src/Qtc/Undo.antt =====
-- What undo and redo of desktop/src/qtc/Model.cpp do to the values and to the two stacks.
use vca.Prelude.{◌≡◌, refl, ap, ◌∙◌, Bool, true, false, List, [], ◌∷◌, reverse, Decides, arith}
use vca.Qtc.Node.{NodeId, UpdateType, internal, Change, Action}
use vca.Qtc.Model.{
  Model, limit_actions, persist, track_value_change, set_value, set_old, undo_last, redo,
}
use vca.Qtc.Writes.{values, rewind, replay, values-set_old, values-set_new}

module _ {V : Type 0} where
  -- What the loops of `undo` and `redo` leave alone.
  pub record Kept (m m' : Model V) : Type 0 where
    pub ignoring : m'.ignore_changes ≡ true
    pub active : m'.active_action ≡ m.active_action
    pub undos : m'.undo_stack ≡ m.undo_stack
    pub redos : m'.redo_stack ≡ m.redo_stack

  Kept-trans : (a b c : Model V) → Kept a b → Kept b c → Kept a c
  Kept-trans a b c h k = record {
    ignoring = k.ignoring;
    active = k.active ∙ h.active;
    undos = k.undos ∙ h.undos;
    redos = k.redos ∙ h.redos;
  }

module _ {V : Type 0} (value_eq : V → V → Bool) where
  set_value-Kept :
      (id : NodeId) (v : V) (t : UpdateType) (m : Model V)
      → m.ignore_changes ≡ true
      → Kept m (set_value value_eq id v t m)
  unfolding set_value track_value_change persist
  set_value-Kept id v t m h = ground arith

  set_old-Kept :
      (cs : List (Change V)) (m : Model V)
      → m.ignore_changes ≡ true
      → Kept m (set_old value_eq cs m)
  unfolding set_old
  set_old-Kept [] m h = record { ignoring = h; active = refl; undos = refl; redos = refl }
  set_old-Kept (c ∷ cs) m h =
      let m' = set_value value_eq c.node c.old_value internal m in
      let one = set_value-Kept c.node c.old_value internal m h in
      Kept-trans m m' (set_old value_eq cs m') one (set_old-Kept cs m' one.ignoring)

module _ {V : Type 0} (value_eq : V → V → Bool) (decides : Decides value_eq) where
  -- The last action is taken back: its old values are written, from its last change to its first,
  -- and it moves to the redo stack, of which the 100 newest actions are kept.
  pub undo_last-effect :
      (m : Model V) (last : Action V) (rest : List (Action V))
      → m.undo_stack ≡ last ∷ rest
      → (values (undo_last value_eq m) ≡ rewind last (values m))
        × ((undo_last value_eq m).undo_stack ≡ rest)
        × ((undo_last value_eq m).redo_stack ≡ limit_actions (last ∷ m.redo_stack))
        × ((undo_last value_eq m).ignore_changes ≡ false)
  unfolding undo_last
  undo_last-effect m last rest h =
      let start : Model V = record m { undo_stack = rest; ignore_changes = true } in
      let kept = set_old-Kept value_eq (reverse last) start refl in
      rw (h, undo_last)
        (
          values-set_old value_eq decides last start,
          kept.undos,
          ap (λ r. limit_actions (last ∷ r)) kept.redos,
          refl,
        )

  -- The last action that was taken back is made again, whatever changed in between: its new
  -- values are written, from its first change to its last.
  pub redo-effect :
      (m : Model V) (last : Action V) (rest : List (Action V))
      → m.redo_stack ≡ last ∷ rest
      → values (redo value_eq m) ≡ replay last (values m)
  unfolding redo
  redo-effect m last rest h =
      rw (h, redo)
        (values-set_new value_eq decides last
          (record m { redo_stack = rest; ignore_changes = true }))
