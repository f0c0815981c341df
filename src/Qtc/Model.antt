-- ===== src/Qtc/Model.antt =====
-- Class `Model` of desktop/src/qtc/Model.cpp with `NodeBase::setValueUnsafe`. Every node that is
-- named exists, as the source asserts. A deque is the list of its elements, the back first. What
-- the listeners of a node do is not modelled; that they are called is.
use vca.Prelude.{
  ℕ, Bool, true, false, not, ◌&&◌, List, [], ◌∷◌, ◌++◌, Option, none, some, if◌then◌else◌, str_eq,
  take, reverse,
}
use vca.Qtc.Node.{NodeId, UpdateType, internal, NodeBase, Change, Action, id_eq}

abbrev pub limit : ℕ
limit = 100

-- `QSettings`: the values by their full paths.
abbrev pub Settings : Type 0 → Type 0
Settings V = List ℕ → Option V

pub record Model (V : Type 0) : Type 0 where
  pub ignore_changes : Bool
  pub initialized : Bool
  pub nodes : NodeId → NodeBase V
  pub active_action : Option (Action V)
  pub undo_stack : List (Action V)
  pub redo_stack : List (Action V)
  pub settings : Settings V
  -- The calls of listeners, the last one first.
  pub notified : List (NodeId × UpdateType)

-- `limitActions`: while there are more than 100, the oldest one goes.
unfoldable pub limit_actions {ℓ} : {A : Type ℓ} → List A → List A
limit_actions actions = take limit actions

unfoldable pub full_path : NodeId → List ℕ
full_path id = id.endpoint ++ b'/' ∷ id.key

module _ {V : Type 0} where
  unfoldable pub start_action : Model V → Model V
  start_action m = elim m.active_action [ some a ↦ m | none ↦ record m { active_action = some [] } ]

  unfoldable pub end_action : Model V → Model V
  end_action m = elim m.active_action [
    | some a ↦ record m { active_action = none; undo_stack = limit_actions (a ∷ m.undo_stack) }
    | none ↦ m
  ]

  -- `mActiveAction->mChanges.push_back`
  unfoldable pub push_change : Change V → Model V → Model V
  push_change c m = elim m.active_action [
    | some a ↦ record m { active_action = some (a ++ c ∷ []) }
    | none ↦ m
  ]

  -- A change is recorded in the active action, or as an action of its own.
  unfoldable pub record_change : Change V → Model V → Model V
  unfolding start_action end_action push_change
  record_change c m = elim m.active_action [
    | some a ↦ push_change c m
    | none ↦ end_action (push_change c (start_action m))
  ]

  abbrev pub update_settings : Settings V → List ℕ → Option V → Settings V
  update_settings s path v = λ p. if str_eq p path then v else s p

  abbrev pub update_node : (NodeId → NodeBase V) → NodeId → V → NodeId → NodeBase V
  update_node nodes id v = λ j. if id_eq j id then record (nodes j) { value = v } else nodes j

module _ {V : Type 0} (value_eq : V → V → Bool) where
  -- The second half of `trackValueChange`.
  unfoldable pub persist : NodeId → V → Model V → Model V
  unfolding full_path
  persist id v m =
      if (m.nodes id).persistent
      then if value_eq v (m.nodes id).default_value
        then record m { settings = update_settings m.settings (full_path id) none }
        else record m { settings = update_settings m.settings (full_path id) (some v) }
      else m

  unfoldable pub track_value_change : NodeId → V → Model V → Model V
  track_value_change id v m =
      let change : Change V = record { node = id; old_value = (m.nodes id).value; new_value = v } in
      let recorded =
        if (m.nodes id).actionable && not m.ignore_changes then record_change change m else m in
      if not m.initialized then m else persist id v recorded

  -- `setValueUnsafe` of the node, which `Model::setValue` calls.
  unfoldable pub set_value : NodeId → V → UpdateType → Model V → Model V
  set_value id v type m =
      let tracked = track_value_change id v m in
      if value_eq (m.nodes id).value v then m else record tracked {
        nodes = update_node tracked.nodes id v;
        notified = (id, type) ∷ tracked.notified;
      }

  unfoldable pub assign_default : NodeId → UpdateType → Model V → Model V
  assign_default id type m = set_value id (m.nodes id).default_value type m

  -- The loops of `undo` and `redo` over the changes.
  unfoldable pub set_old : List (Change V) → Model V → Model V
  set_old [] m = m
  set_old (c ∷ cs) m = set_old cs (set_value c.node c.old_value internal m)

  unfoldable pub set_new : List (Change V) → Model V → Model V
  set_new [] m = m
  set_new (c ∷ cs) m = set_new cs (set_value c.node c.new_value internal m)

  unfoldable pub undo_last : Model V → Model V
  undo_last m = elim m.undo_stack [
    | [] ↦ m
    | last ∷ rest ↦
        let m' = set_old (reverse last) (record m { undo_stack = rest; ignore_changes = true }) in
        record m' { redo_stack = limit_actions (last ∷ m'.redo_stack); ignore_changes = false }
  ]

  unfoldable pub undo : Model V → Model V
  undo m = undo_last (end_action m)

  unfoldable pub redo : Model V → Model V
  redo m = elim m.redo_stack [
    | [] ↦ m
    | last ∷ rest ↦
        let m' = set_new last (record m { redo_stack = rest; ignore_changes = true }) in
        record m' { undo_stack = limit_actions (last ∷ m'.undo_stack); ignore_changes = false }
  ]
