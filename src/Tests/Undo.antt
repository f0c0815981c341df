-- ===== src/Tests/Undo.antt =====
-- Tests of undo and redo.
use vca.Prelude.{ℕ, ◌≡◌, refl, [], ◌∷◌, true, false, none, some, ◌==◌, ==_iff, if◌then◌else◌}
use vca.Qtc.Node.{NodeId, user, NodeBase, Change, Action, id_eq}
use vca.Qtc.Model.{Model, limit_actions, set_value, start_action, undo_last, undo, redo}
use vca.Qtc.Writes.{values, replay}
use vca.Qtc.Undo.{redo-effect}
use vca.Qtc.Recording.{
  IsRecording, start_action-IsRecording, set_value-IsRecording, undo-IsRecording, redo-undo_last,
}

abbrev width : NodeId
width = record { endpoint = b'w' ∷ []; key = b'x' ∷ [] }

abbrev plain : NodeBase ℕ
plain = record { value = 3; default_value = 0; actionable = true; persistent = false }

abbrev change : Change ℕ
change = record { node = width; old_value = 3; new_value = 5 }

abbrev fresh : Model ℕ
fresh = record {
  ignore_changes = false;
  initialized = true;
  nodes = λ _. plain;
  active_action = none;
  undo_stack = [];
  redo_stack = [];
  settings = λ _. none;
  notified = [];
}

abbrev changed : Model ℕ
changed = record fresh {
  nodes = λ j. record plain { value = if id_eq j width then 5 else 3 };
  undo_stack = (change ∷ []) ∷ [];
  redo_stack = (change ∷ []) ∷ [];
}

started-IsRecording : IsRecording (values fresh) [] [] (start_action fresh)
started-IsRecording = start_action-IsRecording fresh refl refl refl

set_value-IsRecording_example :
    (changes : Action ℕ) × IsRecording
      (values fresh)
      []
      changes
      (set_value ◌==◌ width 5 user (start_action fresh))
unfolding start_action
set_value-IsRecording_example =
    set_value-IsRecording ◌==◌ ==_iff (values fresh) [] [] width 5 user (start_action fresh)
      started-IsRecording refl

-- The model in the midst of an action with one change.
abbrev dragging : Model ℕ
dragging = record changed { active_action = some (change ∷ []); undo_stack = [] }

dragging-IsRecording : IsRecording (values fresh) [] (change ∷ []) dragging
dragging-IsRecording = record {
  ready = refl;
  heeding = refl;
  active = refl;
  stack = refl;
  chain = (refl, tt);
  current = refl;
}

undo-IsRecording_example :
    (values (undo ◌==◌ dragging) ≡ values fresh)
    × ((undo ◌==◌ dragging).redo_stack ≡ limit_actions ((change ∷ []) ∷ dragging.redo_stack))
undo-IsRecording_example =
    undo-IsRecording ◌==◌ ==_iff (values fresh) [] (change ∷ []) dragging dragging-IsRecording

redo-undo_last_example : values (redo ◌==◌ (undo_last ◌==◌ changed)) ≡ values changed
redo-undo_last_example =
    redo-undo_last ◌==◌ ==_iff (values fresh) changed (change ∷ []) [] refl (refl, tt) refl

redo-effect_example : values (redo ◌==◌ changed) ≡ replay (change ∷ []) (values changed)
redo-effect_example = redo-effect ◌==◌ ==_iff changed (change ∷ []) [] refl
