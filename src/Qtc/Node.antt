-- ===== src/Qtc/Node.antt =====
-- `NodeBase` of desktop/src/qtc/NodeBase.h and `Action` of desktop/src/qtc/Action.h. The type of
-- values stands for Qt's `QVariant`.
use vca.Prelude.{ℕ, Bool, true, ◌&&◌, List, str_eq, ◌↔◌, ◌≡◌, str_eq_iff, arith}

-- A node is named by the endpoint of its handler and its key.
pub record NodeId : Type 0 where
  pub endpoint : List ℕ
  pub key : List ℕ

pub data UpdateType : Type 0 where
  user internal : UpdateType

pub record NodeBase (V : Type 0) : Type 0 where
  pub value : V
  pub default_value : V
  pub actionable : Bool
  pub persistent : Bool

-- `Action::Change`
pub record Change (V : Type 0) : Type 0 where
  pub node : NodeId
  pub old_value : V
  pub new_value : V

-- The changes of an action, oldest first.
abbrev pub Action : Type 0 → Type 0
Action V = List (Change V)

unfoldable pub id_eq : NodeId → NodeId → Bool
id_eq a b = str_eq a.endpoint b.endpoint && str_eq a.key b.key

pub id_eq_iff : (a b : NodeId) → (id_eq a b ≡ true) ↔ (a ≡ b)
unfolding id_eq
id_eq_iff a b =
    let ends = str_eq_iff a.endpoint b.endpoint in
    let keys = str_eq_iff a.key b.key in
    (λ e. ground (arith, ends, keys), λ e. ground (arith, ends, keys))
