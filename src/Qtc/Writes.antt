-- ===== src/Qtc/Writes.antt =====
-- The values of the nodes as a function, and what the loops of desktop/src/qtc/Model.cpp write.
use mathlib.Core.Path.{fun_ext}
use mathlib.Core.List.{reverse-cons}
use vca.Prelude.{
  ◌≡◌, refl, ap, sym, ◌∙◌, Bool, true, false, not, ◌&&◌, List, [], ◌∷◌, ◌++◌, if◌then◌else◌,
  reverse, Decides, Bool-cases, inl, inr, arith, if-elim,
}
use vca.Qtc.Node.{NodeId, UpdateType, internal, NodeBase, Change, id_eq, id_eq_iff}
use vca.Qtc.Model.{Model, record_change, persist, track_value_change, set_value, set_old, set_new}

module _ {V : Type 0} where
  abbrev pub values : Model V → NodeId → V
  values m id = (m.nodes id).value

  abbrev pub write : NodeId → V → (NodeId → V) → NodeId → V
  write id v s = λ j. if id_eq j id then v else s j

  -- The old values, written back from the last change to the first.
  abbrev pub rewind : List (Change V) → (NodeId → V) → NodeId → V
  rewind [] s = s
  rewind (c ∷ cs) s = write c.node c.old_value (rewind cs s)

  abbrev pub replay : List (Change V) → (NodeId → V) → NodeId → V
  replay [] s = s
  replay (c ∷ cs) s = replay cs (write c.node c.new_value s)

  -- Each change starts from the value that its node has by then.
  abbrev pub Chain : (NodeId → V) → List (Change V) → Type 0
  Chain s [] = Unit
  Chain s (c ∷ cs) = (s c.node ≡ c.old_value) × Chain (write c.node c.new_value s) cs

  write-write : (id : NodeId) (v w : V) (s : NodeId → V) → s id ≡ w → write id w (write id v s) ≡ s
  write-write id v w s h = fun_ext λ j. go j (id_eq j id) refl
    where
      go :
          (j : NodeId) (b : Bool) → id_eq j id ≡ b → (if b then w else (if b then v else s j)) ≡ s j
      go j true e = sym h ∙ ap s (sym ((id_eq_iff j id).0 e))
      go j false e = refl

  write_self : (id : NodeId) (v : V) (s : NodeId → V) → s id ≡ v → write id v s ≡ s
  write_self id v s h = fun_ext λ j. go j (id_eq j id) refl
    where
      go : (j : NodeId) (b : Bool) → id_eq j id ≡ b → (if b then v else s j) ≡ s j
      go j true e = sym h ∙ ap s (sym ((id_eq_iff j id).0 e))
      go j false e = refl

  value-if :
      (b : Bool) (n : NodeBase V) (v : V)
      → (if b then record n { value = v } else n).value ≡ (if b then v else n.value)
  value-if true n v = refl
  value-if false n v = refl

  -- A chain of changes that is undone gives the values back.
  pub rewind-replay :
      (cs : List (Change V)) (s : NodeId → V) → Chain s cs → rewind cs (replay cs s) ≡ s
  rewind-replay [] s h = refl
  rewind-replay (c ∷ cs) s h =
      ap (write c.node c.old_value) (rewind-replay cs (write c.node c.new_value s) h.1)
      ∙ write-write c.node c.new_value c.old_value s h.0

  record_change-nodes : (c : Change V) (m : Model V) → (record_change c m).nodes ≡ m.nodes
  unfolding record_change
  record_change-nodes c m = ground arith

  recorded-nodes :
      (b : Bool) (c : Change V) (m : Model V) → (if b then record_change c m else m).nodes ≡ m.nodes
  recorded-nodes true c m = record_change-nodes c m
  recorded-nodes false c m = refl

module _ {V : Type 0} (value_eq : V → V → Bool) where
  persist-nodes : (id : NodeId) (v : V) (m : Model V) → (persist value_eq id v m).nodes ≡ m.nodes
  unfolding persist
  persist-nodes id v m = ground arith

  track-nodes :
      (id : NodeId) (v : V) (m : Model V) → (track_value_change value_eq id v m).nodes ≡ m.nodes
  unfolding track_value_change
  track-nodes id v m =
      let c : Change V = record { node = id; old_value = (m.nodes id).value; new_value = v } in
      let recorded =
        if (m.nodes id).actionable && not m.ignore_changes then record_change c m else m in
      if-elim (λ (q : Model V). q.nodes ≡ m.nodes) (not m.initialized) m
        (persist value_eq id v recorded) (λ _. refl)
        (λ _.
          persist-nodes id v recorded
          ∙ recorded-nodes ((m.nodes id).actionable && not m.ignore_changes) c m)

  set_old-append :
      (xs ys : List (Change V)) (m : Model V)
      → set_old value_eq (xs ++ ys) m ≡ set_old value_eq ys (set_old value_eq xs m)
  unfolding set_old
  set_old-append [] ys m = refl
  set_old-append (c ∷ xs) ys m =
      set_old-append xs ys (set_value value_eq c.node c.old_value internal m)

  set_old-one :
      (c : Change V) (m : Model V)
      → set_old value_eq (c ∷ []) m ≡ set_value value_eq c.node c.old_value internal m
  unfolding set_old
  set_old-one c m = refl

  set_old-nil : (m : Model V) → set_old value_eq [] m ≡ m
  unfolding set_old
  set_old-nil m = refl

module _ {V : Type 0} (value_eq : V → V → Bool) (decides : Decides value_eq) where
  -- Setting a node changes its value and no other.
  pub values-set_value :
      (id : NodeId) (v : V) (type : UpdateType) (m : Model V)
      → values (set_value value_eq id v type m) ≡ write id v (values m)
  unfolding set_value
  values-set_value id v type m = elim (Bool-cases (value_eq (m.nodes id).value v)) [
    | inl e ↦ rw e (sym (write_self id v (values m) ((decides _ _).0 e)))
    | inr e ↦ rw (e, track-nodes value_eq id v m) (fun_ext λ j. value-if (id_eq j id) (m.nodes j) v)
  ]

  pub values-set_old :
      (cs : List (Change V)) (m : Model V)
      → values (set_old value_eq (reverse cs) m) ≡ rewind cs (values m)
  values-set_old [] m = ap values (set_old-nil value_eq m)
  values-set_old (c ∷ cs) m =
      ap (λ l. values (set_old value_eq l m)) (reverse-cons c cs)
      ∙ ap values (set_old-append value_eq (reverse cs) (c ∷ []) m)
      ∙ ap values (set_old-one value_eq c (set_old value_eq (reverse cs) m))
      ∙ values-set_value c.node c.old_value internal (set_old value_eq (reverse cs) m)
      ∙ ap (write c.node c.old_value) (values-set_old cs m)

  pub values-set_new :
      (cs : List (Change V)) (m : Model V) → values (set_new value_eq cs m) ≡ replay cs (values m)
  unfolding set_new
  values-set_new [] m = refl
  values-set_new (c ∷ cs) m =
      values-set_new cs (set_value value_eq c.node c.new_value internal m)
      ∙ ap (replay cs) (values-set_value c.node c.new_value internal m)
