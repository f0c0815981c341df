-- ===== src/UserDb/MapTree.antt =====
-- The search in the tree of the `std::map` that `SearchCache` of core/vca/sqlite_userdb.cpp keeps, and
-- when the list of the entries shows what it finds.
use vca.Prelude.{
  arith, ◌≡◌, refl, ap, sym, ◌∙◌, true, false, List, [], ◌∷◌, Option, none, some, if◌then◌else◌,
  Bool-cases, Option-cases, inl, inr, ◌⊎◌, ◌↔◌, In, here, there,
}
use mathlib.Core.Option.{some-injective}
use vca.UserDb.Contents.{FileContents, contents_lt}
use vca.UserDb.Order.{contents_lt-neither_iff}
use vca.UserDb.Cache.{equivalent, find}

pub data Tree {ℓ} (R : Type ℓ) : Type ℓ where
  leaf : Tree R
  node : Tree R → FileContents × R → Tree R → Tree R

pub data InTree {ℓ} {R : Type ℓ} (x : FileContents × R) : Tree R → Type ℓ where
  at_root : (l : Tree R) (e : FileContents × R) (r : Tree R) → x ≡ e → InTree x (node l e r)
  on_left : (l : Tree R) (e : FileContents × R) (r : Tree R) → InTree x l → InTree x (node l e r)
  on_right : (l : Tree R) (e : FileContents × R) (r : Tree R) → InTree x r → InTree x (node l e r)

-- The keys on the left of a node are less than its key, and that is less than those on the right.
pub data IsSearchTree {ℓ} {R : Type ℓ} : Tree R → Type ℓ where
  sorted_leaf : IsSearchTree leaf
  sorted_node :
      (l : Tree R) (e : FileContents × R) (r : Tree R)
      → IsSearchTree l
      → IsSearchTree r
      → ((x : FileContents × R) → InTree x l → contents_lt x.0 e.0 ≡ true)
      → ((x : FileContents × R) → InTree x r → contents_lt e.0 x.0 ≡ true)
      → IsSearchTree (node l e r)

pub irrefl : (k : FileContents) → contents_lt k k ≡ false
irrefl k = ((contents_lt-neither_iff k k).1 refl).0

module _ {ℓ} {R : Type ℓ} where
  -- The last node from which the way to the key went left.
  unfoldable pub lower_bound :
      FileContents → Tree R → Option (FileContents × R) → Option (FileContents × R)
  lower_bound k leaf best = best
  lower_bound k (node l e r) best =
      let left = lower_bound k l (some e) in
      let right = lower_bound k r best in if contents_lt e.0 k then right else left

  -- `std::map::find`
  unfoldable pub tree_find : FileContents → Tree R → Option R
  tree_find k t = elim (lower_bound k t none) [
    | none ↦ none
    | some e ↦ if contents_lt k e.0 then none else some e.1
  ]

  -- A search tree of just these entries.
  pub record IsMapOf (t : Tree R) (cache : List (FileContents × R)) : Type ℓ where
    pub sorted : IsSearchTree t
    pub same : (x : FileContents × R) → InTree x t ↔ In x cache

  -- `operator<` orders no key of the entries and this one both ways.
  abbrev pub IsOneWay : FileContents → List (FileContents × R) → Type ℓ
  IsOneWay k cache =
      (x : FileContents × R) → In x cache → contents_lt k x.0 ≡ true → contents_lt x.0 k ≡ false

  -- Where all keys are less there is no way to the left.
  bound_above :
      (k : FileContents) (t : Tree R) (best : Option (FileContents × R))
      → ((x : FileContents × R) → InTree x t → contents_lt x.0 k ≡ true)
      → lower_bound k t best ≡ best
  unfolding lower_bound
  bound_above k leaf best h = refl
  bound_above k (node l e r) best h =
      rw (h e (at_root l e r refl), lower_bound)
        (bound_above k r best (λ x m. h x (on_right l e r m)))

  bound_found :
      (x : FileContents × R) (t : Tree R) (best : Option (FileContents × R))
      → IsSearchTree t
      → ((y : FileContents × R)
          → InTree y t
          → contents_lt x.0 y.0 ≡ true
          → contents_lt y.0 x.0 ≡ false)
      → InTree x t
      → lower_bound x.0 t best ≡ some x
  unfolding lower_bound
  bound_found x _ best sorted_leaf one_way m = elim m [ ]
  bound_found x _ best (sorted_node l e r sl sr below above) one_way (at_root _ _ _ q) =
      let same : contents_lt e.0 x.0 ≡ false = ap (λ y. contents_lt e.0 y.0) q ∙ irrefl e.0 in
      rw (same, lower_bound)
        (bound_above x.0 l (some e) (λ y m. ap (λ z. contents_lt y.0 z.0) q ∙ below y m)
          ∙ ap some (sym q))
  bound_found x _ best (sorted_node l e r sl sr below above) one_way (on_left _ _ _ m) =
      let left : contents_lt e.0 x.0 ≡ false = one_way e (at_root l e r refl) (below x m) in
      rw (left, lower_bound) (bound_found x l (some e) sl (λ y n. one_way y (on_left l e r n)) m)
  bound_found x _ best (sorted_node l e r sl sr below above) one_way (on_right _ _ _ m) =
      rw (above x m, lower_bound) (bound_found x r best sr (λ y n. one_way y (on_right l e r n)) m)

  -- What is found is in the tree, and not less than the key.
  bound_sound :
      (k : FileContents) (t : Tree R) (best : Option (FileContents × R)) (x : FileContents × R)
      → lower_bound k t best ≡ some x
      → (best ≡ some x) ⊎ (InTree x t × (contents_lt x.0 k ≡ false))
  unfolding lower_bound
  bound_sound k leaf best x h = inl h
  bound_sound k (node l e r) best x h = elim (Bool-cases (contents_lt e.0 k)) [
    | inl f ↦ elim (bound_sound k r best x (rw (f, lower_bound) at h)) [
      | inl q ↦ inl q
      | inr (m, n) ↦ inr (on_right l e r m, n)
    ]
    | inr f ↦ elim (bound_sound k l (some e) x (rw (f, lower_bound) at h)) [
      | inl q ↦
          let same = some-injective e x q in
          inr (at_root l e r (sym same), ap (λ y. contents_lt y.0 k) (sym same) ∙ f)
      | inr (m, n) ↦ inr (on_left l e r m, n)
    ]
  ]

  find-In :
      (k : FileContents) (r : R) (cache : List (FileContents × R))
      → find k cache ≡ some r
      → In (k, r) cache
  unfolding find equivalent
  find-In k r [] h = cc h
  find-In k r ((j, q) ∷ cache) h = elim (Bool-cases (equivalent j k)) [
    | inl e ↦
        let same : j ≡ k = (contents_lt-neither_iff j k).0 (ground (arith, e)) in
        here (λ i. (sym same i, sym (some-injective q r (rw (e, find) at h)) i))
    | inr e ↦ there (find-In k r cache (rw (e, find) at h))
  ]

  find-missing :
      (k : FileContents) (x : FileContents × R) (cache : List (FileContents × R))
      → find k cache ≡ none
      → In x cache
      → x.0 ≡ k
      → ⊥
  unfolding find equivalent
  find-missing k x [] h m e = elim m [ ]
  find-missing k x ((j, q) ∷ cache) h (here s) e =
      let same : j ≡ k = sym (ap (λ y. y.0) s) ∙ e in
      let (f, g) = (contents_lt-neither_iff j k).1 same in cc (rw (f, g, find, equivalent) at h)
  find-missing k x ((j, q) ∷ cache) h (there m) e = elim (Bool-cases (equivalent j k)) [
    | inl f ↦ cc (rw (f, find) at h)
    | inr f ↦ find-missing k x cache (rw (f, find) at h) m e
  ]

  -- Where `operator<` orders no key of the map and the one that is asked for both ways, the search in
  -- the tree finds what the search in the list finds.
  pub tree_find-find :
      (k : FileContents) (t : Tree R) (cache : List (FileContents × R))
      → IsMapOf t cache
      → IsOneWay k cache
      → tree_find k t ≡ find k cache
  unfolding tree_find
  tree_find-find k t cache v one_way = elim (Option-cases (find k cache)) [
    | inr (r, e) ↦
        let m : InTree (k, r) t = (v.same (k, r)).1 (find-In k r cache e) in
        rw
          (
            bound_found (k, r) t none v.sorted (λ y n. one_way y ((v.same y).0 n)) m,
            irrefl k,
            e,
            tree_find,
          )
          refl
    | inl e ↦ elim (Option-cases (lower_bound k t none)) [
      | inl f ↦ rw (f, e, tree_find) refl
      | inr (x, f) ↦ elim (bound_sound k t none x f) [
        | inl q ↦ cc q
        | inr (m, n) ↦ elim (Bool-cases (contents_lt k x.0)) [
          | inl less ↦ rw (f, less, e, tree_find) refl
          | inr least ↦ absurd (
              find-missing k x cache e ((v.same x).0 m)
                ((contents_lt-neither_iff x.0 k).0 (n, least)))
        ]
      ]
    ]
  ]
