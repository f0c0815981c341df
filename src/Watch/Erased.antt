-- ===== src/Watch/Erased.antt =====
-- The loop of `user_config_changed` in daemon/src/file_watcher.cpp and daemon/src/file_scanner.cpp
-- that erases directories.
use vca.Prelude.{
  ℕ, ◌≡◌, ◌≢◌, refl, ap, sym, ◌∙◌, true, not, List, [], ◌∷◌, filter, Bool-cases, inl, inr, ◌↔◌,
  subst, In, here, there, not-In-nil,
}
use vca.Paths.Path.{FilePath, path_eq}
use vca.UserDb.Sql.{Sql}
use vca.UserDb.Store.{remove_root_dir}
use vca.UserDb.Roots.{roots, filter-others_iff, remove_root_dir-roots}
use vca.Watch.Sync.{Observer, erase_dirs}

-- Membership less a list.
abbrev pub IsLess : FilePath → List FilePath → List FilePath → Type 0
IsLess d ds trash = In d ds × (¬ In d trash)

IsLess-cons :
    (d dir : FilePath) (trash ds ds' ds'' : List FilePath)
    → In d ds' ↔ (In d ds × (d ≢ dir))
    → In d ds'' ↔ IsLess d ds' trash
    → In d ds'' ↔ IsLess d ds (dir ∷ trash)
IsLess-cons d dir trash ds ds' ds'' one rest = (to, from)
  where
    to : In d ds'' → IsLess d ds (dir ∷ trash)
    to m = let (n, out) = rest.0 m in let (k, ne) = one.0 n in (k, apart ne out)
      where
        apart : d ≢ dir → ¬ In d trash → ¬ In d (dir ∷ trash)
        apart ne out (here e) = ne e
        apart ne out (there i) = out i

    from : IsLess d ds (dir ∷ trash) → In d ds''
    from (m, out) = rest.1 (one.1 (m, λ e. out (here e)), λ i. out (there i))

module _ {D : Type 0} (sql : Sql D) (current : List (List ℕ)) where
  erased : FilePath → Observer D → Observer D
  erased dir o = record {
    kept = filter (λ d. not (path_eq d dir)) o.kept;
    db = (remove_root_dir sql current dir o.db).0;
  }

  erase-ends :
      (dir : FilePath) (trash : List FilePath) (o : Observer D)
      → (erase_dirs sql current (dir ∷ trash) o).1 ≡ true
      → ((remove_root_dir sql current dir o.db).1 ≡ true)
        × (erase_dirs sql current (dir ∷ trash) o ≡ erase_dirs sql current trash (erased dir o))
  unfolding erase_dirs erased
  erase-ends dir trash o h = elim (Bool-cases (remove_root_dir sql current dir o.db).1) [
    | inl e ↦ (e, rw (e, erase_dirs) refl)
    | inr e ↦ cc (rw (e, erase_dirs) at h)
  ]

  -- The state that a loop without an exception leaves.
  abbrev pub IsErased : FilePath → List FilePath → Observer D → Observer D → Type 0
  IsErased d trash o o' =
      (In d o'.kept ↔ IsLess d o.kept trash) × (In d (roots o'.db) ↔ IsLess d (roots o.db) trash)

  pub erase_dirs-IsErased :
      (d : FilePath) (trash : List FilePath) (o : Observer D)
      → (erase_dirs sql current trash o).1 ≡ true
      → IsErased d trash o (erase_dirs sql current trash o).0
  unfolding erase_dirs erased
  erase_dirs-IsErased d [] o h =
      ((λ m. (m, not-In-nil d), λ (m, _). m), (λ m. (m, not-In-nil d), λ (m, _). m))
  erase_dirs-IsErased d (dir ∷ trash) o h =
      let (ok, ran) = erase-ends dir trash o h in
      let (keeps, knows) =
        erase_dirs-IsErased d trash (erased dir o) (ap (λ r. r.1) (sym ran) ∙ h) in
      subst (λ r. IsErased d (dir ∷ trash) o r.0) (sym ran)
        (
          IsLess-cons d dir trash o.kept (erased dir o).kept _
              (filter-others_iff sql current dir d o.kept) keeps,
          IsLess-cons d dir trash (roots o.db) (roots (erased dir o).db) _
              (remove_root_dir-roots sql current dir d o.db ok) knows,
        )
