-- ===== src/Watch/Changed.antt =====
-- What `user_config_changed` of daemon/src/file_watcher.cpp and daemon/src/file_scanner.cpp leaves.
use vca.Prelude.{
  ℕ, ◌≡◌, refl, ap, sym, ◌∙◌, Bool, true, not, List, filter, Bool-cases, inl, inr, ◌⊎◌, ◌↔◌, subst,
  In, In-filter, In-of-filter,
}
use vca.Paths.Path.{FilePath}
use vca.UserDb.Sql.{Sql}
use vca.UserDb.Roots.{roots, any_path_iff}
use vca.Watch.Sync.{Observer, is_in, erase_dirs, add_dirs, user_config_changed}
use vca.Watch.Erased.{IsErased, erase_dirs-IsErased}
use vca.Watch.Added.{IsAdded, IsKnown, add_dirs-IsAdded}

unfoldable pub trash_of : List FilePath → List FilePath → List FilePath
trash_of root_dirs kept = filter (λ d. not (is_in d root_dirs)) kept

In-cases : (d : FilePath) (ds : List FilePath) → In d ds ⊎ (¬ In d ds)
In-cases d ds = elim (Bool-cases (is_in d ds)) [
  | inl e ↦ inl ((any_path_iff d ds).0 e)
  | inr e ↦ inr (λ m. cc (e, (any_path_iff d ds).1 m))
]

trash_iff :
    (d : FilePath) (root_dirs kept : List FilePath)
    → In d (trash_of root_dirs kept) ↔ (In d kept × (¬ In d root_dirs))
unfolding trash_of
trash_iff d root_dirs kept = (to, from)
  where
    to : In d (filter (λ a. not (is_in a root_dirs)) kept) → In d kept × (¬ In d root_dirs)
    to m =
        let (n, e) = In-of-filter (λ a. not (is_in a root_dirs)) kept d m in
        (n, λ i. cc (e, ap not ((any_path_iff d root_dirs).1 i)))

    from : In d kept × (¬ In d root_dirs) → In d (filter (λ a. not (is_in a root_dirs)) kept)
    from (m, out) =
        In-filter (λ a. not (is_in a root_dirs)) kept d m
          (elim (Bool-cases (is_in d root_dirs)) [
            | inl e ↦ absurd (out ((any_path_iff d root_dirs).0 e))
            | inr e ↦ rw e refl
          ])

module _ {D : Type 0} (sql : Sql D) (current : List (List ℕ)) where
  changed-ends :
      (opens : FilePath → Bool) (root_dirs : List FilePath) (o : Observer D)
      → (user_config_changed sql current opens root_dirs o).1 ≡ true
      → let r = erase_dirs sql current (trash_of root_dirs o.kept) o in
        (r.1 ≡ true)
        × (user_config_changed sql current opens root_dirs o
            ≡ add_dirs sql current opens root_dirs r.0)
  unfolding user_config_changed trash_of
  changed-ends opens root_dirs o h =
      elim (Bool-cases (erase_dirs sql current (trash_of root_dirs o.kept) o).1) [
        | inl e ↦ (e, rw (e, user_config_changed) refl)
        | inr e ↦ cc (e, (rw (e, user_config_changed) at h))
      ]

  -- What is kept after the change, and which root directories the database knows then.
  abbrev pub IsChanged :
      (FilePath → Bool) → List FilePath → FilePath → Observer D → Observer D → Type 0
  IsChanged opens root_dirs d o o' =
      (In d o'.kept ↔ (In d root_dirs × (In d o.kept ⊎ (opens d ≡ true))))
      × (In d (roots o'.db) ↔ (In d root_dirs ⊎ (In d (roots o.db) × (¬ In d o.kept))))

  combine :
      (opens : FilePath → Bool) (root_dirs : List FilePath) (d : FilePath) (o o' o'' : Observer D)
      → IsErased sql current d (trash_of root_dirs o.kept) o o'
      → IsAdded sql current opens d root_dirs o' o''
      → IsChanged opens root_dirs d o o''
  combine opens root_dirs d o o' o'' (k1, r1) (k2, r2) = ((to, from), (to_db, from_db))
    where
      trash : In d (trash_of root_dirs o.kept) ↔ (In d o.kept × (¬ In d root_dirs))
      trash = trash_iff d root_dirs o.kept

      to : In d o''.kept → In d root_dirs × (In d o.kept ⊎ (opens d ≡ true))
      to m = elim (k2.0 m) [
        | inr (n, e) ↦ (n, inr e)
        | inl n ↦ elim (In-cases d root_dirs) [
          | inl i ↦ (i, inl (k1.0 n).0)
          | inr i ↦ absurd ((k1.0 n).1 (trash.1 ((k1.0 n).0, i)))
        ]
      ]

      from : In d root_dirs × (In d o.kept ⊎ (opens d ≡ true)) → In d o''.kept
      from (m, inl n) = k2.1 (inl (k1.1 (n, λ t. (trash.0 t).1 m)))
      from (m, inr e) = k2.1 (inr (m, e))

      to_db : In d (roots o''.db) → In d root_dirs ⊎ (In d (roots o.db) × (¬ In d o.kept))
      to_db m = elim (r2.0 m) [
        | inr n ↦ inl n
        | inl n ↦ elim (In-cases d root_dirs) [
          | inl i ↦ inl i
          | inr i ↦ inr ((r1.0 n).0, λ k. (r1.0 n).1 (trash.1 (k, i)))
        ]
      ]

      from_db : In d root_dirs ⊎ (In d (roots o.db) × (¬ In d o.kept)) → In d (roots o''.db)
      from_db (inl m) = r2.1 (inr m)
      from_db (inr (m, out)) = r2.1 (inl (r1.1 (m, λ t. out (trash.0 t).0)))

  -- Where no call of the database throws, and what is kept and still configured is known to it:
  -- kept are afterwards the configured directories that were kept or can be opened, and the
  -- database knows the configured directories and those that it knew and that were not kept.
  pub user_config_changed-IsChanged :
      (opens : FilePath → Bool) (root_dirs : List FilePath) (d : FilePath) (o : Observer D)
      → IsKnown sql current root_dirs o
      → (user_config_changed sql current opens root_dirs o).1 ≡ true
      → IsChanged opens root_dirs d o (user_config_changed sql current opens root_dirs o).0
  user_config_changed-IsChanged opens root_dirs d o known h =
      let (ok, ran) = changed-ends opens root_dirs o h in
      let trash = trash_of root_dirs o.kept in
      let o' = (erase_dirs sql current trash o).0 in
      let still : IsKnown sql current root_dirs o' = λ x m n.
        let erased = erase_dirs-IsErased sql current x trash o ok in
        let (kept, out) = erased.0.0 m in erased.1.1 (known x kept n, out) in
      subst (λ r. IsChanged opens root_dirs d o r.0) (sym ran)
        (combine opens root_dirs d o o' (add_dirs sql current opens root_dirs o').0
          (erase_dirs-IsErased sql current d trash o ok)
          (add_dirs-IsAdded sql current opens d root_dirs o' still (ap (λ r. r.1) (sym ran) ∙ h)))
