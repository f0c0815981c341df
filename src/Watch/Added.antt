-- ===== src/Watch/Added.antt =====
-- The loop of `user_config_changed` in daemon/src/file_watcher.cpp and daemon/src/file_scanner.cpp
-- that adds directories.
use vca.Prelude.{
  ℕ, ◌≡◌, refl, ap, sym, ◌∙◌, Bool, true, false, List, [], ◌∷◌, insert_by, Bool-cases, inl, inr,
  ◌⊎◌, ◌↔◌, subst, In, here, there, not-In-nil, In-insert_by_self, In-insert_by, In-of-insert_by,
}
use vca.Paths.Path.{FilePath}
use vca.UserDb.Results.{path_lt}
use vca.UserDb.Found.{path_lt_antisym}
use vca.UserDb.Sql.{Sql}
use vca.UserDb.Store.{add_root_dir}
use vca.UserDb.Roots.{roots, any_path_iff, add_root_dir-roots}
use vca.Watch.Sync.{Observer, is_in, emplace_if, add_dirs}

emplace_if_iff :
    (opens : FilePath → Bool) (dir d : FilePath) (kept : List FilePath)
    → In d (emplace_if opens dir kept) ↔ (In d kept ⊎ ((d ≡ dir) × (opens dir ≡ true)))
unfolding emplace_if
emplace_if_iff opens dir d kept = elim (Bool-cases (opens dir)) [
  | inr e ↦ rw e (λ m. inl m, λ o. elim o [ inl m ↦ m | inr (_, f) ↦ cc f ])
  | inl e ↦ rw e (
    λ m. elim (In-of-insert_by path_lt dir d kept m) [ inl q ↦ inr (q, refl) | inr n ↦ inl n ],
    λ o. elim o [
      | inl m ↦ In-insert_by path_lt dir d kept m
      | inr (q, _) ↦
          subst (λ x. In x (insert_by path_lt dir kept)) (sym q)
            (In-insert_by_self path_lt path_lt_antisym dir kept)
    ],
  )
]

module _ {D : Type 0} (sql : Sql D) (current : List (List ℕ)) where
  -- One round of the loop that adds.
  added : (FilePath → Bool) → FilePath → Observer D → Observer D
  added opens dir o = record {
    kept = emplace_if opens dir o.kept;
    db = (add_root_dir sql current dir o.db).0;
  }

  add-ends :
      (opens : FilePath → Bool) (dir : FilePath) (dirs : List FilePath) (o : Observer D)
      → is_in dir o.kept ≡ false
      → (add_dirs sql current opens (dir ∷ dirs) o).1 ≡ true
      → ((add_root_dir sql current dir o.db).1 ≡ true)
        × (add_dirs sql current opens (dir ∷ dirs) o
            ≡ add_dirs sql current opens dirs (added opens dir o))
  unfolding add_dirs added
  add-ends opens dir dirs o new h = elim (Bool-cases (add_root_dir sql current dir o.db).1) [
    | inl e ↦ (e, rw (new, e, add_dirs) refl)
    | inr e ↦ cc (rw (new, e, add_dirs) at h)
  ]

  -- What the loop that adds leaves, where the directories that it passes over are known.
  abbrev pub IsAdded :
      (FilePath → Bool) → FilePath → List FilePath → Observer D → Observer D → Type 0
  IsAdded opens d dirs o o' =
      (In d o'.kept ↔ (In d o.kept ⊎ (In d dirs × (opens d ≡ true))))
      × (In d (roots o'.db) ↔ (In d (roots o.db) ⊎ In d dirs))

  abbrev pub IsKnown : List FilePath → Observer D → Type 0
  IsKnown dirs o = (x : FilePath) → In x o.kept → In x dirs → In x (roots o.db)

  passed-IsAdded :
      (opens : FilePath → Bool) (d dir : FilePath) (dirs : List FilePath) (o o' : Observer D)
      → In dir o.kept
      → In dir (roots o.db)
      → IsAdded opens d dirs o o'
      → IsAdded opens d (dir ∷ dirs) o o'
  passed-IsAdded opens d dir dirs o o' kept known (keeps, knows) = (
    (λ m. elim (keeps.0 m) [ inl n ↦ inl n | inr (n, e) ↦ inr (there n, e) ], back),
    (λ m. elim (knows.0 m) [ inl n ↦ inl n | inr n ↦ inr (there n) ], back_db),
  )
    where
      back : In d o.kept ⊎ (In d (dir ∷ dirs) × (opens d ≡ true)) → In d o'.kept
      back (inl n) = keeps.1 (inl n)
      back (inr (here q, e)) = keeps.1 (inl (subst (λ x. In x o.kept) (sym q) kept))
      back (inr (there n, e)) = keeps.1 (inr (n, e))

      back_db : In d (roots o.db) ⊎ In d (dir ∷ dirs) → In d (roots o'.db)
      back_db (inl n) = knows.1 (inl n)
      back_db (inr (here q)) = knows.1 (inl (subst (λ x. In x (roots o.db)) (sym q) known))
      back_db (inr (there n)) = knows.1 (inr n)

  added-IsAdded :
      (opens : FilePath → Bool) (d dir : FilePath) (dirs : List FilePath) (o o' : Observer D)
      → (add_root_dir sql current dir o.db).1 ≡ true
      → IsAdded opens d dirs (added opens dir o) o'
      → IsAdded opens d (dir ∷ dirs) o o'
  unfolding added
  added-IsAdded opens d dir dirs o o' ok (keeps, knows) = ((to, from), (to_db, from_db))
    where
      one : In d (emplace_if opens dir o.kept) ↔ (In d o.kept ⊎ ((d ≡ dir) × (opens dir ≡ true)))
      one = emplace_if_iff opens dir d o.kept

      one_db : In d (roots (add_root_dir sql current dir o.db).0) ↔ ((d ≡ dir) ⊎ In d (roots o.db))
      one_db = add_root_dir-roots sql current dir d o.db ok

      to : In d o'.kept → In d o.kept ⊎ (In d (dir ∷ dirs) × (opens d ≡ true))
      to m = elim (keeps.0 m) [
        | inr (n, e) ↦ inr (there n, e)
        | inl n ↦ elim (one.0 n) [ inl k ↦ inl k | inr (q, e) ↦ inr (here q, ap opens q ∙ e) ]
      ]

      from : In d o.kept ⊎ (In d (dir ∷ dirs) × (opens d ≡ true)) → In d o'.kept
      from (inl n) = keeps.1 (inl (one.1 (inl n)))
      from (inr (here q, e)) = keeps.1 (inl (one.1 (inr (q, ap opens (sym q) ∙ e))))
      from (inr (there n, e)) = keeps.1 (inr (n, e))

      to_db : In d (roots o'.db) → In d (roots o.db) ⊎ In d (dir ∷ dirs)
      to_db m = elim (knows.0 m) [
        | inr n ↦ inr (there n)
        | inl n ↦ elim (one_db.0 n) [ inl q ↦ inr (here q) | inr k ↦ inl k ]
      ]

      from_db : In d (roots o.db) ⊎ In d (dir ∷ dirs) → In d (roots o'.db)
      from_db (inl n) = knows.1 (inl (one_db.1 (inr n)))
      from_db (inr (here q)) = knows.1 (inl (one_db.1 (inl q)))
      from_db (inr (there n)) = knows.1 (inr n)

  added-IsKnown :
      (opens : FilePath → Bool) (dir : FilePath) (dirs : List FilePath) (o : Observer D)
      → (add_root_dir sql current dir o.db).1 ≡ true
      → IsKnown (dir ∷ dirs) o
      → IsKnown dirs (added opens dir o)
  unfolding added
  added-IsKnown opens dir dirs o ok known x m n = elim ((emplace_if_iff opens dir x o.kept).0 m) [
    | inl k ↦ (add_root_dir-roots sql current dir x o.db ok).1 (inr (known x k (there n)))
    | inr (q, _) ↦ (add_root_dir-roots sql current dir x o.db ok).1 (inl q)
  ]

  pass-step :
      (opens : FilePath → Bool) (dir : FilePath) (dirs : List FilePath) (o : Observer D)
      → is_in dir o.kept ≡ true
      → add_dirs sql current opens (dir ∷ dirs) o ≡ add_dirs sql current opens dirs o
  unfolding add_dirs
  pass-step opens dir dirs o e = rw (e, add_dirs) refl

  pub add_dirs-IsAdded :
      (opens : FilePath → Bool) (d : FilePath) (dirs : List FilePath) (o : Observer D)
      → IsKnown dirs o
      → (add_dirs sql current opens dirs o).1 ≡ true
      → IsAdded opens d dirs o (add_dirs sql current opens dirs o).0
  unfolding add_dirs
  add_dirs-IsAdded opens d [] o known h = (
    (λ m. inl m, λ o. elim o [ inl m ↦ m | inr (n, _) ↦ absurd (not-In-nil d n) ]),
    (λ m. inl m, λ o. elim o [ inl m ↦ m | inr n ↦ absurd (not-In-nil d n) ]),
  )
  add_dirs-IsAdded opens d (dir ∷ dirs) o known h = elim (Bool-cases (is_in dir o.kept)) [
    | inl e ↦
        let ran = pass-step opens dir dirs o e in
        let kept = (any_path_iff dir o.kept).0 e in
        subst (λ r. IsAdded opens d (dir ∷ dirs) o r.0) (sym ran)
          (passed-IsAdded opens d dir dirs o (add_dirs sql current opens dirs o).0 kept
            (known dir kept (here refl))
            (add_dirs-IsAdded opens d dirs o (λ x m n. known x m (there n))
              (ap (λ r. r.1) (sym ran) ∙ h)))
    | inr e ↦
        let (ok, ran) = add-ends opens dir dirs o e h in
        subst (λ r. IsAdded opens d (dir ∷ dirs) o r.0) (sym ran)
          (added-IsAdded opens d dir dirs o (add_dirs sql current opens dirs (added opens dir o)).0
            ok
            (add_dirs-IsAdded opens d dirs (added opens dir o)
              (added-IsKnown opens dir dirs o ok known) (ap (λ r. r.1) (sym ran) ∙ h)))
  ]
