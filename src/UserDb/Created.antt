-- ===== src/UserDb/Created.antt =====
-- The directories that `SqliteUserDb::create` of core/vca/sqlite_userdb.cpp leaves in the database.
use vca.Prelude.{
  ℕ, ◌≡◌, ap, sym, ◌∙◌, subst, true, List, [], ◌∷◌, inl, inr, ◌⊎◌, ◌↔◌, In, here, there, not-In-nil,
  insert_by, In-insert_by_self, In-insert_by, In-of-insert_by,
}
use vca.Paths.Path.{FilePath}
use vca.UserDb.Results.{path_lt}
use vca.UserDb.Found.{path_lt_antisym}
use vca.UserDb.Sql.{Sql}
use vca.UserDb.Store.{
  Impl, Act, and_then, exec, assign, clear_cache, impl_add_root_dir, add_all, create,
}
use vca.UserDb.Roots.{dirs_of, roots, and_then-ends, transaction-ends, impl_add-roots}

module _ {D : Type 0} (sql : Sql D) (current : List (List ℕ)) where
  add_all-roots :
      (dirs : List FilePath) (d : FilePath) (s : Impl D)
      → (add_all sql current dirs s).1 ≡ true
      → In d (roots (add_all sql current dirs s).0) ↔ (In d (roots s) ⊎ In d dirs)
  unfolding add_all assign
  add_all-roots [] d s h = (λ m. inl m, λ o. elim o [ inl m ↦ m | inr m ↦ absurd (not-In-nil d m) ])
  add_all-roots (dir ∷ dirs) d s h =
      let (ok, ran) =
        and_then-ends (impl_add_root_dir sql current dir) (add_all sql current dirs) s h in
      let next = (impl_add_root_dir sql current dir s).0 in
      let one = impl_add-roots sql current dir s ok in
      let rest = add_all-roots dirs d next (ap (λ r. r.1) (sym ran) ∙ h) in
      subst (λ r. In d (roots r.0) ↔ (In d (roots s) ⊎ In d (dir ∷ dirs))) (sym ran)
        (to one rest, from one rest)
    where
      to :
          {ns rs : List FilePath}
          → ns ≡ insert_by path_lt dir (roots s)
          → In d rs ↔ (In d ns ⊎ In d dirs)
          → In d rs
          → In d (roots s) ⊎ In d (dir ∷ dirs)
      to one rest m = elim (rest.0 m) [
        | inr n ↦ inr (there n)
        | inl n ↦ elim (In-of-insert_by path_lt dir d (roots s) (subst (In d) one n)) [
          | inl q ↦ inr (here q)
          | inr k ↦ inl k
        ]
      ]

      from :
          {ns rs : List FilePath}
          → ns ≡ insert_by path_lt dir (roots s)
          → In d rs ↔ (In d ns ⊎ In d dirs)
          → In d (roots s) ⊎ In d (dir ∷ dirs)
          → In d rs
      from one rest (inl m) =
          rest.1 (inl (subst (In d) (sym one) (In-insert_by path_lt dir d (roots s) m)))
      from one rest (inr (here q)) = rest.1 (
          inl (
            subst (In d) (sym one) (
              subst (λ x. In x (insert_by path_lt dir (roots s))) (sym q)
                (In-insert_by_self path_lt path_lt_antisym dir (roots s)))))
      from one rest (inr (there m)) = rest.1 (inr m)

  -- A database that is created without an exception knows just the directories that it is given.
  pub create-roots :
      (dirs : List FilePath) (d : FilePath) (s : Impl D)
      → (create sql current dirs s).1 ≡ true
      → In d (roots (create sql current dirs s).0) ↔ In d dirs
  unfolding create assign
  create-roots dirs d s h =
      let cleared : Act D = assign (λ t. record t { root_dirs = [] }) in
      let all : Act D = and_then cleared (add_all sql current dirs) in
      let rest : Act D = and_then (exec sql.delete_roots) all in
      let (t, _, ok, after) =
        transaction-ends sql (and_then (exec sql.create_tables) rest) (clear_cache s) h in
      let (_, ran1) = and_then-ends (exec sql.create_tables) rest t ok in
      let t1 = (exec sql.create_tables t).0 in
      let ok1 = ap (λ r. r.1) (sym ran1) ∙ ok in
      let (_, ran2) = and_then-ends (exec sql.delete_roots) all t1 ok1 in
      let t2 = (exec sql.delete_roots t1).0 in
      let ok2 = ap (λ r. r.1) (sym ran2) ∙ ok1 in
      let (_, ran3) = and_then-ends cleared (add_all sql current dirs) t2 ok2 in
      let t3 = (cleared t2).0 in
      let ok3 = ap (λ r. r.1) (sym ran3) ∙ ok2 in
      let same = ap dirs_of after ∙ ap (λ r. roots r.0) (ran1 ∙ ran2 ∙ ran3) in
      let added = add_all-roots dirs d t3 ok3 in
      (
        λ m. elim (added.0 (subst (In d) same m)) [ inl n ↦ absurd (not-In-nil d n) | inr n ↦ n ],
        λ m. subst (In d) (sym same) (added.1 (inr m)),
      )
