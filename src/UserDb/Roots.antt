-- ===== src/UserDb/Roots.antt =====
-- Which root directories `SqliteUserDb` of core/vca/sqlite_userdb.cpp knows after a call.
use vca.Prelude.{
  ℕ, ◌≡◌, ◌≢◌, refl, ap, sym, ◌∙◌, Bool, true, not, List, [], ◌∷◌, Option, map, filter, any,
  Bool-cases, Option-cases, inl, inr, ◌⊎◌, ◌↔◌, subst, In, insert_by, In-insert_by_self,
  In-insert_by, In-of-insert_by, any-In, In-any, In-filter, In-of-filter,
}
use vca.Paths.Path.{FilePath, path_eq}
use vca.Paths.Parent.{path_eq_iff}
use vca.UserDb.Results.{path_lt}
use vca.UserDb.Found.{path_lt_antisym}
use vca.UserDb.Sql.{Sql}
use vca.UserDb.Store.{
  Impl, Act, emplace_dir, has_dir, and_then, exec, assign, transaction, impl_add_root_dir,
  impl_remove_root_dir, add_root_dir, remove_root_dir, clear_cache,
}

abbrev pub dirs_of : List (FilePath × ℕ) → List FilePath
dirs_of = map (λ e. e.0)

abbrev pub roots : {D : Type 0} → Impl D → List FilePath
roots s = dirs_of s.root_dirs

emplace_dir-dirs :
    (dir : FilePath) (id : ℕ) (dirs : List (FilePath × ℕ))
    → dirs_of (emplace_dir dir id dirs) ≡ insert_by path_lt dir (dirs_of dirs)
unfolding emplace_dir insert_by
emplace_dir-dirs dir id [] = refl
emplace_dir-dirs dir id ((k, n) ∷ dirs) = elim (Bool-cases (path_lt dir k)) [
  | inl e ↦ rw e refl
  | inr e ↦ elim (Bool-cases (path_lt k dir)) [
    | inl f ↦ rw (e, f) (ap (k ∷◌) (emplace_dir-dirs dir id dirs))
    | inr f ↦ rw (e, f) refl
  ]
]

abbrev others : FilePath → FilePath → Bool
others dir d = not (path_eq d dir)

filter-dirs :
    (dir : FilePath) (dirs : List (FilePath × ℕ))
    → dirs_of (filter (λ e. not (path_eq e.0 dir)) dirs) ≡ filter (others dir) (dirs_of dirs)
filter-dirs dir [] = refl
filter-dirs dir ((k, n) ∷ dirs) = elim (Bool-cases (path_eq k dir)) [
  | inl e ↦ rw e (filter-dirs dir dirs)
  | inr e ↦ rw e (ap (k ∷◌) (filter-dirs dir dirs))
]

has_dir-any :
    (dir : FilePath) (dirs : List (FilePath × ℕ))
    → has_dir dir dirs ≡ any (λ d. path_eq d dir) (dirs_of dirs)
has_dir-any dir [] = refl
has_dir-any dir ((k, n) ∷ dirs) = rw (has_dir-any dir dirs) refl

-- Membership as the code tests it.
pub any_path_iff :
    (d : FilePath) (ds : List FilePath) → (any (λ a. path_eq a d) ds ≡ true) ↔ In d ds
any_path_iff d ds = (to, from)
  where
    to : any (λ a. path_eq a d) ds ≡ true → In d ds
    to h =
        let (a, m, e) = any-In (λ a. path_eq a d) ds h in
        subst (λ x. In x ds) ((path_eq_iff a d).0 e) m

    from : In d ds → any (λ a. path_eq a d) ds ≡ true
    from m = In-any (λ a. path_eq a d) ds d m ((path_eq_iff d d).1 refl)

pub has_dir_iff :
    (d : FilePath) (dirs : List (FilePath × ℕ)) → (has_dir d dirs ≡ true) ↔ In d (dirs_of dirs)
has_dir_iff d dirs = rw (has_dir-any d dirs) (any_path_iff d (dirs_of dirs))

module _ {D : Type 0} where
  pub exec-dirs : (f : D → Option D) (s : Impl D) → (exec f s).0.root_dirs ≡ s.root_dirs
  unfolding exec
  exec-dirs f s = elim (Option-cases (f s.db)) [
    | inl e ↦ rw (e, exec) refl
    | inr (d, e) ↦ rw (e, exec) refl
  ]

  -- What ends without an exception has run to its end.
  pub and_then-ends :
      (a b : Act D) (s : Impl D)
      → (and_then a b s).1 ≡ true
      → ((a s).1 ≡ true) × (and_then a b s ≡ b (a s).0)
  unfolding and_then
  and_then-ends a b s h = elim (Bool-cases (a s).1) [
    | inl e ↦ (e, rw (e, and_then) refl)
    | inr e ↦ cc (e, (rw (e, and_then) at h))
  ]

  pub transaction-ends :
      (sql : Sql D) (body : Act D) (s : Impl D)
      → (transaction sql body s).1 ≡ true
      → (t : Impl D) × (t.root_dirs ≡ s.root_dirs)
        × ((body t).1 ≡ true)
        × ((transaction sql body s).0.root_dirs ≡ (body t).0.root_dirs)
  unfolding transaction
  transaction-ends sql body s h =
      let begin = exec sql.start_transaction in
      let inner = and_then body (exec sql.commit) in
      elim (Bool-cases (and_then begin inner s).1) [
        | inr e ↦ cc (rw (e, transaction) at h)
        | inl e ↦
            let (_, first) = and_then-ends begin inner s e in
            let (ok, second) =
              and_then-ends body (exec sql.commit) (begin s).0 (ap (λ r. r.1) (sym first) ∙ e) in
            let same : (and_then begin inner s).0.root_dirs ≡ (body (begin s).0).0.root_dirs =
              ap (λ r. r.0.root_dirs) (first ∙ second)
              ∙ exec-dirs sql.commit (body (begin s).0).0 in
            ((begin s).0, exec-dirs sql.start_transaction s, ok, rw (e, transaction) same)
      ]

module _ {D : Type 0} (sql : Sql D) (current : List (List ℕ)) where
  pub impl_add-roots :
      (dir : FilePath) (s : Impl D)
      → (impl_add_root_dir sql current dir s).1 ≡ true
      → roots (impl_add_root_dir sql current dir s).0 ≡ insert_by path_lt dir (roots s)
  unfolding impl_add_root_dir assign
  impl_add-roots dir s h =
      let (_, ran) = and_then-ends (exec (sql.insert_root s.roots_id dir)) (assign _) s h in
      ap (λ r. roots r.0) ran
      ∙ emplace_dir-dirs dir _ _
      ∙ ap (λ l. insert_by path_lt dir (dirs_of l)) (exec-dirs (sql.insert_root s.roots_id dir) s)

  impl_remove-roots :
      (dir : FilePath) (s : Impl D)
      → (impl_remove_root_dir sql current dir s).1 ≡ true
      → roots (impl_remove_root_dir sql current dir s).0 ≡ filter (others dir) (roots s)
  unfolding impl_remove_root_dir assign
  impl_remove-roots dir s h =
      let (_, ran) = and_then-ends (exec (sql.delete_root dir)) (assign _) s h in
      ap (λ r. roots r.0) ran
      ∙ filter-dirs dir _
      ∙ ap (λ l. filter (others dir) (dirs_of l)) (exec-dirs (sql.delete_root dir) s)

  -- What a directory that is added, or is there already, does to the list.
  pub add_root_dir-roots :
      (dir d : FilePath) (s : Impl D)
      → (add_root_dir sql current dir s).1 ≡ true
      → In d (roots (add_root_dir sql current dir s).0) ↔ ((d ≡ dir) ⊎ In d (roots s))
  unfolding add_root_dir
  add_root_dir-roots dir d s h = elim (Bool-cases (has_dir dir s.root_dirs)) [
    | inl e ↦
        rw (e, add_root_dir)
          (
            λ m. inr m,
            λ o. elim o [
              | inl q ↦ subst (λ x. In x (roots s)) (sym q) ((has_dir_iff dir s.root_dirs).0 e)
              | inr m ↦ m
            ],
          )
    | inr e ↦
        let (t, before, ok, after) =
          transaction-ends sql (impl_add_root_dir sql current dir) (clear_cache s)
            (rw (e, add_root_dir) at h) in
        let same =
          ap dirs_of after
          ∙ impl_add-roots dir t ok
          ∙ ap (λ l. insert_by path_lt dir (dirs_of l)) before in
        rw (e, add_root_dir)
          (
            λ m. In-of-insert_by path_lt dir d (roots s) (subst (In d) same m),
            λ o. subst (In d) (sym same) (elim o [
              | inl q ↦
                  subst (λ x. In x (insert_by path_lt dir (roots s))) (sym q)
                    (In-insert_by_self path_lt path_lt_antisym dir (roots s))
              | inr m ↦ In-insert_by path_lt dir d (roots s) m
            ]),
          )
  ]

  pub filter-others_iff :
      (dir d : FilePath) (ds : List FilePath)
      → In d (filter (others dir) ds) ↔ (In d ds × (d ≢ dir))
  filter-others_iff dir d ds = (
    λ m. let (n, e) = In-of-filter (others dir) ds d m in (n, λ q. cc ((path_eq_iff d dir).1 q, e)),
    λ (n, ne). In-filter (others dir) ds d n (elim (Bool-cases (path_eq d dir)) [
      | inl e ↦ absurd (ne ((path_eq_iff d dir).0 e))
      | inr e ↦ rw e refl
    ]),
  )

  pub remove_root_dir-roots :
      (dir d : FilePath) (s : Impl D)
      → (remove_root_dir sql current dir s).1 ≡ true
      → In d (roots (remove_root_dir sql current dir s).0) ↔ (In d (roots s) × (d ≢ dir))
  unfolding remove_root_dir
  remove_root_dir-roots dir d s h = elim (Bool-cases (has_dir dir s.root_dirs)) [
    | inr e ↦
        rw (e, remove_root_dir)
          (
            λ m.
                (m, λ q. cc (e, (has_dir_iff dir s.root_dirs).1 (subst (λ x. In x (roots s)) q m))),
            λ (m, _). m,
          )
    | inl e ↦
        let (t, before, ok, after) =
          transaction-ends sql (impl_remove_root_dir sql current dir) (clear_cache s)
            (rw (e, remove_root_dir) at h) in
        let same =
          ap dirs_of after
          ∙ impl_remove-roots dir t ok
          ∙ ap (λ l. filter (others dir) (dirs_of l)) before in
        rw (e, remove_root_dir)
          (
            λ m. (filter-others_iff dir d (roots s)).0 (subst (In d) same m),
            λ p. subst (In d) (sym same) ((filter-others_iff dir d (roots s)).1 p),
          )
  ]
