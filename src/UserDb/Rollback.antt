-- ===== src/UserDb/Rollback.antt =====
-- What a call of core/vca/sqlite_userdb.cpp that ends by an exception does to the tables.
use vca.Prelude.{ℕ, ◌≡◌, refl, false, List, Bool-cases, Option-cases, inl, inr}
use vca.Paths.Path.{FilePath}
use vca.UserDb.Contents.{FileContents}
use vca.UserDb.Cache.{get}
use vca.UserDb.Sql.{Sql}
use vca.UserDb.Store.{
  Impl, Act, and_then, exec, transaction, relative, create, add_root_dir, remove_root_dir,
  update_file, remove_file, move_file, has_dir,
}
use vca.UserDb.Search.{
  query, search, Call, do_create, do_add_root_dir, do_remove_root_dir, do_update_file,
  do_remove_file, do_move_file, do_search, perform,
}

module _ {D : Type 0} (sql : Sql D) where
  transaction-db :
      (body : Act D) (s : Impl D)
      → (transaction sql body s).1 ≡ false
      → (transaction sql body s).0.db ≡ s.db
  unfolding transaction
  transaction-db body s h =
      elim (Bool-cases
        (and_then (exec sql.start_transaction) (and_then body (exec sql.commit)) s).1) [
          | inl e ↦ cc (rw (e, transaction) at h)
          | inr e ↦ rw (e, transaction) refl
        ]

  search-db : (contents : FileContents) (s : Impl D) → (search sql s contents).0.db ≡ s.db
  unfolding search
  search-db contents s = elim (Option-cases (get s.cache contents)) [
    | inr (r, e) ↦ rw (e, search) refl
    | inl e ↦ elim (Option-cases (query sql s.db contents)) [
      | inl f ↦ rw (e, f, search) refl
      | inr (r, f) ↦ rw (e, f, search) refl
    ]
  ]

module _ {D : Type 0} (sql : Sql D) (current : List (List ℕ)) where
  add_root_dir-db :
      (dir : FilePath) (s : Impl D)
      → (add_root_dir sql current dir s).1 ≡ false
      → (add_root_dir sql current dir s).0.db ≡ s.db
  unfolding add_root_dir
  add_root_dir-db dir s h = elim (Bool-cases (has_dir dir s.root_dirs)) [
    | inl e ↦ cc (rw (e, add_root_dir) at h)
    | inr e ↦ rw (e, add_root_dir) (transaction-db sql _ _ (rw (e, add_root_dir) at h))
  ]

  remove_root_dir-db :
      (dir : FilePath) (s : Impl D)
      → (remove_root_dir sql current dir s).1 ≡ false
      → (remove_root_dir sql current dir s).0.db ≡ s.db
  unfolding remove_root_dir
  remove_root_dir-db dir s h = elim (Bool-cases (has_dir dir s.root_dirs)) [
    | inl e ↦ rw (e, remove_root_dir) (transaction-db sql _ _ (rw (e, remove_root_dir) at h))
    | inr e ↦ cc (rw (e, remove_root_dir) at h)
  ]

  update_file-db :
      (now : ℕ) (path : FilePath) (fingerprint : List ℕ) (contents : FileContents) (s : Impl D)
      → (update_file sql current now path fingerprint contents s).1 ≡ false
      → (update_file sql current now path fingerprint contents s).0.db ≡ s.db
  unfolding update_file
  update_file-db now path fingerprint contents s h =
      elim (Option-cases (relative sql current path s.root_dirs)) [
        | inl e ↦ rw (e, update_file) refl
        | inr ((p, id), e) ↦ rw (e, update_file) (transaction-db sql _ _ (rw (e, update_file) at h))
      ]

  remove_file-db :
      (now : ℕ) (path : FilePath) (s : Impl D)
      → (remove_file sql current now path s).1 ≡ false
      → (remove_file sql current now path s).0.db ≡ s.db
  unfolding remove_file
  remove_file-db now path s h = elim (Option-cases (relative sql current path s.root_dirs)) [
    | inl e ↦ rw (e, remove_file) refl
    | inr ((p, id), e) ↦ rw (e, remove_file) (transaction-db sql _ _ (rw (e, remove_file) at h))
  ]

  move_file-db :
      (now : ℕ) (old_path path : FilePath) (s : Impl D)
      → (move_file sql current now old_path path s).1 ≡ false
      → (move_file sql current now old_path path s).0.db ≡ s.db
  unfolding move_file
  move_file-db now old_path path s h =
      elim (Option-cases (relative sql current old_path s.root_dirs)) [
        | inl e ↦ rw (e, move_file) refl
        | inr ((q, old_id), e) ↦ elim (Option-cases (relative sql current path s.root_dirs)) [
          | inl f ↦ rw (e, f, move_file) refl
          | inr ((p, id), f) ↦
              rw (e, f, move_file) (transaction-db sql _ _ (rw (e, f, move_file) at h))
        ]
      ]

  -- A call that ends by an exception leaves the tables as they were.
  pub perform_rollback :
      (c : Call) (s : Impl D)
      → (perform sql current c s).1 ≡ false
      → (perform sql current c s).0.db ≡ s.db
  unfolding perform create
  perform_rollback (do_create dirs) s h = transaction-db sql _ _ h
  perform_rollback (do_add_root_dir dir) s h = add_root_dir-db dir s h
  perform_rollback (do_remove_root_dir dir) s h = remove_root_dir-db dir s h
  perform_rollback (do_update_file now path fingerprint contents) s h =
      update_file-db now path fingerprint contents s h
  perform_rollback (do_remove_file now path) s h = remove_file-db now path s h
  perform_rollback (do_move_file now old_path path) s h = move_file-db now old_path path s h
  perform_rollback (do_search contents) s h = search-db sql contents s
