-- ===== src/UserDb/Fresh.antt =====
-- The cache of core/vca/sqlite_userdb.cpp never shows what the tables no longer hold.
use vca.Prelude.{
  ℕ, ◌≡◌, refl, sym, ◌∙◌, List, [], ◌∷◌, none, some, Bool-cases, Option-cases, inl, inr, subst,
}
use vca.Paths.Path.{FilePath}
use vca.UserDb.Contents.{FileContents}
use vca.UserDb.Cache.{get, clear}
use vca.UserDb.Sql.{Sql}
use vca.UserDb.Store.{
  Impl, Act, exec, assign, transaction, impl_add_root_dir, impl_remove_root_dir, relative, add_all,
  create, add_root_dir, remove_root_dir, put_word, put_words, update_file, remove_file, move_file,
  touch, has_dir,
}
use vca.UserDb.Search.{
  query, search, Call, do_create, do_add_root_dir, do_remove_root_dir, do_update_file,
  do_remove_file, do_move_file, do_search, perform, run, opened,
}
use vca.UserDb.Coherence.{
  Each, Keeps, find-Each, insert-Each, exec-Keeps, assign-Keeps, and_then-Keeps, transaction-Keeps,
}

module _ {D : Type 0} (sql : Sql D) (current : List (List ℕ)) where
  add_root_dir-Keeps : (dir : FilePath) → Keeps (impl_add_root_dir sql current dir)
  unfolding impl_add_root_dir assign
  add_root_dir-Keeps dir s =
      and_then-Keeps (exec (sql.insert_root s.roots_id dir)) (assign _) (exec-Keeps _) (λ t. refl) s

  remove_root_dir-Keeps : (dir : FilePath) → Keeps (impl_remove_root_dir sql current dir)
  unfolding impl_remove_root_dir assign
  remove_root_dir-Keeps dir =
      and_then-Keeps (exec (sql.delete_root dir)) (assign _) (exec-Keeps _) (λ t. refl)

  add_all-Keeps : (dirs : List FilePath) → Keeps (add_all sql current dirs)
  unfolding add_all assign
  add_all-Keeps [] s = refl
  add_all-Keeps (dir ∷ dirs) s =
      and_then-Keeps (impl_add_root_dir sql current dir) (add_all sql current dirs)
        (add_root_dir-Keeps dir) (add_all-Keeps dirs) s

  put_word-Keeps : (word : List ℕ) → Keeps (put_word sql current word)
  unfolding put_word assign
  put_word-Keeps word s = elim (Option-cases (sql.select_word word s.db)) [
    | inl e ↦ rw (e, put_word) refl
    | inr (none, e) ↦
        rw (e, put_word)
          (and_then-Keeps (assign _) _ (λ t. refl)
            (and_then-Keeps (exec (sql.insert_word s.words_id word))
              (exec (sql.insert_mapping s.files_id s.words_id)) (exec-Keeps _) (exec-Keeps _))
            s)
    | inr (some id, e) ↦ rw (e, put_word) (exec-Keeps (sql.insert_mapping s.files_id id) s)
  ]

  put_words-Keeps : (words : List (List ℕ)) → Keeps (put_words sql current words)
  unfolding put_words assign
  put_words-Keeps [] s = refl
  put_words-Keeps (word ∷ words) s =
      and_then-Keeps (put_word sql current word) (put_words sql current words) (put_word-Keeps word)
        (put_words-Keeps words) s

  -- Each entry of the cache holds what a query of the tables gives.
  abbrev pub IsCoherent : Impl D → Type 0
  IsCoherent s = Each (λ k r. query sql s.db k ≡ some r) s.cache.cache

  emptied : (s t : Impl D) → t.cache ≡ clear s.cache → IsCoherent t
  unfolding clear
  emptied s t h = subst (λ c. Each (λ k r. query sql t.db k ≡ some r) c.cache) (sym h) tt

  -- The state behind a transaction that begins with an empty cache.
  transaction-IsCoherent :
      (body : Act D) (s t : Impl D)
      → Keeps body
      → s.cache ≡ clear t.cache
      → IsCoherent (transaction sql body s).0
  transaction-IsCoherent body s t h e =
      emptied t (transaction sql body s).0 (transaction-Keeps sql body h s ∙ e)

  create-IsCoherent : (dirs : List FilePath) (s : Impl D) → IsCoherent (create sql current dirs s).0
  unfolding create
  create-IsCoherent dirs s =
      transaction-IsCoherent _ _ s
        (and_then-Keeps _ _ (exec-Keeps sql.create_tables) (
          and_then-Keeps _ _ (exec-Keeps sql.delete_roots)
            (and_then-Keeps _ _ (assign-Keeps _ (λ t. refl)) (add_all-Keeps dirs))))
        refl

  add_root_dir-IsCoherent :
      (dir : FilePath) (s : Impl D) → IsCoherent s → IsCoherent (add_root_dir sql current dir s).0
  unfolding add_root_dir
  add_root_dir-IsCoherent dir s h = elim (Bool-cases (has_dir dir s.root_dirs)) [
    | inl e ↦ rw (e, add_root_dir) h
    | inr e ↦ rw (e, add_root_dir) (transaction-IsCoherent _ _ s (add_root_dir-Keeps dir) refl)
  ]

  remove_root_dir-IsCoherent :
      (dir : FilePath) (s : Impl D)
      → IsCoherent s
      → IsCoherent (remove_root_dir sql current dir s).0
  unfolding remove_root_dir
  remove_root_dir-IsCoherent dir s h = elim (Bool-cases (has_dir dir s.root_dirs)) [
    | inl e ↦
        rw (e, remove_root_dir) (transaction-IsCoherent _ _ s (remove_root_dir-Keeps dir) refl)
    | inr e ↦ rw (e, remove_root_dir) h
  ]

  update_file-IsCoherent :
      (now : ℕ) (path : FilePath) (fingerprint : List ℕ) (contents : FileContents) (s : Impl D)
      → IsCoherent (update_file sql current now path fingerprint contents s).0
  unfolding update_file
  update_file-IsCoherent now path fingerprint contents s =
      elim (Option-cases (relative sql current path s.root_dirs)) [
        | inl e ↦ rw (e, update_file) (emptied s (touch now s) refl)
        | inr ((p, id), e) ↦
            rw (e, update_file)
              (transaction-IsCoherent _ _ s
                (and_then-Keeps _ _ (exec-Keeps (sql.delete_file p id)) (
                  and_then-Keeps _ _ (exec-Keeps (sql.insert_file s.files_id id p fingerprint)) (
                    and_then-Keeps _ _ (put_words-Keeps contents.words)
                      (assign-Keeps _ (λ t. refl)))))
                refl)
      ]

  remove_file-IsCoherent :
      (now : ℕ) (path : FilePath) (s : Impl D) → IsCoherent (remove_file sql current now path s).0
  unfolding remove_file
  remove_file-IsCoherent now path s = elim (Option-cases (relative sql current path s.root_dirs)) [
    | inl e ↦ rw (e, remove_file) (emptied s (touch now s) refl)
    | inr ((p, id), e) ↦
        rw (e, remove_file) (transaction-IsCoherent _ _ s (exec-Keeps (sql.delete_path p)) refl)
  ]

  move_file-IsCoherent :
      (now : ℕ) (old_path path : FilePath) (s : Impl D)
      → IsCoherent (move_file sql current now old_path path s).0
  unfolding move_file
  move_file-IsCoherent now old_path path s =
      elim (Option-cases (relative sql current old_path s.root_dirs)) [
        | inl e ↦ rw (e, move_file) (emptied s (touch now s) refl)
        | inr ((q, old_id), e) ↦ elim (Option-cases (relative sql current path s.root_dirs)) [
          | inl f ↦ rw (e, f, move_file) (emptied s (touch now s) refl)
          | inr ((p, id), f) ↦
              rw (e, f, move_file)
                (transaction-IsCoherent _ _ s (exec-Keeps (sql.update_path id p q)) refl)
        ]
      ]

  -- A search shows what a query of the tables gives, and keeps the cache coherent.
  search-IsCoherent :
      (contents : FileContents) (s : Impl D)
      → IsCoherent s
      → ((search sql s contents).1 ≡ query sql s.db contents) × IsCoherent (search sql s contents).0
  unfolding search get
  search-IsCoherent contents s h = elim (Option-cases (get s.cache contents)) [
    | inr (r, e) ↦
        rw (e, search)
          (sym (find-Each (λ k q. query sql s.db k ≡ some q) contents r s.cache.cache h e), h)
    | inl e ↦ elim (Option-cases (query sql s.db contents)) [
      | inl f ↦ rw (e, f, search) (refl, h)
      | inr (r, f) ↦
          rw (e, f, search)
            (refl, insert-Each (λ k q. query sql s.db k ≡ some q) s.cache contents r h f)
    ]
  ]

  perform-IsCoherent :
      (c : Call) (s : Impl D) → IsCoherent s → IsCoherent (perform sql current c s).0
  unfolding perform
  perform-IsCoherent (do_create dirs) s h = create-IsCoherent dirs s
  perform-IsCoherent (do_add_root_dir dir) s h = add_root_dir-IsCoherent dir s h
  perform-IsCoherent (do_remove_root_dir dir) s h = remove_root_dir-IsCoherent dir s h
  perform-IsCoherent (do_update_file now path fingerprint contents) s h =
      update_file-IsCoherent now path fingerprint contents s
  perform-IsCoherent (do_remove_file now path) s h = remove_file-IsCoherent now path s
  perform-IsCoherent (do_move_file now old_path path) s h = move_file-IsCoherent now old_path path s
  perform-IsCoherent (do_search contents) s h = (search-IsCoherent contents s h).1

  run-IsCoherent :
      (calls : List Call) (s : Impl D) → IsCoherent s → IsCoherent (run sql current calls s)
  unfolding run
  run-IsCoherent [] s h = h
  run-IsCoherent (c ∷ calls) s h =
      run-IsCoherent calls (perform sql current c s).0 (perform-IsCoherent c s h)

  -- After any calls, whether they succeed or end by an exception, a search shows what a query of
  -- the present tables gives: the cache never shows what they no longer hold.
  pub search-run :
      (db : D) (now : ℕ) (calls : List Call) (contents : FileContents)
      → (search sql (run sql current calls (opened db now)) contents).1
        ≡ query sql (run sql current calls (opened db now)).db contents
  search-run db now calls contents =
      (search-IsCoherent contents (run sql current calls (opened db now))
        (run-IsCoherent calls (opened db now) tt)).0
