-- ===== src/UserDb/Store.antt =====
-- The operations of `SqliteUserDb` in core/vca/sqlite_userdb.cpp, over the statements of `Sql`.
use vca.Prelude.{
  ℕ, ◌+◌, Bool, true, false, List, [], ◌∷◌, Option, none, some, if◌then◌else◌, any, filter, not,
}
use vca.Paths.Path.{FilePath, path_eq, is_parent_of}
use vca.UserDb.Contents.{FileContents}
use vca.UserDb.Cache.{SearchCache, clear}
use vca.UserDb.Results.{SearchResult, path_lt}
use vca.UserDb.Sql.{Sql}

-- `SqliteUserDb::Impl`. The map of root directories is the list of its entries in their order.
pub record Impl (D : Type 0) : Type 0 where
  pub cache : SearchCache (List SearchResult)
  pub files_id : ℕ
  pub words_id : ℕ
  pub db : D
  pub roots_id : ℕ
  pub root_dirs : List (FilePath × ℕ)
  pub last_file_update : ℕ

-- `emplace` of the map.
unfoldable pub emplace_dir : FilePath → ℕ → List (FilePath × ℕ) → List (FilePath × ℕ)
emplace_dir dir id [] = (dir, id) ∷ []
emplace_dir dir id ((k, n) ∷ dirs) =
    let rest = emplace_dir dir id dirs in
    if path_lt dir k
    then (dir, id) ∷ (k, n) ∷ dirs
    else if path_lt k dir
    then (k, n) ∷ rest
    else (k, n) ∷ dirs

abbrev pub has_dir : FilePath → List (FilePath × ℕ) → Bool
has_dir dir dirs = any (λ e. path_eq e.0 dir) dirs

-- What a piece of code does: the state that it leaves, and whether it ends without an exception.
abbrev pub Act : Type 0 → Type 0
Act D = Impl D → Impl D × Bool

module _ {D : Type 0} where
  unfoldable pub and_then : Act D → Act D → Act D
  and_then first second s = elim (first s).1 [ false ↦ first s | true ↦ second (first s).0 ]

  -- `exec` of a statement.
  unfoldable pub exec : (D → Option D) → Act D
  exec statement s = elim (statement s.db) [
    | none ↦ (s, false)
    | some db ↦ (record s { db = db }, true)
  ]

  -- Code that cannot throw.
  unfoldable pub assign : (Impl D → Impl D) → Act D
  assign f s = (f s, true)

  abbrev pub clear_cache : Impl D → Impl D
  clear_cache s = record s { cache = clear s.cache }

  abbrev pub touch : ℕ → Impl D → Impl D
  touch now s = record s { last_file_update = now; cache = clear s.cache }

  -- A `SQLite::Transaction` and the code in its scope: its destructor takes back what was done to
  -- the tables, and to them only, if an exception leaves the scope before the commit is done.
  unfoldable pub transaction : Sql D → Act D → Act D
  transaction sql body s =
      let r = and_then (exec sql.start_transaction) (and_then body (exec sql.commit)) s in
      elim r.1 [ true ↦ r | false ↦ (record r.0 { db = s.db }, false) ]

module _ {D : Type 0} (sql : Sql D) (current : List (List ℕ)) where
  -- `Impl::add_root_dir`
  unfoldable pub impl_add_root_dir : FilePath → Act D
  impl_add_root_dir dir s =
      and_then (exec (sql.insert_root s.roots_id dir))
        (assign (λ t. record t {
          root_dirs = emplace_dir dir t.roots_id t.root_dirs;
          roots_id = t.roots_id + 1;
        }))
        s

  -- `Impl::remove_root_dir`
  unfoldable pub impl_remove_root_dir : FilePath → Act D
  impl_remove_root_dir dir =
      and_then (exec (sql.delete_root dir))
        (assign (λ t. record t { root_dirs = filter (λ e. not (path_eq e.0 dir)) t.root_dirs }))

  -- `Impl::relative`: `none` is the failed check.
  unfoldable pub relative : FilePath → List (FilePath × ℕ) → Option (FilePath × ℕ)
  relative p [] = none
  relative p ((dir, id) ∷ dirs) =
      if is_parent_of current dir p then some (sql.relative_to p dir, id) else relative p dirs

  unfoldable pub add_all : List FilePath → Act D
  add_all [] = assign (λ t. t)
  add_all (dir ∷ dirs) = and_then (impl_add_root_dir dir) (add_all dirs)

  unfoldable pub create : List FilePath → Act D
  create root_dirs s =
      transaction sql
        (and_then (exec sql.create_tables) (
          and_then (exec sql.delete_roots)
            (and_then (assign (λ t. record t { root_dirs = [] })) (add_all root_dirs))))
        (clear_cache s)

  unfoldable pub add_root_dir : FilePath → Act D
  add_root_dir root_dir s = elim (has_dir root_dir s.root_dirs) [
    | true ↦ (s, true)
    | false ↦ transaction sql (impl_add_root_dir root_dir) (clear_cache s)
  ]

  unfoldable pub remove_root_dir : FilePath → Act D
  remove_root_dir root_dir s = elim (has_dir root_dir s.root_dirs) [
    | false ↦ (s, true)
    | true ↦ transaction sql (impl_remove_root_dir root_dir) (clear_cache s)
  ]

  -- A word that the table lacks goes into it.
  unfoldable pub put_word : List ℕ → Act D
  put_word word s = elim (sql.select_word word s.db) [
    | none ↦ (s, false)
    | some (some id) ↦ exec (sql.insert_mapping s.files_id id) s
    | some none ↦
        and_then (assign (λ t. record t { words_id = t.words_id + 1 }))
          (and_then (exec (sql.insert_word s.words_id word))
            (exec (sql.insert_mapping s.files_id s.words_id)))
          s
  ]

  -- The loop over the words.
  unfoldable pub put_words : List (List ℕ) → Act D
  put_words [] = assign (λ t. t)
  put_words (word ∷ words) = and_then (put_word word) (put_words words)

  -- The path has the fingerprint, whose bytes are given; `now` is what the clock says.
  unfoldable pub update_file : ℕ → FilePath → List ℕ → FileContents → Act D
  update_file now path fingerprint contents s = elim (relative path s.root_dirs) [
    | none ↦ (touch now s, false)
    | some (p, roots_id) ↦
        transaction sql
          (and_then (exec (sql.delete_file p roots_id)) (
            and_then (exec (sql.insert_file s.files_id roots_id p fingerprint)) (
              and_then (put_words contents.words)
                (assign (λ t. record t { files_id = t.files_id + 1 })))))
          (touch now s)
  ]

  unfoldable pub remove_file : ℕ → FilePath → Act D
  remove_file now path s = elim (relative path s.root_dirs) [
    | none ↦ (touch now s, false)
    | some (p, roots_id) ↦ transaction sql (exec (sql.delete_path p)) (touch now s)
  ]

  unfoldable pub move_file : ℕ → FilePath → FilePath → Act D
  move_file now old_path path s = elim (relative old_path s.root_dirs) [
    | none ↦ (touch now s, false)
    | some (old_p, old_roots_id) ↦ elim (relative path s.root_dirs) [
      | none ↦ (touch now s, false)
      | some (p, roots_id) ↦ transaction sql (exec (sql.update_path roots_id p old_p)) (touch now s)
    ]
  ]
