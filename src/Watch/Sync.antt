-- ===== src/Watch/Sync.antt =====
-- `user_config_changed` of `FileWatcher::Impl` in daemon/src/file_watcher.cpp and of
-- `FileScanner::Impl` in daemon/src/file_scanner.cpp, which are alike.
use vca.Prelude.{ℕ, Bool, true, false, not, List, [], ◌∷◌, any, filter, if◌then◌else◌, insert_by}
use vca.Paths.Path.{FilePath, path_eq}
use vca.UserDb.Results.{path_lt}
use vca.UserDb.Sql.{Sql}
use vca.UserDb.Store.{Impl, add_root_dir, remove_root_dir}

-- The keys of the map of watchers or of scanners, and the database.
pub record Observer (D : Type 0) : Type 0 where
  pub kept : List FilePath
  pub db : Impl D

abbrev pub is_in : FilePath → List FilePath → Bool
is_in dir dirs = any (λ d. path_eq d dir) dirs

-- `opens dir`: a `Watcher` or a `Scanner` for the directory can be made.
unfoldable pub emplace_if : (FilePath → Bool) → FilePath → List FilePath → List FilePath
emplace_if opens dir kept = if opens dir then insert_by path_lt dir kept else kept

module _ {D : Type 0} (sql : Sql D) (current : List (List ℕ)) where
  -- The loop over the directories that need no watching anymore. The flag says whether it ends
  -- without an exception of the database.
  unfoldable pub erase_dirs : List FilePath → Observer D → Observer D × Bool
  erase_dirs [] o = (o, true)
  erase_dirs (dir ∷ trash) o =
      let r = remove_root_dir sql current dir o.db in
      let o' : Observer D = record { kept = filter (λ d. not (path_eq d dir)) o.kept; db = r.0 } in
      elim r.1 [ false ↦ (o', false) | true ↦ erase_dirs trash o' ]

  -- The loop over the directories of the configuration.
  unfoldable pub add_dirs : (FilePath → Bool) → List FilePath → Observer D → Observer D × Bool
  add_dirs opens [] o = (o, true)
  add_dirs opens (dir ∷ dirs) o = elim (is_in dir o.kept) [
    | true ↦ add_dirs opens dirs o
    | false ↦
        let r = add_root_dir sql current dir o.db in
        elim r.1 [
          | false ↦ (record o { db = r.0 }, false)
          | true ↦ add_dirs opens dirs (record { kept = emplace_if opens dir o.kept; db = r.0 })
        ]
  ]

  unfoldable pub user_config_changed :
      (FilePath → Bool) → List FilePath → Observer D → Observer D × Bool
  user_config_changed opens root_dirs o =
      let r = erase_dirs (filter (λ d. not (is_in d root_dirs)) o.kept) o in
      elim r.1 [ false ↦ r | true ↦ add_dirs opens root_dirs r.0 ]
