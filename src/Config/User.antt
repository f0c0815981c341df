-- ===== src/Config/User.antt =====
-- `UserConfig::Impl` of core/vca/config.cpp. What it calls of the disk, of paths as texts and of
-- JSON is the interface `Env`. What is logged is left out.
use vca.Prelude.{
  ℕ, Bool, true, false, not, List, [], ◌∷◌, Option, none, some, if◌then◌else◌, map, insert_by,
}
use vca.Paths.Path.{FilePath, path_eq}
use vca.UserDb.Results.{path_lt, filename, parent}
use vca.Config.RootDirs.{normalize_root_dirs}

pub record Env : Type 0 where
  pub current : List (List ℕ)
  -- `exists`, and `user_documents_dir`.
  pub exists : FilePath → Bool
  pub documents : FilePath
  -- `Path{text}`, which `native_path` leaves as it is where paths need no prefix, and `to_narrow`.
  pub path_of : List ℕ → FilePath
  pub to_narrow : FilePath → List ℕ
  -- `json::parse` and the elements under the key `root_dirs`, `none` for one that is no text; and
  -- the text of an object with that key.
  pub parse : List ℕ → Option (List (Option (List ℕ)))
  pub dump : List (List ℕ) → List ℕ

-- The path of the configuration, the content of the file, and the root directories in their order.
pub record UserConfig : Type 0 where
  pub path : FilePath
  pub file : Option (List ℕ)
  pub root_dirs : List FilePath

-- What the file watcher reports; `other` is any other action.
pub data Action : Type 0 where
  added modified deleted moved other : Action

-- The commands that are pushed, with the file name that they look at.
pub data Command : Type 0 where
  reread repopulate : List ℕ → Command

-- `handleFileAction`; `none` is the failed check.
unfoldable pub handle_file_action : Action → List ℕ → List ℕ → Option (List Command)
handle_file_action added filename old_filename = some (reread filename ∷ [])
handle_file_action modified filename old_filename = some (reread filename ∷ [])
handle_file_action deleted filename old_filename = some (repopulate filename ∷ [])
handle_file_action moved filename old_filename = some (repopulate old_filename ∷ [])
handle_file_action other filename old_filename = none

module _ (env : Env) where
  unfoldable pub valid_root_dir : FilePath → Bool
  valid_root_dir path =
      if not (env.exists path) then false else if not path.rooted then false else true

  -- The loop of `read`. The flag says whether it ends without an exception.
  unfoldable pub read_dirs : List (Option (List ℕ)) → List FilePath → List FilePath × Bool
  read_dirs [] root_dirs = (root_dirs, true)
  read_dirs (none ∷ dirs) root_dirs = (root_dirs, false)
  read_dirs (some dir ∷ dirs) root_dirs =
      let p = env.path_of dir in
      read_dirs dirs (if not (valid_root_dir p) then root_dirs else insert_by path_lt p root_dirs)

  unfoldable pub read : UserConfig → UserConfig × Bool
  read c = elim c.file [
    | none ↦ (c, false)
    | some content ↦ elim (env.parse content) [
      | none ↦ (c, false)
      | some dirs ↦
          let r = read_dirs dirs [] in
          elim r.1 [
            | false ↦ (record c { root_dirs = r.0 }, false)
            | true ↦ (record c { root_dirs = normalize_root_dirs env.current r.0 }, true)
          ]
    ]
  ]

  unfoldable pub populate : UserConfig → UserConfig × Bool
  populate c =
      let dir = env.documents in
      if env.exists dir
      then (record c { root_dirs = insert_by path_lt dir c.root_dirs }, true)
      else if valid_root_dir (parent dir)
      then (record c { root_dirs = insert_by path_lt (parent dir) c.root_dirs }, true)
      else (c, false)

  unfoldable pub write : UserConfig → UserConfig
  write c = record c { file = some (env.dump (map env.to_narrow c.root_dirs)) }

  unfoldable pub populate_and_write : UserConfig → UserConfig × Bool
  populate_and_write c = let r = populate c in elim r.1 [ false ↦ r | true ↦ (write r.0, true) ]

  -- The constructor, but for the watch of the directory.
  unfoldable pub make : FilePath → Option (List ℕ) → UserConfig × Bool
  make path file =
      let c : UserConfig = record { path = path; file = file; root_dirs = [] } in
      elim file [ some _ ↦ read c | none ↦ populate_and_write c ]

  abbrev pub is_own : List ℕ → UserConfig → Bool
  is_own name c = path_eq (env.path_of name) (filename c.path)

  -- The command that is pushed when a file is deleted or moved away.
  unfoldable pub perform_repopulate : List ℕ → UserConfig → UserConfig × Bool
  perform_repopulate name c = if not (is_own name c) then (c, true) else populate_and_write c

  -- `set_json`: a text that is no JSON throws. `valid` is `json::parse`.
  unfoldable pub set_json : (List ℕ → Bool) → List ℕ → UserConfig → UserConfig × Bool
  set_json valid json c = if valid json then (record c { file = some json }, true) else (c, false)
