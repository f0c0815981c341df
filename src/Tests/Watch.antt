-- ===== src/Tests/Watch.antt =====
-- Tests of the observers of the configuration, over tables on which every statement succeeds.
use vca.Prelude.{
  ◌≡◌, refl, List, [], ◌∷◌, Bool, true, false, none, some, In, ◌↔◌, insert_by, not, str_eq, here,
  there, ap,
}
use vca.Paths.Path.{FilePath, path_eq, walk, is_parent_of}
use vca.UserDb.Results.{path_lt, filename}
use vca.UserDb.Sql.{Sql}
use vca.UserDb.Store.{
  add_root_dir, remove_root_dir, transaction, emplace_dir, and_then, exec, assign,
  impl_add_root_dir, impl_remove_root_dir, create, add_all,
}
use vca.UserDb.Search.{opened}
use vca.UserDb.Roots.{roots}
use vca.Config.RootDirs.{normalize_root_dirs, has_parent, erase_all}
use vca.Config.User.{
  reread, repopulate, perform_repopulate, populate_and_write, populate, write, Env, UserConfig,
  valid_root_dir, read_dirs, read, is_own,
}
use vca.Config.Read.{IsListed, IsBelow, texts_of}
use vca.Watch.Sync.{Observer, erase_dirs, add_dirs, emplace_if, user_config_changed}
use vca.Watch.Changed.{IsChanged, user_config_changed-IsChanged}
use vca.Daemon.World.{World, Openers, notify_watcher, notify_scanner, both, notify, perform_reread}
use vca.Daemon.Notify.{IsSynced, IsRefreshed}
use vca.Daemon.Refresh.{reread_iff}
use vca.Daemon.Session.{
  FileChange, start_up, perform_command, session, is_told, all_told, session-IsRefreshed,
  session-IsSynced,
}

abbrev Rows : Type 0
Rows = List (FilePath × FilePath)

abbrev tables : Sql Rows
tables = record {
  start_transaction = λ d. some d;
  commit = λ d. some d;
  create_tables = λ d. some d;
  delete_roots = λ d. some [];
  insert_root = λ id dir d. some d;
  delete_root = λ dir d. some d;
  delete_file = λ p id d. some d;
  delete_path = λ p d. some d;
  insert_file = λ id roots_id p fingerprint d. some d;
  update_path = λ id p old_p d. some d;
  select_word = λ word d. some none;
  insert_word = λ id word d. some d;
  insert_mapping = λ id word d. some d;
  select_files = λ pattern d. some d;
  relative_to = λ p dir. p;
}

abbrev home : FilePath
home = record { rooted = true; parts = (b'h' ∷ []) ∷ [] }

abbrev old : FilePath
old = record { rooted = true; parts = (b'o' ∷ []) ∷ [] }

abbrev watched : Observer Rows
watched = record { kept = old ∷ []; db = record (opened [] 0) { root_dirs = (old, 0) ∷ [] } }

abbrev opens_all : FilePath → Bool
opens_all d = true

changed_run : (user_config_changed tables [] opens_all (home ∷ []) watched).1 ≡ true
unfolding user_config_changed erase_dirs add_dirs emplace_if remove_root_dir add_root_dir
    transaction and_then exec assign impl_add_root_dir impl_remove_root_dir path_eq walk
changed_run = refl

user_config_changed-IsChanged_example :
    IsChanged tables [] opens_all
      (home ∷ [])
      home
      watched
      (user_config_changed tables [] opens_all (home ∷ []) watched).0
user_config_changed-IsChanged_example =
    user_config_changed-IsChanged tables [] opens_all (home ∷ []) home watched (λ x m n. m)
      changed_run

-- The file of the configuration lists one directory, `h`, and is named `u`, the one relative path.
abbrev env : Env
env = record {
  current = [];
  exists = λ d. true;
  documents = home;
  path_of = λ text. record { rooted = not (str_eq text (b'u' ∷ [])); parts = text ∷ [] };
  to_narrow = λ d. [];
  parse = λ content. some (some (b'h' ∷ []) ∷ []);
  dump = λ dirs. [];
}

abbrev config : UserConfig
config = record {
  path = record { rooted = true; parts = (b'u' ∷ []) ∷ [] };
  file = some [];
  root_dirs = old ∷ [];
}

abbrev world : World Rows
world = record { config = config; watchers = old ∷ []; scanners = old ∷ []; db = watched.db }

abbrev openers : Openers
openers = record { watches = opens_all; scans = opens_all }

world_own : is_own env (b'u' ∷ []) config ≡ true
unfolding path_eq filename
world_own = refl

world_run : (perform_reread env tables openers true (b'u' ∷ []) world).1 ≡ true
unfolding perform_reread notify both notify_scanner notify_watcher read read_dirs valid_root_dir
    normalize_root_dirs has_parent erase_all is_parent_of user_config_changed erase_dirs add_dirs
    emplace_if remove_root_dir add_root_dir transaction and_then exec assign impl_add_root_dir
    impl_remove_root_dir path_eq walk filename insert_by path_lt emplace_dir
world_run = refl

reread_iff_example :
    In home (roots (perform_reread env tables openers true (b'u' ∷ []) world).0.db)
    ↔ (IsListed env (texts_of env config) home × ¬ IsBelow env (texts_of env config) home)
reread_iff_example =
    reread_iff env tables openers true (b'u' ∷ []) world home (λ d. ((λ m. m, λ m. m), λ m. m))
      (λ x v. refl) world_own world_run

-- The daemon starts on an empty database. Then the file is deleted, which writes it anew, and is read
-- again.
abbrev first_config : UserConfig
first_config = record config { root_dirs = old ∷ [] }

abbrev deletion : FileChange
deletion = record { content = none; command = repopulate (b'u' ∷ []); scanner_first = false }

abbrev changes : List FileChange
changes =
    deletion
    ∷ record { content = some []; command = reread (b'u' ∷ []); scanner_first = false }
    ∷ []

start_run : (start_up env tables openers first_config (opened [] 0)).1 ≡ true
unfolding start_up create add_all notify both notify_scanner notify_watcher user_config_changed
    erase_dirs add_dirs emplace_if remove_root_dir add_root_dir transaction and_then exec assign
    impl_add_root_dir impl_remove_root_dir path_eq walk insert_by path_lt emplace_dir
start_run = refl

session_run :
    (session env tables openers changes
      (start_up env tables openers first_config (opened [] 0)).0).1
    ≡ true
unfolding session perform_command perform_repopulate populate_and_write populate write start_up
    create add_all perform_reread notify both notify_scanner notify_watcher read read_dirs
    valid_root_dir normalize_root_dirs has_parent erase_all is_parent_of user_config_changed
    erase_dirs add_dirs emplace_if remove_root_dir add_root_dir transaction and_then exec assign
    impl_add_root_dir impl_remove_root_dir path_eq walk filename insert_by path_lt emplace_dir
session_run = refl

session_told :
    all_told env tables openers changes
      (start_up env tables openers first_config (opened [] 0)).0
      true
    ≡ true
unfolding all_told is_told perform_command perform_repopulate populate_and_write populate write
    start_up create add_all perform_reread notify both notify_scanner notify_watcher read read_dirs
    valid_root_dir normalize_root_dirs has_parent erase_all is_parent_of user_config_changed
    erase_dirs add_dirs emplace_if remove_root_dir add_root_dir transaction and_then exec assign
    impl_add_root_dir impl_remove_root_dir path_eq walk filename insert_by path_lt emplace_dir
session_told = refl

deletion_run :
    (session env tables openers
      (deletion ∷ [])
      (start_up env tables openers first_config (opened [] 0)).0).1
    ≡ true
unfolding session perform_command perform_repopulate populate_and_write populate write start_up
    create add_all perform_reread notify both notify_scanner notify_watcher read read_dirs
    valid_root_dir normalize_root_dirs has_parent erase_all is_parent_of user_config_changed
    erase_dirs add_dirs emplace_if remove_root_dir add_root_dir transaction and_then exec assign
    impl_add_root_dir impl_remove_root_dir path_eq walk filename insert_by path_lt emplace_dir
deletion_run = refl

first-valid : (x : FilePath) → In x first_config.root_dirs → valid_root_dir env x ≡ true
unfolding valid_root_dir
first-valid x (here q) = ap (valid_root_dir env) q
first-valid x (there m) = elim m [ ]

session-IsRefreshed_example :
    IsRefreshed
      (session env tables openers changes
        (start_up env tables openers first_config (opened [] 0)).0).0
session-IsRefreshed_example =
    session-IsRefreshed env tables openers first_config (opened [] 0) changes (λ x v. refl)
      first-valid start_run session_run session_told

session-IsSynced_example :
    IsSynced
      (session env tables openers
        (deletion ∷ [])
        (start_up env tables openers first_config (opened [] 0)).0).0
session-IsSynced_example =
    session-IsSynced env tables openers first_config (opened [] 0) (deletion ∷ []) (λ x v. refl)
      first-valid start_run deletion_run
