-- ===== src/Watch/Events.antt =====
-- `Watcher::handleFileAction` of daemon/src/file_watcher.cpp and `Scanner::scan` of
-- daemon/src/file_scanner.cpp: which commands on the database a change of a file pushes, and which
-- the scan of a directory. What they ask the disk is the interface `Disk`.
use vca.Prelude.{ℕ, Bool, not, List, [], ◌∷◌, none, some, if◌then◌else◌}
use vca.Text.Boost.{Boost}
use vca.Paths.Path.{FilePath}
use vca.UserDb.Contents.{FileContents}
use vca.UserDb.Results.{join_path}
use vca.UserDb.Search.{Call, do_update_file, do_remove_file, do_move_file}
use vca.FileProcessor.Process.{FileProcessor, process}
use vca.Config.User.{Action, added, modified, deleted, moved, other}

-- A directory or a file name as a path, and whether a path is that of a file.
pub record Disk : Type 0 where
  pub path_of : List ℕ → FilePath
  pub is_file : FilePath → Bool

-- A command that was pushed. The clock is read when it is run.
pub data FileCommand : Type 0 where
  updates : FilePath → List ℕ → FileContents → FileCommand
  removes : FilePath → FileCommand
  moves : FilePath → FilePath → FileCommand

unfoldable pub call_of : ℕ → FileCommand → Call
call_of now (updates path fingerprint contents) = do_update_file now path fingerprint contents
call_of now (removes path) = do_remove_file now path
call_of now (moves old_path path) = do_move_file now old_path path

-- What a call pushes, unless it throws or its behaviour is undefined.
pub data Pushed : Type 0 where
  gives : List FileCommand → Pushed
  throws undefined : Pushed

module _ (b : Boost) (p : FileProcessor) (disk : Disk) where
  -- Up to the push of the command that brings a file in: `compute_fingerprint` of core/vca/filesystem.h
  -- assigns through an optional, which is empty in a path that was just made.
  unfoldable pub update_of : FilePath → Pushed
  update_of path = elim (process b p path) [ none ↦ throws | some words ↦ undefined ]

  unfoldable pub file_changed : FilePath → Pushed
  file_changed path = if disk.is_file path then update_of path else gives []

  -- `handleFileAction`
  unfoldable pub handle_file_action : List ℕ → List ℕ → Action → List ℕ → Pushed
  handle_file_action dir filename added old_filename =
      file_changed (join_path (disk.path_of dir) (disk.path_of filename))
  handle_file_action dir filename modified old_filename =
      file_changed (join_path (disk.path_of dir) (disk.path_of filename))
  handle_file_action dir filename deleted old_filename =
      let path = join_path (disk.path_of dir) (disk.path_of filename) in
      gives (if disk.is_file path then removes path ∷ [] else [])
  handle_file_action dir filename moved old_filename =
      let path = join_path (disk.path_of dir) (disk.path_of filename) in
      let old_path = join_path (disk.path_of dir) (disk.path_of old_filename) in
      gives (
        if disk.is_file old_path
        then if disk.is_file path then moves old_path path ∷ [] else []
        else removes old_path ∷ [])
  handle_file_action dir filename other old_filename = throws

  -- The loop of `scan` over the entries below the directory, each with the value that `done` has
  -- then. An exception of the processor skips the file.
  unfoldable pub scan_entries : List (FilePath × Bool) → Pushed
  scan_entries [] = gives []
  scan_entries ((path, done) ∷ entries) =
      let rest = scan_entries entries in
      if done
      then gives []
      else if not (disk.is_file path)
      then rest
      else elim (process b p path) [ none ↦ rest | some words ↦ undefined ]

  unfoldable pub scan : Bool → List (FilePath × Bool) → Pushed
  scan exists entries = if exists then scan_entries entries else gives []
