-- ===== src/UserDb/Search.antt =====
-- `SqliteUserDb::search` of core/vca/sqlite_userdb.cpp, and the sequences of calls of the database.
use vca.Prelude.{ℕ, Bool, true, false, List, [], ◌∷◌, ◌++◌, Option, none, some}
use vca.Paths.Path.{FilePath}
use vca.UserDb.Contents.{FileContents}
use vca.UserDb.Cache.{get, insert}
use vca.UserDb.Results.{SearchResult, add_result, join_path, parent, filename, extension}
use vca.UserDb.Sql.{Sql}
use vca.UserDb.Store.{
  Impl, Act, create, add_root_dir, remove_root_dir, update_file, remove_file, move_file,
}

unfoldable pub result_of : FilePath → FilePath → SearchResult
result_of root_dir path =
    let p = join_path root_dir path in
    record { dir = parent p; file = filename p; ext = extension p }

-- The loop over the rows.
unfoldable pub add_rows : List (FilePath × FilePath) → List SearchResult → List SearchResult
add_rows [] results = results
add_rows ((root_dir, path) ∷ rows) results =
    add_rows rows (add_result (result_of root_dir path) results)

abbrev pub pattern_of : List ℕ → List ℕ
pattern_of word = b'%' ∷ (word ++ b'%' ∷ [])

module _ {D : Type 0} (sql : Sql D) where
  -- The loop over the words; `none` is the exception of a statement that fails.
  unfoldable pub query_words : D → List (List ℕ) → List SearchResult → Option (List SearchResult)
  query_words db [] results = some results
  query_words db (word ∷ words) results = elim (sql.select_files (pattern_of word) db) [
    | none ↦ none
    | some rows ↦ query_words db words (add_rows rows results)
  ]

  -- What `search` finds without the cache.
  unfoldable pub query : D → FileContents → Option (List SearchResult)
  query db contents = query_words db contents.words []

  unfoldable pub search : Impl D → FileContents → Impl D × Option (List SearchResult)
  search s contents = elim (get s.cache contents) [
    | some results ↦ (s, some results)
    | none ↦ elim (query s.db contents) [
      | none ↦ (s, none)
      | some results ↦ (record s { cache = insert s.cache contents results }, some results)
    ]
  ]

-- The calls of `UserDb`; those that change a file say what the clock says.
pub data Call : Type 0 where
  do_create : List FilePath → Call
  do_add_root_dir : FilePath → Call
  do_remove_root_dir : FilePath → Call
  do_update_file : ℕ → FilePath → List ℕ → FileContents → Call
  do_remove_file : ℕ → FilePath → Call
  do_move_file : ℕ → FilePath → FilePath → Call
  do_search : FileContents → Call

is_found : {A : Type 0} → Option A → Bool
is_found none = false
is_found (some a) = true

module _ {D : Type 0} (sql : Sql D) (current : List (List ℕ)) where
  unfoldable pub perform : Call → Act D
  unfolding is_found
  perform (do_create root_dirs) = create sql current root_dirs
  perform (do_add_root_dir dir) = add_root_dir sql current dir
  perform (do_remove_root_dir dir) = remove_root_dir sql current dir
  perform (do_update_file now path fingerprint contents) =
      update_file sql current now path fingerprint contents
  perform (do_remove_file now path) = remove_file sql current now path
  perform (do_move_file now old_path path) = move_file sql current now old_path path
  perform (do_search contents) =
      λ s. ((search sql s contents).0, is_found (search sql s contents).1)

  -- The calls one after the other, whether they succeed or not.
  unfoldable pub run : List Call → Impl D → Impl D
  run [] s = s
  run (c ∷ calls) s = run calls (perform c s).0

-- A database as its constructor leaves it.
abbrev pub opened : {D : Type 0} → D → ℕ → Impl D
opened db now = record {
  cache = record { cache = []; queue = [] };
  files_id = 0;
  words_id = 0;
  db = db;
  roots_id = 0;
  root_dirs = [];
  last_file_update = now;
}
