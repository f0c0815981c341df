-- ===== src/Tests/Store.antt =====
-- Tests of the user database, over tables that are the rows of the files themselves.
use vca.Prelude.{◌≡◌, refl, List, [], ◌∷◌, true, false, none, some, In, ◌↔◌, filter, not}
use vca.Paths.Path.{FilePath, path_eq, walk, is_parent_of}
use vca.UserDb.Contents.{FileContents}
use vca.UserDb.Sql.{Sql}
use vca.UserDb.Store.{Impl, relative, move_file, transaction, and_then, exec}
use vca.UserDb.Search.{
  result_of, add_rows, query_words, query, search, Call, do_create, do_update_file, do_remove_file,
  do_move_file, do_search, perform, run, opened,
}
use vca.UserDb.Fresh.{search-run}
use vca.UserDb.Rollback.{perform_rollback}
use vca.UserDb.Found.{IsListed, query_iff}

abbrev Rows : Type 0
Rows = List (FilePath × FilePath)

abbrev home : FilePath
home = record { rooted = true; parts = (b'h' ∷ []) ∷ [] }

abbrev note : FilePath
note = record { rooted = true; parts = (b'h' ∷ []) ∷ (b'n' ∷ []) ∷ [] }

-- Moving a file fails.
abbrev tables : Sql Rows
tables = record {
  start_transaction = λ d. some d;
  commit = λ d. some d;
  create_tables = λ d. some d;
  delete_roots = λ d. some [];
  insert_root = λ id dir d. some d;
  delete_root = λ dir d. some [];
  delete_file = λ p id d. some (filter (λ r. not (path_eq r.1 p)) d);
  delete_path = λ p d. some (filter (λ r. not (path_eq r.1 p)) d);
  insert_file = λ id roots_id p fingerprint d. some ((home, p) ∷ d);
  update_path = λ id p old_p d. none;
  select_word = λ word d. some none;
  insert_word = λ id word d. some d;
  insert_mapping = λ id word d. some d;
  select_files = λ pattern d. some d;
  relative_to = λ p dir. record { rooted = false; parts = (b'n' ∷ []) ∷ [] };
}

abbrev asked : FileContents
asked = record { words = (b'r' ∷ []) ∷ [] }

abbrev calls : List Call
calls =
    do_create (home ∷ [])
    ∷ do_search asked
    ∷ do_update_file 1 note [] asked
    ∷ do_search asked
    ∷ do_remove_file 2 note
    ∷ []

search-run_example :
    (search tables (run tables [] calls (opened [] 0)) asked).1
    ≡ query tables (run tables [] calls (opened [] 0)).db asked
search-run_example = search-run tables [] [] 0 calls asked

abbrev stored : Impl Rows
stored = record (opened ((home, note) ∷ []) 0) { root_dirs = (home, 0) ∷ [] }

move_fails : (perform tables [] (do_move_file 3 note note) stored).1 ≡ false
unfolding perform move_file relative is_parent_of path_eq walk transaction and_then exec
move_fails = refl

perform_rollback_example : (perform tables [] (do_move_file 3 note note) stored).0.db ≡ stored.db
perform_rollback_example = perform_rollback tables [] (do_move_file 3 note note) stored move_fails

query_run : query tables stored.db asked ≡ some (add_rows stored.db [])
unfolding query query_words
query_run = refl

query_iff_example :
    In (result_of home note) (add_rows stored.db [])
    ↔ IsListed tables stored.db asked.words (result_of home note)
query_iff_example =
    query_iff tables stored.db asked (add_rows stored.db []) (result_of home note) query_run
