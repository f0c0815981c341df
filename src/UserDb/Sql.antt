-- ===== src/UserDb/Sql.antt =====
-- What core/vca/sqlite_userdb.cpp calls of SQLite and of the disk, as an interface. Of a statement
-- nothing is assumed but that it gives new tables or fails, which is `none`.
use vca.Prelude.{ℕ, List, Option}
use vca.Paths.Path.{FilePath}

pub record Sql (D : Type 0) : Type 0 where
  pub start_transaction : D → Option D
  pub commit : D → Option D
  -- The four `CREATE TABLE IF NOT EXISTS` and `DELETE FROM roots`.
  pub create_tables : D → Option D
  pub delete_roots : D → Option D
  -- `INSERT INTO roots (id, dir)` and `DELETE FROM roots WHERE dir`.
  pub insert_root : ℕ → FilePath → D → Option D
  pub delete_root : FilePath → D → Option D
  -- `DELETE FROM files WHERE path AND roots_id` and `DELETE FROM files WHERE path`.
  pub delete_file : FilePath → ℕ → D → Option D
  pub delete_path : FilePath → D → Option D
  -- `INSERT INTO files (id, roots_id, path, fingerprint)`.
  pub insert_file : ℕ → ℕ → FilePath → List ℕ → D → Option D
  -- `UPDATE files SET roots_id, path WHERE path`.
  pub update_path : ℕ → FilePath → FilePath → D → Option D
  -- `SELECT id FROM words WHERE word`: the first row, if there is one.
  pub select_word : List ℕ → D → Option (Option ℕ)
  pub insert_word : ℕ → List ℕ → D → Option D
  pub insert_mapping : ℕ → ℕ → D → Option D
  -- The rows, root directory and path, of the files with a word that is like the pattern.
  pub select_files : List ℕ → D → Option (List (FilePath × FilePath))
  -- `std::filesystem::relative`
  pub relative_to : FilePath → FilePath → FilePath
