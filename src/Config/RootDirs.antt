-- ===== src/Config/RootDirs.antt =====
-- `UserConfig::Impl::normalize_root_dirs` of core/vca/config.cpp. A `std::set` is the list of its
-- elements; what is logged is left out.
use vca.Prelude.{ℕ, Bool, not, ◌&&◌, List, [], ◌∷◌, any, filter}
use vca.Paths.Path.{FilePath, path_eq, is_parent_of}

-- `erase` of a set.
abbrev pub erase : FilePath → List FilePath → List FilePath
erase dir = filter (λ d. not (path_eq d dir))

-- The loop that erases what was collected.
unfoldable pub erase_all : List FilePath → List FilePath → List FilePath
erase_all [] root_dirs = root_dirs
erase_all (dir ∷ trash) root_dirs = erase_all trash (erase dir root_dirs)

module _ (current : List (List ℕ)) where
  -- The inner loop: whether some other directory of the set is a parent of this one.
  unfoldable pub has_parent : List FilePath → FilePath → Bool
  has_parent root_dirs dir =
      any (λ dir_ref. not (path_eq dir dir_ref) && is_parent_of current dir_ref dir) root_dirs

  unfoldable pub normalize_root_dirs : List FilePath → List FilePath
  normalize_root_dirs root_dirs = erase_all (filter (has_parent root_dirs) root_dirs) root_dirs
