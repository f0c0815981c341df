-- ===== src/Paths/Path.antt =====
-- `Path` of core/vca/filesystem.h and `Path::is_parent_of` of core/vca/filesystem.cpp.
use vca.Prelude.{
  ℕ, Bool, true, false, ◌&&◌, not, List, [], ◌∷◌, ◌++◌, if◌then◌else◌, list_eq, str_eq,
}

pub record FilePath : Type 0 where
  pub rooted : Bool
  pub parts : List (List ℕ)

abbrev bool_eq : Bool → Bool → Bool
bool_eq true b = b
bool_eq false b = not b

abbrev pub parts_eq : List (List ℕ) → List (List ℕ) → Bool
parts_eq = list_eq str_eq

-- `operator==`
unfoldable pub path_eq : FilePath → FilePath → Bool
path_eq l r = bool_eq l.rooted r.rooted && parts_eq l.parts r.parts

-- The loop over the components of both paths.
unfoldable pub walk : List (List ℕ) → List (List ℕ) → Bool
walk [] [] = false
walk [] (c ∷ child) = true
walk (p ∷ parent) [] = false
walk (p ∷ parent) (c ∷ child) = if not (str_eq p c) then false else walk parent child

module _ (current : List (List ℕ)) where
  -- The components of the path made absolute.
  abbrev pub absolute : FilePath → List (List ℕ)
  absolute p = if p.rooted then p.parts else current ++ p.parts

  unfoldable pub is_parent_of : FilePath → FilePath → Bool
  is_parent_of parent child =
      if path_eq parent child then false else walk (absolute parent) (absolute child)
