-- ===== src/UserDb/Results.antt =====
-- `SearchResult` of core/vca/userdb.h and the map of results in `SqliteUserDb::search`.
use vca.Prelude.{
  ℕ, Bool, true, false, not, ◌&&◌, List, [], ◌∷◌, ◌++◌, none, some, if◌then◌else◌, init, last?,
  ◌==◌, str_eq,
}
use vca.Prelude.{insert_by}
use vca.Text.Split.{is_empty}
use vca.Paths.Path.{FilePath}
use vca.UserDb.Contents.{str_lt}

pub record SearchResult : Type 0 where
  pub dir : FilePath
  pub file : FilePath
  pub ext : List ℕ

-- `operator<` of `std::filesystem::path`: a path without a root first, then by the components.
unfoldable pub parts_lt : List (List ℕ) → List (List ℕ) → Bool
parts_lt [] [] = false
parts_lt [] (y ∷ ys) = true
parts_lt (x ∷ xs) [] = false
parts_lt (x ∷ xs) (y ∷ ys) =
    let rest = parts_lt xs ys in if str_lt x y then true else if str_lt y x then false else rest

unfoldable pub path_lt : FilePath → FilePath → Bool
path_lt l r =
    if not l.rooted && r.rooted
    then true
    else if l.rooted && not r.rooted
    then false
    else parts_lt l.parts r.parts

-- `operator<`, that of the tuples of the three fields.
unfoldable pub result_lt : SearchResult → SearchResult → Bool
result_lt l o =
    if path_lt l.dir o.dir
    then true
    else if path_lt o.dir l.dir
    then false
    else if path_lt l.file o.file
    then true
    else if path_lt o.file l.file
    then false
    else str_lt l.ext o.ext

-- `results_map[result]++` on the keys in their order.
unfoldable pub add_result : SearchResult → List SearchResult → List SearchResult
add_result = insert_by result_lt

-- `operator/`
unfoldable pub join_path : FilePath → FilePath → FilePath
join_path l r = if r.rooted then r else record l { parts = l.parts ++ r.parts }

abbrev pub last_part : List (List ℕ) → List ℕ
last_part parts = elim (last? parts) [ none ↦ [] | some p ↦ p ]

unfoldable pub parent : FilePath → FilePath
parent p = record p { parts = init p.parts }

unfoldable pub filename : FilePath → FilePath
filename p = record { rooted = false; parts = last_part p.parts ∷ [] }

-- The last dot of a name and what follows it.
unfoldable pub from_dot : List ℕ → List ℕ
from_dot [] = []
from_dot (c ∷ s) =
    let rest = from_dot s in if not (is_empty rest) then rest else if c == b'.' then c ∷ s else []

-- A dot in front of a name begins no extension unless another follows, and `..` has none.
unfoldable pub extension : FilePath → List ℕ
extension p = elim (last_part p.parts) [
  | [] ↦ []
  | c ∷ s ↦ if str_eq (c ∷ s) (b'.' ∷ b'.' ∷ []) then [] else from_dot s
]
