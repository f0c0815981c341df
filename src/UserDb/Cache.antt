-- ===== src/UserDb/Cache.antt =====
-- `SearchCache` of core/vca/sqlite_userdb.cpp. The map is the list of its entries, oldest first,
-- whose keys differ; an iterator of it is the key of its entry. `find` sees what the search in the tree
-- of the map (MapTree) sees where `operator<` orders no two of the keys both ways; it is not an order
-- where it does, and the standard then leaves open what the map does.
use vca.Prelude.{
  ℕ, Bool, not, ◌&&◌, List, [], ◌∷◌, ◌++◌, Option, none, some, leb, if◌then◌else◌, length,
}
use vca.UserDb.Contents.{FileContents, contents_lt}

abbrev pub max_size : ℕ
max_size = 32

-- How a map tells keys apart.
unfoldable pub equivalent : FileContents → FileContents → Bool
equivalent a o = not (contents_lt a o) && not (contents_lt o a)

module _ {ℓ} {R : Type ℓ} where
  unfoldable pub find : FileContents → List (FileContents × R) → Option R
  find contents [] = none
  find contents ((k, r) ∷ cache) = if equivalent k contents then some r else find contents cache

  -- `erase` at an iterator.
  unfoldable pub erase : FileContents → List (FileContents × R) → List (FileContents × R)
  erase contents [] = []
  erase contents ((k, r) ∷ cache) =
      if equivalent k contents then cache else (k, r) ∷ erase contents cache

pub record SearchCache {ℓ} (R : Type ℓ) : Type ℓ where
  pub cache : List (FileContents × R)
  pub queue : List FileContents

module _ {ℓ} {R : Type ℓ} where
  unfoldable pub get : SearchCache R → FileContents → Option R
  get c contents = find contents c.cache

  -- The `while` loop of `insert`.
  unfoldable pub evict : List (FileContents × R) → List FileContents → SearchCache R
  evict cache [] = record { cache = cache; queue = [] }
  evict cache (front ∷ queue) =
      let rest = evict (erase front cache) queue in
      if leb max_size (length (front ∷ queue))
      then rest
      else record { cache = cache; queue = front ∷ queue }

  -- What follows the loop: a key that is there keeps its results.
  unfoldable pub emplace : SearchCache R → FileContents → R → SearchCache R
  emplace c contents results = elim (find contents c.cache) [
    | some r ↦ c
    | none ↦ record {
      cache = c.cache ++ (contents, results) ∷ [];
      queue = c.queue ++ contents ∷ [];
    }
  ]

  unfoldable pub insert : SearchCache R → FileContents → R → SearchCache R
  insert c contents results = emplace (evict c.cache c.queue) contents results

  unfoldable pub clear : SearchCache R → SearchCache R
  clear c = record { cache = []; queue = [] }
