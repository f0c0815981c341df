-- ===== src/Tests/Dirs.antt =====
-- Tests of the directories to index.
use vca.Prelude.{ℕ, ◌≡◌, refl, List, [], ◌∷◌, true, false, In, here, there, ◌↔◌, none, some}
use vca.Paths.Path.{FilePath, path_eq, absolute, walk, is_parent_of}
use vca.Paths.Parent.{Above, is_parent_of_iff}
use vca.Config.User.{Env, UserConfig, valid_root_dir, read, write}
use vca.Config.Written.{IsFlat, read-write_iff}
use vca.Config.RootDirs.{normalize_root_dirs, has_parent, erase_all}
use vca.Config.Normal.{Covered, normalize-Covered}

abbrev home : FilePath
home = record { rooted = true; parts = (b'h' ∷ []) ∷ [] }

abbrev docs : FilePath
docs = record { rooted = true; parts = (b'h' ∷ []) ∷ (b'd' ∷ []) ∷ [] }

abbrev other : FilePath
other = record { rooted = false; parts = (b'o' ∷ []) ∷ [] }

abbrev dirs : List FilePath
dirs = docs ∷ home ∷ other ∷ []

abbrev here_dir : List (List ℕ)
here_dir = (b'w' ∷ []) ∷ []

normalize_run : normalize_root_dirs here_dir dirs ≡ home ∷ other ∷ []
unfolding normalize_root_dirs has_parent erase_all is_parent_of path_eq walk
normalize_run = refl

home-left : In home (normalize_root_dirs here_dir dirs)
home-left = rw normalize_run (here refl)

other-left : In other (normalize_root_dirs here_dir dirs)
other-left = rw normalize_run (there (here refl))

is_parent_of_iff_example :
    (is_parent_of here_dir home docs ≡ true)
    ↔ Above (absolute here_dir home) (absolute here_dir docs)
is_parent_of_iff_example = is_parent_of_iff here_dir home docs

normalize-Covered_example : Covered here_dir (normalize_root_dirs here_dir dirs) docs
normalize-Covered_example = normalize-Covered here_dir dirs docs (here refl)

-- A library that prints and reads the texts of the one directory `h`.
abbrev env : Env
env = record {
  current = [];
  exists = λ d. true;
  documents = home;
  path_of = λ text. record { rooted = true; parts = text ∷ [] };
  to_narrow = λ d. b'h' ∷ [];
  parse = λ content. some (some (b'h' ∷ []) ∷ []);
  dump = λ texts. [];
}

abbrev config : UserConfig
config = record { path = other; file = none; root_dirs = home ∷ [] }

home-alone : IsFlat env (home ∷ [])
unfolding is_parent_of path_eq walk
home-alone (p, d, here q, here r, up) = cc (q, r, up)
home-alone (p, d, there m, n, up) = elim m [ ]
home-alone (p, d, here q, there n, up) = elim n [ ]

read-write_iff_example :
    ((read env (write env config)).1 ≡ true)
    × (In home (read env (write env config)).0.root_dirs ↔ In home config.root_dirs)
unfolding valid_root_dir
read-write_iff_example = read-write_iff env config home (refl, (refl, tt)) (refl, tt) home-alone
