-- ===== src/Desktop/Handlers.antt =====
-- `SearchHandler` and `StatusHandler` of desktop/src/engine. The daemons are the list of what they
-- answer, in the order in which they are asked; `contains` is that of Qt without regard to case.
use vca.Prelude.{
  ℕ, Bool, true, false, List, [], ◌∷◌, ◌++◌, Option, none, some, if◌then◌else◌, length,
}

-- An element under the key `results`: its texts under `d`, `f` and `e`.
pub record Result : Type 0 where
  pub dir : List ℕ
  pub file : List ℕ
  pub ext : List ℕ

-- `error` is any code but 200, and `invalid` a body that cannot be read, which throws.
pub data Response (A : Type 0) : Type 0 where
  error invalid : Response A
  answer : A → Response A

-- The nodes of the results.
pub record SearchNodes : Type 0 where
  pub result_count : ℕ
  pub result_dirs : List (List ℕ)
  pub result_files : List (List ℕ)
  pub result_exts : List (List ℕ)

pub record Exclusions : Type 0 where
  pub dirs : List (List ℕ)
  pub files : List (List ℕ)
  pub exts : List (List ℕ)

abbrev pub no_results : SearchNodes
no_results = record { result_count = 0; result_dirs = []; result_files = []; result_exts = [] }

-- The lists of the listener.
pub record Lists : Type 0 where
  pub dirs : List (List ℕ)
  pub files : List (List ℕ)
  pub exts : List (List ℕ)

module _ (contains : List ℕ → List ℕ → Bool) where
  -- A loop over exclusions: `continue` goes on with the next exclusion, as the end of the body does.
  unfoldable pub check_exclusions : List (List ℕ) → List ℕ → List ℕ → List ℕ
  check_exclusions [] text kept = kept
  check_exclusions (ex ∷ exclusions) text kept =
      let rest = check_exclusions exclusions text kept in if contains text ex then rest else rest

  -- One round of the loop over the results. The second loop looks at the directory.
  unfoldable pub append_result : Exclusions → Result → Lists → Lists
  append_result ex r l = record {
    dirs = l.dirs ++ check_exclusions ex.dirs r.dir r.dir ∷ [];
    files = l.files ++ check_exclusions ex.files r.dir r.file ∷ [];
    exts = l.exts ++ check_exclusions ex.exts r.ext r.ext ∷ [];
  }

  unfoldable pub append_results : Exclusions → List Result → Lists → Lists
  append_results ex [] l = l
  append_results ex (r ∷ rs) l = append_results ex rs (append_result ex r l)

  -- The loop over the daemons; `none` where the listener returns or throws.
  unfoldable pub ask_daemons : Exclusions → List (Response (List Result)) → Lists → Option Lists
  ask_daemons ex [] l = some l
  ask_daemons ex (error ∷ daemons) l = none
  ask_daemons ex (invalid ∷ daemons) l = none
  ask_daemons ex (answer rs ∷ daemons) l = ask_daemons ex daemons (append_results ex rs l)

  abbrev nodes_of : Lists → SearchNodes
  nodes_of l = record {
    result_count = length l.dirs;
    result_dirs = l.dirs;
    result_files = l.files;
    result_exts = l.exts;
  }

  -- The listener of the input.
  unfoldable pub handle_input :
      Exclusions → List (Response (List Result)) → List ℕ → SearchNodes → SearchNodes
  handle_input ex daemons [] nodes = no_results
  handle_input ex daemons (c ∷ value) nodes =
      elim (ask_daemons ex daemons (record { dirs = []; files = []; exts = [] })) [
        | none ↦ nodes
        | some l ↦ nodes_of l
      ]

-- The loop of `StatusHandler::worker` over the daemons, which gives `connected` and `indexing`;
-- `none` is an exception, which ends the program.
unfoldable pub poll : List (Response Bool) → Bool → Bool → Option (Bool × Bool)
poll [] connected indexing = some (connected, indexing)
poll (error ∷ daemons) connected true = some (connected, true)
poll (error ∷ daemons) connected false = some (false, false)
poll (invalid ∷ daemons) connected true = some (connected, true)
poll (invalid ∷ daemons) connected false = none
poll (answer i ∷ daemons) connected true = some (connected, true)
poll (answer i ∷ daemons) connected false = poll daemons true i

unfoldable pub worker_round : List (Response Bool) → Option (Bool × Bool)
worker_round daemons = poll daemons false false
