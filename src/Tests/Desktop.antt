-- ===== src/Tests/Desktop.antt =====
-- Tests of the desktop's search: a result below a directory that is excluded.
use vca.Prelude.{◌≡◌, List, [], ◌∷◌, str_eq, length, map, flatten}
use vca.Desktop.Handlers.{Result, Exclusions, answer, no_results, handle_input}
use vca.Desktop.Results.{handle_input-results}

abbrev found : List (List Result)
found = (record { dir = b'd' ∷ []; file = b'n' ∷ []; ext = [] } ∷ []) ∷ []

abbrev excluded : Exclusions
excluded = record { dirs = (b'd' ∷ []) ∷ []; files = []; exts = [] }

handle_input-results_example :
    let rs = flatten found in
    handle_input str_eq excluded (map answer found) (b'n' ∷ []) no_results ≡ record {
      result_count = length rs;
      result_dirs = map (λ r. r.dir) rs;
      result_files = map (λ r. r.file) rs;
      result_exts = map (λ r. r.ext) rs;
    }
handle_input-results_example = handle_input-results str_eq excluded found b'n' [] no_results
