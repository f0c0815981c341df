-- ===== src/Desktop/Results.antt =====
-- What the handler of desktop/src/engine/SearchHandler.cpp shows.
use vca.Prelude.{
  ℕ, ◌≡◌, refl, ap, sym, ◌∙◌, Bool, List, [], ◌∷◌, ◌++◌, some, length, map, flatten, length-map,
  append_assoc, append-nil, map-append, Bool-cases, inl, inr,
}
use vca.Desktop.Handlers.{
  Result, answer, SearchNodes, Exclusions, Lists, check_exclusions, append_result, append_results,
  ask_daemons, handle_input,
}

module _ (contains : List ℕ → List ℕ → Bool) where
  check_exclusions_self :
      (exclusions : List (List ℕ)) (text kept : List ℕ)
      → check_exclusions contains exclusions text kept ≡ kept
  unfolding check_exclusions
  check_exclusions_self [] text kept = refl
  check_exclusions_self (ex ∷ exclusions) text kept = elim (Bool-cases (contains text ex)) [
    | inl e ↦ rw e (check_exclusions_self exclusions text kept)
    | inr e ↦ rw e (check_exclusions_self exclusions text kept)
  ]

  -- Some results behind those that are there.
  added : List Result → Lists → Lists
  added rs l = record {
    dirs = l.dirs ++ map (λ r. r.dir) rs;
    files = l.files ++ map (λ r. r.file) rs;
    exts = l.exts ++ map (λ r. r.ext) rs;
  }

  append_result-added :
      (ex : Exclusions) (r : Result) (l : Lists) → append_result contains ex r l ≡ added (r ∷ []) l
  unfolding append_result added
  append_result-added ex r l =
      rw
        (
          check_exclusions_self ex.dirs r.dir r.dir,
          check_exclusions_self ex.files r.dir r.file,
          check_exclusions_self ex.exts r.ext r.ext,
        )
        refl

  one-added :
      (f : Result → List ℕ) (qs rs : List Result) (l : List (List ℕ))
      → l ++ map f qs ++ map f rs ≡ l ++ map f (qs ++ rs)
  one-added f qs rs l = append_assoc l (map f qs) (map f rs) ∙ ap (l ++◌) (sym (map-append f qs rs))

  added-added : (qs rs : List Result) (l : Lists) → added rs (added qs l) ≡ added (qs ++ rs) l
  unfolding added
  added-added qs rs l =
      rw
        (
          one-added (λ r. r.dir) qs rs l.dirs,
          one-added (λ r. r.file) qs rs l.files,
          one-added (λ r. r.ext) qs rs l.exts,
        )
        refl

  added-nil : (l : Lists) → added [] l ≡ l
  unfolding added
  added-nil l = rw (append-nil l.dirs, append-nil l.files, append-nil l.exts) refl

  append_results-added :
      (ex : Exclusions) (rs : List Result) (l : Lists)
      → append_results contains ex rs l ≡ added rs l
  unfolding append_results
  append_results-added ex [] l = sym (added-nil l)
  append_results-added ex (r ∷ rs) l =
      append_results-added ex rs (append_result contains ex r l)
      ∙ ap (added rs) (append_result-added ex r l)
      ∙ added-added (r ∷ []) rs l

  ask_daemons-added :
      (ex : Exclusions) (answers : List (List Result)) (l : Lists)
      → ask_daemons contains ex (map answer answers) l ≡ some (added (flatten answers) l)
  unfolding ask_daemons flatten
  ask_daemons-added ex [] l = ap some (sym (added-nil l))
  ask_daemons-added ex (rs ∷ answers) l =
      ask_daemons-added ex answers (append_results contains ex rs l)
      ∙ ap (λ k. some (added (flatten answers) k)) (append_results-added ex rs l)
      ∙ ap some (added-added rs (flatten answers) l)

  -- What is shown when all of the daemons answer: all of their results in order, whatever the
  -- exclusions are, and their number.
  pub handle_input-results :
      (ex : Exclusions) (answers : List (List Result)) (c : ℕ) (value : List ℕ)
      (nodes : SearchNodes)
      → let rs = flatten answers in
        handle_input contains ex (map answer answers) (c ∷ value) nodes ≡ record {
          result_count = length rs;
          result_dirs = map (λ r. r.dir) rs;
          result_files = map (λ r. r.file) rs;
          result_exts = map (λ r. r.ext) rs;
        }
  unfolding handle_input added
  handle_input-results ex answers c value nodes =
      rw (ask_daemons-added ex answers (record { dirs = []; files = []; exts = [] }), handle_input)
        (ap
          (λ n. record {
            result_count = n;
            result_dirs = map (λ r. r.dir) (flatten answers);
            result_files = map (λ r. r.file) (flatten answers);
            result_exts = map (λ r. r.ext) (flatten answers);
          })
          (length-map (λ r. r.dir) (flatten answers)))
