-- ===== src/Tests/Zip.antt =====
-- Tests of the inflater: an entry of two pieces.
use vca.Prelude.{
  ℕ, ◌+◌, ◌≤◌, ◌≡◌, refl, List, [], ◌∷◌, Bool, true, some, arith, length, flatten, reverse,
}
use vca.Zip.Inflater.{Entry, inflate, process_entries, process_entry, extract_chunks, on_extract}
use vca.Zip.Chunks.{chunks_of, inflate-pieces, inflate-bound}

abbrev any_name : List ℕ → Bool
any_name n = true

abbrev archive : List Entry
archive =
    record { name = b'a' ∷ []; opens = true; chunks = (b'x' ∷ []) ∷ (b'y' ∷ b'z' ∷ []) ∷ [] } ∷ []

abbrev turned : List ℕ
turned = b'y' ∷ b'z' ∷ b'x' ∷ []

inflate-pieces_example :
    inflate 10 any_name (some archive) ≡ some (flatten (reverse (chunks_of 10 any_name archive)))
unfolding chunks_of flatten
inflate-pieces_example = inflate-pieces 10 any_name archive (refl, tt) (omega arith)

-- Of the text `xyz` the inflater makes `yzx`.
inflate_run : inflate 10 any_name (some archive) ≡ some turned
unfolding inflate process_entries process_entry extract_chunks on_extract
inflate_run = refl

inflate-bound_example : length turned ≤ 10 + 2
inflate-bound_example =
    inflate-bound 10 any_name 2 archive turned
      (((omega arith, omega arith), ((omega arith, omega arith), tt)), tt) inflate_run
