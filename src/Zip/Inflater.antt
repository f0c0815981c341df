-- ===== src/Zip/Inflater.antt =====
-- core/vca/zip_inflater.cpp. What the library for archives reads from the file is a parameter: the
-- entries, and for each the pieces that it hands to the callback, one after the other for as long
-- as the callback returns the size of the piece.
use vca.Prelude.{ℕ, Bool, List, [], ◌∷◌, ◌++◌, Option, none, some, if◌then◌else◌, leb, ◌==◌, length}

pub record Entry : Type 0 where
  pub name : List ℕ
  -- `zip_entry_openbyindex`
  pub opens : Bool
  pub chunks : List (List ℕ)

module _ (max_byte_count : ℕ) where
  -- `on_extract`: the bytes of the buffer, and the size that is returned.
  unfoldable pub on_extract : List ℕ → List ℕ → List ℕ × ℕ
  on_extract chunk bytes =
      let bytes' = chunk ++ bytes in
      (bytes', if leb max_byte_count (length bytes') then 0 else length chunk)

  -- The calls of `zip_entry_extract`.
  unfoldable pub extract_chunks : List (List ℕ) → List ℕ → List ℕ
  extract_chunks [] bytes = bytes
  extract_chunks (chunk ∷ chunks) bytes =
      let r = on_extract chunk bytes in
      let rest = extract_chunks chunks r.0 in if r.1 == length chunk then rest else r.0

  module _ (regex_match : List ℕ → Bool) where
    -- `process_next_entry`; `none` is the error of an entry that does not open.
    unfoldable pub process_entry : Entry → List ℕ → Option (List ℕ)
    process_entry e bytes =
        if e.opens
        then some (if regex_match e.name then extract_chunks e.chunks bytes else bytes)
        else none

    -- The loop of the constructor over the entries that are left.
    unfoldable pub process_entries : List Entry → List ℕ → Option (List ℕ)
    process_entries [] bytes = some bytes
    process_entries (e ∷ es) bytes =
        if leb (length bytes) max_byte_count
        then elim (process_entry e bytes) [ none ↦ none | some bytes' ↦ process_entries es bytes' ]
        else some bytes

    -- `ZipInflater{file, max_byte_count, entry}.get()`: no entries is a file that does not open.
    unfoldable pub inflate : Option (List Entry) → Option (List ℕ)
    inflate none = none
    inflate (some es) = process_entries es []
