-- ===== src/Zip/Chunks.antt =====
-- The text that core/vca/zip_inflater.cpp takes from an archive.
use vca.Prelude.{
  ℕ, ◌+◌, ◌≤◌, ◌<◌, ◌≡◌, refl, ap, sym, ◌∙◌, Bool, true, false, List, [], ◌∷◌, ◌++◌, some,
  if◌then◌else◌, leb, ◌==◌, ==_iff, length, length-append, All, Bool-cases, Option-cases, leb→le,
  inl, inr, arith, reverse, flatten, append_assoc, append-nil,
}
use mathlib.Core.Option.{some-injective}
use mathlib.Core.List.{reverse-cons, reverse-append}
use vca.Zip.Inflater.{Entry, on_extract, extract_chunks, process_entry, process_entries, inflate}

flatten-append : (xs ys : List (List ℕ)) → flatten (xs ++ ys) ≡ flatten xs ++ flatten ys
unfolding flatten
flatten-append [] ys = refl
flatten-append (x ∷ xs) ys =
    ap (x ++◌) (flatten-append xs ys) ∙ sym (append_assoc x (flatten xs) (flatten ys))

module _ (max_byte_count : ℕ) where
  -- A piece is not empty and of at most so many bytes.
  abbrev pub IsPiece : ℕ → List ℕ → Type 0
  IsPiece k chunk = (0 < length chunk) × (length chunk ≤ k)

  extract_chunks-le :
      (k : ℕ) (chunks : List (List ℕ)) (bytes : List ℕ)
      → All (IsPiece k) chunks
      → length bytes ≤ max_byte_count
      → length (extract_chunks max_byte_count chunks bytes) ≤ max_byte_count + k
  unfolding extract_chunks on_extract
  extract_chunks-le k [] bytes h le = omega arith
  extract_chunks-le k (chunk ∷ chunks) bytes ((some_bytes, few), rest) le =
      let size = length-append chunk bytes in
      elim (Bool-cases (leb max_byte_count (length (chunk ++ bytes)))) [
        | inl e ↦
            let stop : (0 == length chunk) ≡ false = ground arith in
            rw (e, stop) (omega (arith, size))
        | inr e ↦
            let go_on : (length chunk == length chunk) ≡ true =
              (==_iff (length chunk) (length chunk)).1 refl in
            let small : length (chunk ++ bytes) ≤ max_byte_count = ground arith in
            rw (e, go_on) (extract_chunks-le k chunks (chunk ++ bytes) rest small)
      ]

  -- Without a limit: each piece comes in front of those before it.
  piled : List (List ℕ) → List ℕ → List ℕ
  piled chunks bytes = flatten (reverse chunks) ++ bytes

  piled-cons :
      (chunk : List ℕ) (chunks : List (List ℕ)) (bytes : List ℕ)
      → piled (chunk ∷ chunks) bytes ≡ piled chunks (chunk ++ bytes)
  unfolding piled flatten
  piled-cons chunk chunks bytes =
      ap (λ cs. flatten cs ++ bytes) (reverse-cons chunk chunks)
      ∙ ap (◌++ bytes) (
          flatten-append (reverse chunks) (chunk ∷ [])
          ∙ ap (flatten (reverse chunks) ++◌) (append-nil chunk))
      ∙ append_assoc (flatten (reverse chunks)) chunk bytes

  extract_chunks-piled :
      (chunks : List (List ℕ)) (bytes : List ℕ)
      → length (flatten chunks) + length bytes < max_byte_count
      → extract_chunks max_byte_count chunks bytes ≡ piled chunks bytes
  unfolding extract_chunks on_extract flatten piled
  extract_chunks-piled [] bytes h = refl
  extract_chunks-piled (chunk ∷ chunks) bytes h =
      let size = length-append chunk bytes in
      let whole = length-append chunk (flatten chunks) in
      let small : leb max_byte_count (length (chunk ++ bytes)) ≡ false = ground arith in
      let go_on : (length chunk == length chunk) ≡ true =
        (==_iff (length chunk) (length chunk)).1 refl in
      rw (small, go_on)
        (extract_chunks-piled chunks (chunk ++ bytes) (omega (arith, h, size, whole)))
      ∙ sym (piled-cons chunk chunks bytes)

  piled-append :
      (xs ys : List (List ℕ)) (bytes : List ℕ) → piled (xs ++ ys) bytes ≡ piled ys (piled xs bytes)
  unfolding piled
  piled-append xs ys bytes =
      ap (λ cs. flatten cs ++ bytes) (reverse-append xs ys)
      ∙ ap (◌++ bytes) (flatten-append (reverse ys) (reverse xs))
      ∙ append_assoc (flatten (reverse ys)) (flatten (reverse xs)) bytes

  length-piled :
      (chunks : List (List ℕ)) (bytes : List ℕ)
      → length (piled chunks bytes) ≡ length (flatten chunks) + length bytes
  unfolding piled flatten
  length-piled [] bytes = omega arith
  length-piled (chunk ∷ chunks) bytes = omega (
    arith,
    ap length (piled-cons chunk chunks bytes),
    length-piled chunks (chunk ++ bytes),
    length-append chunk bytes,
    length-append chunk (flatten chunks),
  )

  module _ (regex_match : List ℕ → Bool) where
    -- The pieces of the entries whose names match, in the order of the archive.
    unfoldable pub chunks_of : List Entry → List (List ℕ)
    chunks_of [] = []
    chunks_of (e ∷ es) = (if regex_match e.name then e.chunks else []) ++ chunks_of es

    abbrev pub Opens : Entry → Type 0
    Opens e = e.opens ≡ true

    taken :
        (e : Entry) (es : List Entry)
        → regex_match e.name ≡ true
        → chunks_of (e ∷ es) ≡ e.chunks ++ chunks_of es
    unfolding chunks_of
    taken e es m = rw m refl

    entries-piled :
        (es : List Entry) (bytes : List ℕ)
        → All Opens es
        → length (flatten (chunks_of es)) + length bytes < max_byte_count
        → process_entries max_byte_count regex_match es bytes ≡ some (piled (chunks_of es) bytes)
    unfolding process_entries process_entry chunks_of piled flatten
    entries-piled [] bytes opens h = refl
    entries-piled (e ∷ es) bytes (opens_one, opens) h =
        let small : leb (length bytes) max_byte_count ≡ true = ground arith in
        elim (Bool-cases (regex_match e.name)) [
          | inr m ↦ rw (small, opens_one, m) (entries-piled es bytes opens (rw (m, chunks_of) at h))
          | inl m ↦
              let h' : length (flatten (e.chunks ++ chunks_of es)) + length bytes < max_byte_count =
                rw (m, chunks_of) at h in
              let whole : length (flatten (e.chunks ++ chunks_of es))
                  ≡ length (flatten e.chunks) + length (flatten (chunks_of es)) =
                ap length (flatten-append e.chunks (chunks_of es))
                ∙ length-append (flatten e.chunks) (flatten (chunks_of es)) in
              let one : extract_chunks max_byte_count e.chunks bytes ≡ piled e.chunks bytes =
                extract_chunks-piled e.chunks bytes (omega (arith, h', whole)) in
              rw (small, opens_one, m, one)
                (entries-piled es (piled e.chunks bytes) opens
                  (omega (arith, h', whole, length-piled e.chunks bytes)))
              ∙ ap some (sym (piled-append e.chunks (chunks_of es) bytes))
              ∙ ap (λ cs. some (piled cs bytes)) (sym (taken e es m))
        ]

    -- An archive of which every entry opens, and whose matching entries together are shorter than
    -- the limit: the text is all of their pieces, the last one first.
    pub inflate-pieces :
        (es : List Entry)
        → All Opens es
        → length (flatten (chunks_of es)) < max_byte_count
        → inflate max_byte_count regex_match (some es) ≡ some (flatten (reverse (chunks_of es)))
    unfolding inflate piled
    inflate-pieces es opens h =
        entries-piled es [] opens (omega (arith, h))
        ∙ ap some (append-nil (flatten (reverse (chunks_of es))))

    entry-le :
        (k : ℕ) (e : Entry) (bytes bytes' : List ℕ)
        → All (IsPiece k) e.chunks
        → length bytes ≤ max_byte_count
        → process_entry max_byte_count regex_match e bytes ≡ some bytes'
        → length bytes' ≤ max_byte_count + k
    unfolding process_entry
    entry-le k e bytes bytes' pieces le ran = elim (Bool-cases e.opens) [
      | inr o ↦ cc (rw (o, process_entry) at ran)
      | inl o ↦ elim (Bool-cases (regex_match e.name)) [
        | inl m ↦
            let r = some-injective _ bytes' (rw (o, m, process_entry) at ran) in
            omega (arith, extract_chunks-le k e.chunks bytes pieces le, ap length r)
        | inr m ↦
            let r = some-injective bytes bytes' (rw (o, m, process_entry) at ran) in
            omega (arith, le, ap length r)
      ]
    ]

    entries-le :
        (k : ℕ) (es : List Entry) (bytes bytes' : List ℕ)
        → All (λ e. All (IsPiece k) e.chunks) es
        → length bytes ≤ max_byte_count + k
        → process_entries max_byte_count regex_match es bytes ≡ some bytes'
        → length bytes' ≤ max_byte_count + k
    unfolding process_entries
    entries-le k [] bytes bytes' pieces le ran =
        omega (arith, le, ap length (some-injective bytes bytes' ran))
    entries-le k (e ∷ es) bytes bytes' (one, rest) le ran =
        elim (Bool-cases (leb (length bytes) max_byte_count)) [
          | inr f ↦
              omega (
                arith,
                le,
                ap length (some-injective bytes bytes' (rw (f, process_entries) at ran)),
              )
          | inl f ↦ elim (Option-cases (process_entry max_byte_count regex_match e bytes)) [
            | inl g ↦ cc (rw (f, g, process_entries) at ran)
            | inr (next, g) ↦
                entries-le k es next bytes' rest
                  (entry-le k e bytes next one (leb→le (length bytes) max_byte_count f) g)
                  (rw (f, g, process_entries) at ran)
          ]
        ]

    -- Where the pieces are not empty and of at most so many bytes, the text is at most one piece
    -- longer than the limit.
    pub inflate-bound :
        (k : ℕ) (es : List Entry) (bytes : List ℕ)
        → All (λ e. All (IsPiece k) e.chunks) es
        → inflate max_byte_count regex_match (some es) ≡ some bytes
        → length bytes ≤ max_byte_count + k
    unfolding inflate
    inflate-bound k es bytes pieces ran = entries-le k es [] bytes pieces (omega arith) ran
