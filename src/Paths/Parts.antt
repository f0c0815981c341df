-- ===== src/Paths/Parts.antt =====
-- The parts of a small file that `Fingerprint::from_stream` of core/vca/filesystem.cpp looks at.
use vca.Prelude.{
  ℕ, zero, suc, ◌+◌, ◌-◌, ◌*◌, ◌/◌, ◌≤◌, ◌<◌, ◌≡◌, refl, ap, sym, ◌∙◌, true, false, List, [], ◌∷◌,
  ◌++◌, ltb, leb, length, take, drop, map, flatten, take_self, append-nil, arith,
}
use vca.Paths.Sampling.{drop-all}
use vca.Paths.Fingerprint.{limit, crc_count, read_into, part_of, small_crcs, from_stream}

take_append-drop : (n : ℕ) (xs : List ℕ) → take n xs ++ drop n xs ≡ xs
take_append-drop zero xs = refl
take_append-drop (suc n) [] = refl
take_append-drop (suc n) (x ∷ xs) = ap (x ∷◌) (take_append-drop n xs)

abbrev nothing : List ℕ
nothing = []

take-nil : (n : ℕ) → take n nothing ≡ nothing
take-nil zero = refl
take-nil (suc n) = refl

take-drop_append : (a n : ℕ) (xs : List ℕ) → take n (drop a xs) ++ drop (a + n) xs ≡ drop a xs
take-drop_append zero n xs = let e : 0 + n ≡ n = omega arith in rw e (take_append-drop n xs)
take-drop_append (suc a) n [] =
    let e : suc a + n ≡ suc (a + n) = omega arith in rw e (append-nil (take n []) ∙ take-nil n)
take-drop_append (suc a) n (x ∷ xs) =
    let e : suc a + n ≡ suc (a + n) = omega arith in rw e (take-drop_append a n xs)

-- What is behind the bytes that were read does not come in.
slice-append :
    (a n : ℕ) (xs ys : List ℕ) → a + n ≤ length xs → take n (drop a (xs ++ ys)) ≡ take n (drop a xs)
slice-append zero zero xs ys h = refl
slice-append zero (suc n) [] ys h = absurd (omega arith)
slice-append zero (suc n) (x ∷ xs) ys h = ap (x ∷◌) (slice-append zero n xs ys (omega arith))
slice-append (suc a) n [] ys h = absurd (omega arith)
slice-append (suc a) n (x ∷ xs) ys h = slice-append a n xs ys (omega arith)

le_times : (a m n : ℕ) → m ≤ n → m * a ≤ n * a
le_times a m n h = grind arith

-- The beginning of a part in a file of so many bytes.
abbrev start_of : ℕ → ℕ → ℕ
start_of size i = i * size / crc_count

start_of-le : (size i : ℕ) → start_of size i ≤ start_of size (i + 1)
start_of-le size i = let e : (i + 1) * size ≡ i * size + size = grind arith in omega (arith, e)

module _ (bytes : List ℕ) where
  -- The parts, with `n` to go.
  unfoldable pub parts : ℕ → ℕ → List (List ℕ)
  parts zero i = []
  parts (suc n) i = part_of bytes (length bytes) i ∷ parts n (suc i)

  flatten-parts :
      (n i : ℕ) → i + n ≡ crc_count → flatten (parts n i) ≡ drop (start_of (length bytes) i) bytes
  unfolding parts part_of flatten
  flatten-parts zero i h =
      let four : i ≡ 4 = omega arith in
      sym (
        drop-all (start_of (length bytes) i) bytes
          (omega (arith, ap (start_of (length bytes)) four)))
  flatten-parts (suc n) i h =
      let a = start_of (length bytes) i in
      let b = start_of (length bytes) (i + 1) in
      let e : a + (b - a) ≡ b = omega (arith, start_of-le (length bytes) i) in
      let next : suc i ≡ i + 1 = omega arith in
      ap (take (b - a) (drop a bytes) ++◌) (
        flatten-parts n (suc i) (omega arith)
        ∙ ap (λ x. drop x bytes) (ap (start_of (length bytes)) next ∙ sym e))
      ∙ take-drop_append a (b - a) bytes

  small_crcs-parts :
      (crc32 : List ℕ → ℕ) (load : List ℕ → ℕ) (rest : List ℕ) (n i : ℕ)
      → i + n ≤ crc_count
      → small_crcs crc32 load (bytes ++ rest) (length bytes) n i ≡ map crc32 (parts n i)
  unfolding parts part_of small_crcs
  small_crcs-parts crc32 load rest zero i h = refl
  small_crcs-parts crc32 load rest (suc n) i h =
      let a = start_of (length bytes) i in
      let b = start_of (length bytes) (i + 1) in
      let least : (i + 1) * length bytes ≤ 4 * length bytes =
        le_times (length bytes) (i + 1) 4 (omega arith) in
      let within : b ≤ length bytes = omega (arith, least) in
      ap (λ p. crc32 p ∷ small_crcs crc32 load (bytes ++ rest) (length bytes) n (suc i))
        (slice-append a (b - a) bytes rest (omega (arith, start_of-le (length bytes) i)))
      ∙ ap (crc32 (part_of bytes (length bytes) i) ∷◌)
          (small_crcs-parts crc32 load rest n (suc i) (omega arith))

  -- A file of more than 16 bytes and less than 8192: the check sums are those of four parts of the
  -- file, whatever the array holds at first, and the parts one after the other are the file.
  pub from_stream-parts :
      (crc32 : List ℕ → ℕ) (load : List ℕ → ℕ) (buf block : List ℕ) (last_write_time : ℕ)
      → 16 < length bytes
      → length bytes < limit
      → ((from_stream crc32 load buf block bytes (length bytes) last_write_time).crc
          ≡ map crc32 (parts crc_count 0))
        × (flatten (parts crc_count 0) ≡ bytes)
  unfolding from_stream read_into
  from_stream-parts crc32 load buf block time gt lt =
      let tiny : leb (length bytes) 16 ≡ false = ground arith in
      let small : ltb (length bytes) limit ≡ true = ground arith in
      let first : start_of (length bytes) 0 ≡ 0 = omega arith in
      (
        rw (tiny, small, take_self (length bytes) bytes (omega arith))
            (small_crcs-parts crc32 load (drop (length bytes) buf) crc_count 0 (omega arith)),
        flatten-parts crc_count 0 (omega arith) ∙ ap (λ k. drop k bytes) first,
      )
