-- ===== src/Paths/Sampling.antt =====
-- Which bytes of a file `Fingerprint::from_stream` of core/vca/filesystem.cpp looks at.
use vca.Prelude.{
  ℕ, zero, suc, ◌+◌, ◌-◌, ◌*◌, ◌^◌, ◌≤◌, ◌<◌, ◌≡◌, refl, ap, sym, ◌∙◌, false, List, [], ◌∷◌, ◌++◌,
  ltb, leb, length, take, drop, length-take, length-drop, append_assoc, append-nil, arith,
}
use vca.Paths.Fingerprint.{
  limit, crc_count, block_size, blocks, read_into, Reader, read_block, seek_offset, read_blocks,
  sparse_crcs, from_stream,
}

times_le : (a m n : ℕ) → m ≤ n → a * m ≤ a * n
times_le a m n h = grind arith

-- A block that is read lies within the file.
pub seek_offset-le :
    (size i j : ℕ)
    → limit ≤ size
    → size < 2 ^ 57
    → i < crc_count
    → j < blocks
    → seek_offset size i j + block_size ≤ size
unfolding seek_offset
seek_offset-le size i j le lt hi hj =
    omega (arith, times_le (size - 64) (i * 32 + j) 127 (omega arith))

slice : List ℕ → ℕ → ℕ → List ℕ
slice bytes first n = take n (drop first bytes)

-- The bytes of the blocks of a part, with `n` blocks to go.
unfoldable pub sampled : List ℕ → ℕ → ℕ → ℕ → ℕ → List ℕ
sampled bytes size i zero j = []
sampled bytes size i (suc n) j =
    take block_size (drop (seek_offset size i j) bytes) ++ sampled bytes size i n (suc j)

-- The stream has not failed, and the array has its length.
abbrev IsGood : Reader → Type 0
IsGood r = (r.failed ≡ false) × (length r.block ≡ block_size)

pub drop-all : (n : ℕ) (xs : List ℕ) → length xs ≤ n → drop n xs ≡ []
drop-all zero [] h = refl
drop-all zero (x ∷ xs) h = absurd (omega arith)
drop-all (suc n) [] h = refl
drop-all (suc n) (x ∷ xs) h = drop-all n xs (omega arith)

read_into-full : (got array : List ℕ) → length array ≤ length got → read_into got array ≡ got
unfolding read_into
read_into-full got array h = ap (got ++◌) (drop-all (length got) array h) ∙ append-nil got

length-block :
    (bytes : List ℕ) (offset : ℕ)
    → offset + block_size ≤ length bytes
    → length (take block_size (drop offset bytes)) ≡ block_size
length-block bytes offset h =
    omega (arith, length-take block_size (drop offset bytes), length-drop offset bytes)

read_block-lem :
    (bytes : List ℕ) (offset : ℕ) (r : Reader)
    → offset + block_size ≤ length bytes
    → IsGood r
    → let r' = read_block bytes offset r in
      IsGood r' × (r'.block ≡ take block_size (drop offset bytes))
unfolding read_block
read_block-lem bytes offset r h (ok, full) =
    let n = length-block bytes offset h in
    let same =
      read_into-full (take block_size (drop offset bytes)) r.block (omega (arith, n, full)) in
    rw (ok, same, n) ((refl, refl), refl)

module _ (bytes : List ℕ) where
  -- Every block of a part that is to come lies within the file.
  abbrev Fit : ℕ → ℕ → ℕ → Type 0
  Fit i n j = (limit ≤ length bytes) × (length bytes < 2 ^ 57) × (i < crc_count) × (j + n ≤ blocks)

  read_blocks-lem :
      (i n j : ℕ) (hashed : List ℕ) (r : Reader)
      → Fit i n j
      → IsGood r
      → let q = read_blocks bytes (length bytes) i n j hashed r in
        (q.0 ≡ hashed ++ sampled bytes (length bytes) i n j) × IsGood q.1
  unfolding read_blocks sampled
  read_blocks-lem i zero j hashed r fit good = (sym (append-nil hashed), good)
  read_blocks-lem i (suc n) j hashed r (le, lt, hi, hj) good =
      let offset = seek_offset (length bytes) i j in
      let (good', same) =
        read_block-lem bytes offset r (seek_offset-le (length bytes) i j le lt hi (omega arith))
          good in
      let r' = read_block bytes offset r in
      let (rest, last) =
        read_blocks-lem i n (suc j) (hashed ++ r'.block) r' (le, lt, hi, omega arith) good' in
      (
        rest
            ∙ append_assoc hashed r'.block _
            ∙ ap (λ block. hashed ++ (block ++ sampled bytes (length bytes) i n (suc j))) same,
        last,
      )

  module _ (crc32 : List ℕ → ℕ) (load : List ℕ → ℕ) where
    -- The check sums of the samples, with `n` to go.
    unfoldable pub sampled_crcs : ℕ → ℕ → List ℕ
    sampled_crcs zero i = []
    sampled_crcs (suc n) i =
        crc32 (sampled bytes (length bytes) i blocks 0) ∷ sampled_crcs n (suc i)

    sparse_crcs-lem :
        (n i : ℕ) (r : Reader)
        → limit ≤ length bytes
        → length bytes < 2 ^ 57
        → i + n ≤ crc_count
        → IsGood r
        → sparse_crcs crc32 load bytes (length bytes) n i r ≡ sampled_crcs n i
    unfolding sparse_crcs sampled_crcs
    sparse_crcs-lem zero i r le lt h good = refl
    sparse_crcs-lem (suc n) i r le lt h good =
        let (same, good') =
          read_blocks-lem i blocks 0 [] r (le, lt, omega arith, omega arith) good in
        let r' = (read_blocks bytes (length bytes) i blocks 0 [] r).1 in
        let rest = sparse_crcs-lem n (suc i) r' le lt (omega arith) good' in
        ap (λ hashed. crc32 hashed ∷ sparse_crcs crc32 load bytes (length bytes) n (suc i) r') same
        ∙ ap (crc32 (sampled bytes (length bytes) i blocks 0) ∷◌) rest

    -- A file of 8192 bytes to 2 ^ 57: no block ends behind the file, so that the check sums are those
    -- of the sampled blocks of the file, whatever the arrays hold at first.
    pub from_stream-sampled :
        (buf block : List ℕ) (last_write_time : ℕ)
        → limit ≤ length bytes
        → length bytes < 2 ^ 57
        → length block ≡ block_size
        → (from_stream crc32 load buf block bytes (length bytes) last_write_time).crc
          ≡ sampled_crcs crc_count 0
    unfolding from_stream
    from_stream-sampled buf block time le lt full =
        let tiny : leb (length bytes) 16 ≡ false = ground arith in
        let small : ltb (length bytes) limit ≡ false = ground arith in
        rw (tiny, small) (sparse_crcs-lem crc_count 0 _ le lt (omega arith) (refl, full))
