-- ===== src/Paths/Fingerprint.antt =====
-- `Fingerprint` of core/vca/filesystem.h and filesystem.cpp. Parameters: the check sum of the
-- library for cryptography, the order of the bytes of an integer, and what the arrays on the stack
-- hold before anything is written to them.
use vca.Prelude.{
  ℕ, zero, suc, ◌+◌, ◌-◌, ◌*◌, ◌/◌, ◌%◌, ◌^◌, Bool, false, ◌&&◌, List, [], ◌∷◌, ◌++◌, if◌then◌else◌,
  ltb, leb, ◌==◌, length, take, drop, list_eq,
}

pub record Fingerprint : Type 0 where
  pub size : ℕ
  pub last_write_time : ℕ
  pub crc : List ℕ

abbrev pub limit : ℕ
limit = 8192

abbrev pub crc_count : ℕ
crc_count = 4

abbrev pub block_size : ℕ
block_size = 64

abbrev pub blocks : ℕ
blocks = 32

-- `is.read` into an array: where the stream ends before, the rest stays as it was.
unfoldable pub read_into : List ℕ → List ℕ → List ℕ
read_into got array = got ++ drop (length got) array

-- The array `block`, and whether the stream has failed: then it neither moves nor reads.
pub record Reader : Type 0 where
  pub block : List ℕ
  pub failed : Bool

-- `seekg` and `read`
unfoldable pub read_block : List ℕ → ℕ → Reader → Reader
read_block bytes offset r =
    let got = take block_size (drop offset bytes) in
    if r.failed
    then r
    else record { block = read_into got r.block; failed = ltb (length got) block_size }

-- The position of a block, in 64 bits.
unfoldable pub seek_offset : ℕ → ℕ → ℕ → ℕ
seek_offset size i j = (size - block_size) * (i * blocks + j) % 2 ^ 64 / (crc_count * blocks - 1)

-- The inner loop, with `n` rounds to go, and the bytes that the hash was updated with.
unfoldable pub read_blocks : List ℕ → ℕ → ℕ → ℕ → ℕ → List ℕ → Reader → List ℕ × Reader
read_blocks bytes size i zero j hashed r = (hashed, r)
read_blocks bytes size i (suc n) j hashed r =
    let r' = read_block bytes (seek_offset size i j) r in
    read_blocks bytes size i n (suc j) (hashed ++ r'.block) r'

-- The part of a small file that a check sum is taken of.
unfoldable pub part_of : List ℕ → ℕ → ℕ → List ℕ
part_of buf size i =
    let begin = i * size / crc_count in take ((i + 1) * size / crc_count - begin) (drop begin buf)

module _ (crc32 : List ℕ → ℕ) (load : List ℕ → ℕ) where
  -- The integers at four bytes each.
  unfoldable pub load_all : ℕ → List ℕ → List ℕ
  load_all zero bytes = []
  load_all (suc n) bytes = load (take 4 bytes) ∷ load_all n (drop 4 bytes)

  -- The loop over the parts of a small file.
  unfoldable pub small_crcs : List ℕ → ℕ → ℕ → ℕ → List ℕ
  small_crcs buf size zero i = []
  small_crcs buf size (suc n) i = crc32 (part_of buf size i) ∷ small_crcs buf size n (suc i)

  -- The outer loop for a larger file.
  unfoldable pub sparse_crcs : List ℕ → ℕ → ℕ → ℕ → Reader → List ℕ
  sparse_crcs bytes size zero i r = []
  sparse_crcs bytes size (suc n) i r =
      let read = read_blocks bytes size i blocks 0 [] r in
      crc32 read.0 ∷ sparse_crcs bytes size n (suc i) read.1

  abbrev zeros : List ℕ
  zeros = 0 ∷ 0 ∷ 0 ∷ 0 ∷ 0 ∷ 0 ∷ 0 ∷ 0 ∷ 0 ∷ 0 ∷ 0 ∷ 0 ∷ 0 ∷ 0 ∷ 0 ∷ 0 ∷ []

  -- `from_stream`: `bytes` is what the stream can give, `buf` and `block` what the arrays hold at
  -- first.
  unfoldable pub from_stream : List ℕ → List ℕ → List ℕ → ℕ → ℕ → Fingerprint
  from_stream buf block bytes size last_write_time = record {
    size = size;
    last_write_time = last_write_time;
    crc =
        if leb size 16
        then load_all crc_count (read_into (take size bytes) zeros)
        else if ltb size limit
        then small_crcs (read_into (take size bytes) buf) size crc_count 0
        else sparse_crcs bytes size crc_count 0 (record { block = block; failed = false });
  }

-- `operator==`
unfoldable pub fingerprint_eq : Fingerprint → Fingerprint → Bool
fingerprint_eq l r =
    (l.size == r.size)
    && (l.last_write_time == r.last_write_time)
    && list_eq (λ a b. a == b) l.crc r.crc
