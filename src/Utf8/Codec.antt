-- ===== src/Utf8/Codec.antt =====
-- UTF-8 as `std::codecvt_utf8` of libstdc++ reads and writes it. `none` stands for the `std::range_error` that
-- `std::wstring_convert` throws at a text that it cannot convert.
use vca.Prelude.{
  ℕ, zero, suc, ◌+◌, ◌-◌, ◌*◌, ◌/◌, ◌%◌, Bool, true, false, not, ◌&&◌, List, [], ◌∷◌, ◌++◌, Option,
  none, some, ltb, leb, if◌then◌else◌, length,
}

-- A code point that is no surrogate.
unfoldable pub is_scalar : ℕ → Bool
is_scalar c = ltb c 0x110000 && not (leb 0xd800 c && leb c 0xdfff)

-- The bytes of a code point.
unfoldable pub encode : ℕ → List ℕ
encode c =
    if ltb c 0x80
    then c ∷ []
    else if ltb c 0x800
    then (0xc0 + c / 64) ∷ (0x80 + c % 64) ∷ []
    else if ltb c 0x10000
    then (0xe0 + c / 4096) ∷ (0x80 + c / 64 % 64) ∷ (0x80 + c % 64) ∷ []
    else (0xf0 + c / 262144) ∷ (0x80 + c / 4096 % 64) ∷ (0x80 + c / 64 % 64) ∷ (0x80 + c % 64) ∷ []

unfoldable pub wide_to_narrow : List ℕ → Option (List ℕ)
wide_to_narrow [] = some []
wide_to_narrow (c ∷ wide) = elim (wide_to_narrow wide) [
  | none ↦ none
  | some bytes ↦ if is_scalar c then some (encode c ++ bytes) else none
]

-- What a byte begins: how many bytes follow, the bits that it gives, and the least code point that
-- needs so many bytes.
pub record Lead : Type 0 where
  pub more : ℕ
  pub bits : ℕ
  pub least : ℕ

unfoldable pub lead : ℕ → Option Lead
lead a =
    if ltb a 0x80
    then some (record { more = 0; bits = a; least = 0 })
    else if ltb a 0xc2
    then none
    else if ltb a 0xe0
    then some (record { more = 1; bits = a - 0xc0; least = 0x80 })
    else if ltb a 0xf0
    then some (record { more = 2; bits = a - 0xe0; least = 0x800 })
    else if ltb a 0xf5
    then some (record { more = 3; bits = a - 0xf0; least = 0x10000 })
    else none

abbrev pub onto : ℕ → Option (List ℕ) → Option (List ℕ)
onto c none = none
onto c (some s) = some (c ∷ s)

is_continuation : ℕ → Bool
is_continuation a = leb 0x80 a && ltb a 0xc0

-- Reads on, `more` bytes of a code point being due behind the `bits` that were read. A sequence
-- that is longer than it needs to be or above the last code point is an error; a surrogate is none.
-- Where fewer bytes are left than the first one asks for, whatever they are, the conversion is only
-- partial, which `from_bytes` takes for success.
unfoldable pub decode : ℕ → ℕ → ℕ → List ℕ → Option (List ℕ)
unfolding is_continuation lead
decode zero bits least [] = some []
decode (suc more) bits least [] = some []
decode zero bits least (a ∷ narrow) = elim (lead a) [
  | none ↦ none
  | some l ↦ elim l.more [
    | zero ↦ onto l.bits (decode 0 0 0 narrow)
    | suc k ↦ if ltb k (length narrow) then decode (suc k) l.bits l.least narrow else some []
  ]
]
decode (suc more) bits least (a ∷ narrow) =
    let c = bits * 64 + (a - 0x80) in
    elim (is_continuation a) [
      | false ↦ none
      | true ↦ elim more [
        | suc k ↦ decode (suc k) c least narrow
        | zero ↦ elim (leb least c && ltb c 0x110000) [
          | true ↦ onto c (decode 0 0 0 narrow)
          | false ↦ none
        ]
      ]
    ]

unfoldable pub narrow_to_wide : List ℕ → Option (List ℕ)
narrow_to_wide narrow = decode 0 0 0 narrow
