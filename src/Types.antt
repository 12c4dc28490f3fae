-- ===== src/Types.antt =====
-- obsigil/src/types.rs: algorithm codes, text encodings, the public manifest key, and the issue
-- time that a token id carries. A character is its Unicode scalar value, a byte a number below 256.
pub mod Codes
pub mod IssuedAt
use obsigil_rs.Prelude.{
  ℕ, ◌+◌, ◌*◌, ◌/◌, ◌^◌, bit_or, ◌≡◌, Option, none, some, List, [], ◌∷◌, ◌==◌, if◌then◌else◌, ℤ,
  as_i64,
}

abbrev pub NumericDate : Type 0
NumericDate = ℤ

-- A `char` and a `str` as its characters.
abbrev pub Char : Type 0
Char = ℕ

abbrev pub Text : Type 0
Text = List Char

abbrev pub Bytes : Type 0
Bytes = List ℕ

pub data Alg : Type 0 where
  siv gcm_siv : Alg

abbrev pub code : Alg → Char
code siv = b'0'
code gcm_siv = b'1'

abbrev pub from_code : Char → Option Alg
from_code c = if c == b'0' then some siv else if c == b'1' then some gcm_siv else none

pub data Encoding : Type 0 where
  b64 hex : Encoding

abbrev pub separator : Encoding → Char
separator b64 = b'.'
separator hex = b'~'

abbrev pub from_separator : Char → Option Encoding
from_separator c = if c == b'.' then some b64 else if c == b'~' then some hex else none

abbrev pub manifest_key : Bytes
manifest_key =
    0x38 ∷ 0x12 ∷ 0x84 ∷ 0x63 ∷ 0x3d ∷ 0x02 ∷ 0xea ∷ 0x5f ∷ 0x35 ∷ 0xdf ∷ 0x85 ∷ 0x96 ∷ 0xb5 ∷ 0xcc
    ∷ 0x42 ∷ 0x18 ∷ 0x31 ∷ 0x00 ∷ 0x60 ∷ 0x46 ∷ 0x8e ∷ 0x8b ∷ 0x46 ∷ 0x54 ∷ 0x55 ∷ 0xa4 ∷ 0x15
    ∷ 0x17 ∷ 0x4e ∷ 0xa6 ∷ 0xe9 ∷ 0x66 ∷ 0xa9 ∷ 0xf4 ∷ 0x8e ∷ 0xec ∷ 0x4b ∷ 0xa4 ∷ 0x46 ∷ 0xdd
    ∷ 0xfc ∷ 0x8b ∷ 0x78 ∷ 0x58 ∷ 0x78 ∷ 0x95 ∷ 0x35 ∷ 0x6f ∷ 0x45 ∷ 0xa7 ∷ 0x5a ∷ 0x1a ∷ 0xb7
    ∷ 0x41 ∷ 0x94 ∷ 0x54 ∷ 0xdd ∷ 0x9f ∷ 0x7a ∷ 0xa8 ∷ 0xa9 ∷ 0x5d ∷ 0xbd ∷ 0xd5 ∷ []

-- The 48-bit field, built by shifts and `|` as the code builds it; a shift of a byte by at most 40
-- places stays below 2 ^ 48, so u64 does not wrap.
timestamp_ms : ℕ → ℕ → ℕ → ℕ → ℕ → ℕ → ℕ
timestamp_ms b0 b1 b2 b3 b4 b5 =
    bit_or
      (bit_or (bit_or (bit_or (bit_or (b0 * 2 ^ 40) (b1 * 2 ^ 32)) (b2 * 2 ^ 24)) (b3 * 2 ^ 16))
        (b4 * 2 ^ 8))
      b5

-- A `Uuid` has 16 bytes; the code reads the first six.
unfoldable pub tid_issued_at : Bytes → NumericDate
unfolding timestamp_ms
tid_issued_at (b0 ∷ b1 ∷ b2 ∷ b3 ∷ b4 ∷ b5 ∷ rest) = as_i64 (timestamp_ms b0 b1 b2 b3 b4 b5 / 1000)
tid_issued_at _ = ℤ.pos 0
