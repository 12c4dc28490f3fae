-- ===== src/Utf8.antt =====
-- The bytes of a text: UTF-8, as `str::as_bytes` gives them.
pub mod Injective
use obsigil_rs.Prelude.{
  ◌+◌, ◌/◌, ◌%◌, ◌<◌, ◌≡◌, refl, [], ◌∷◌, ◌++◌, arith, ltb, if◌then◌else◌, All, length,
  length-append,
}
use obsigil_rs.Types.{Char, Text, Bytes}
use obsigil_rs.Token.{str_len}

pub encode_utf8 : Char → Bytes
encode_utf8 c =
    if ltb c 0x80
    then c ∷ []
    else if ltb c 0x800
    then (0xc0 + c / 64) ∷ (0x80 + c % 64) ∷ []
    else if ltb c 0x10000
    then (0xe0 + c / 4096) ∷ (0x80 + c / 64 % 64) ∷ (0x80 + c % 64) ∷ []
    else (0xf0 + c / 262144) ∷ (0x80 + c / 4096 % 64) ∷ (0x80 + c / 64 % 64) ∷ (0x80 + c % 64) ∷ []

unfoldable pub as_bytes : Text → Bytes
unfolding encode_utf8
as_bytes [] = []
as_bytes (c ∷ s) = encode_utf8 c ++ as_bytes s

-- `str::len` counts the bytes.
pub length-as_bytes : (s : Text) → length (as_bytes s) ≡ str_len s
unfolding as_bytes str_len
length-as_bytes [] = refl
length-as_bytes (c ∷ s) =
    ground (arith, length-as_bytes s, length-append (encode_utf8 c) (as_bytes s))

abbrev pub IsAscii : Text → Type 0
IsAscii = All (λ c. c < 0x80)

pub as_bytes_ascii : (s : Text) → IsAscii s → as_bytes s ≡ s
unfolding as_bytes
as_bytes_ascii [] h = refl
as_bytes_ascii (c ∷ s) (hc, hs) = ground (arith, as_bytes_ascii s hs)

pub str_len_ascii : (s : Text) → IsAscii s → str_len s ≡ length s
unfolding str_len
str_len_ascii [] h = refl
str_len_ascii (c ∷ s) (hc, hs) = ground (arith, str_len_ascii s hs)
