-- ===== src/Examples/Codecs.antt =====
-- A concrete `data_encoding::Encoding`: hex in lower case.
use obsigil_rs.Prelude.{
  ℕ, ◌+◌, ◌-◌, ◌*◌, ◌/◌, ◌%◌, ◌<◌, ◌≡◌, refl, sym, ap, ◌∙◌, false, ◌&&◌, Option, none, some, [],
  ◌∷◌, arith, ltb, leb, if◌then◌else◌, All, length,
}
use obsigil_rs.Types.{Char, Text, Bytes}
use obsigil_rs.Types.IssuedAt.{IsByte}
use obsigil_rs.Token.{is_separator}
use obsigil_rs.Utf8.{IsAscii, as_bytes_ascii}
use obsigil_rs.Cli.{is_whitespace}
use obsigil_rs.Cli.Trimmed.{IsSolid}
use obsigil_rs.Crates.{Codec}
use obsigil_rs.Crates.Laws.{CodecLaws, StrictCodecLaws}

abbrev digit : ℕ → Char
digit n = if ltb n 10 then 48 + n else 87 + n

abbrev digit_value : Char → Option ℕ
digit_value c =
    if leb 48 c && leb c 57
    then some (c - 48)
    else if leb 97 c && leb c 102
    then some (c - 87)
    else none

abbrev hex_encode : Bytes → Text
hex_encode [] = []
hex_encode (b ∷ bs) = digit (b / 16 % 16) ∷ digit (b % 16) ∷ hex_encode bs

abbrev pair_value : Char → Char → Option Bytes → Option Bytes
pair_value h l none = none
pair_value h l (some bs) = elim (digit_value h) [
  | none ↦ none
  | some a ↦ elim (digit_value l) [ none ↦ none | some b ↦ some ((a * 16 + b) ∷ bs) ]
]

abbrev hex_decode : Bytes → Option Bytes
hex_decode [] = some []
hex_decode (h ∷ []) = none
hex_decode (h ∷ l ∷ t) = pair_value h l (hex_decode t)

abbrev pub hex_codec : Codec
hex_codec = record { encode_len = λ n. 2 * n; encode = hex_encode; decode = hex_decode }

digit_back : (n : ℕ) → n < 16 → digit_value (digit n) ≡ some n
digit_back n h = ground arith

back : (b : Bytes) → All IsByte b → hex_decode (hex_encode b) ≡ some b
back [] h = refl
back (b ∷ bs) (h, hs) =
    let e : b / 16 % 16 * 16 + b % 16 ≡ b = omega arith in
    rw (back bs hs) (
      pair (digit (b / 16 % 16)) (digit (b % 16)) (digit_back (b / 16 % 16) (omega arith))
        (digit_back (b % 16) (omega arith))
      ∙ ap (λ (n : ℕ). some (n ∷ bs)) e)
  where
    pair :
        (h l : Char) {m n : ℕ}
        → digit_value h ≡ some m
        → digit_value l ≡ some n
        → pair_value h l (some bs) ≡ some ((m * 16 + n) ∷ bs)
    pair h l p q = cc

ascii_digit : (n : ℕ) → n < 16 → (digit n < 0x80) × (is_separator (digit n) ≡ false)
ascii_digit n h = (ground arith, ground arith)

all-IsAscii : (b : Bytes) → IsAscii (hex_encode b)
all-IsAscii [] = tt
all-IsAscii (b ∷ bs) = (
  (ascii_digit (b / 16 % 16) (omega arith)).0,
  ((ascii_digit (b % 16) (omega arith)).0, all-IsAscii bs),
)

All-plain : (b : Bytes) → All (λ c. is_separator c ≡ false) (hex_encode b)
All-plain [] = tt
All-plain (b ∷ bs) = (
  (ascii_digit (b / 16 % 16) (omega arith)).1,
  ((ascii_digit (b % 16) (omega arith)).1, All-plain bs),
)

two_each : (b : Bytes) → length (hex_encode b) ≡ 2 * length b
two_each [] = refl
two_each (b ∷ bs) = omega (arith, two_each bs)

pub hex_codec_lem : CodecLaws hex_codec
hex_codec_lem = record {
  decode-encode = back;
  ascii = all-IsAscii;
  plain = All-plain;
  encode_len_lem = two_each;
  not_shorter = λ n. omega arith;
  at_most_twice = λ n. omega arith;
}

solid_digit : (n : ℕ) → n < 16 → is_whitespace (digit n) ≡ false
solid_digit n h = ground arith

pub hex-IsSolid : (b : Bytes) → IsSolid (hex_encode b)
hex-IsSolid [] = tt
hex-IsSolid (b ∷ bs) =
    (solid_digit (b / 16 % 16) (omega arith), (solid_digit (b % 16) (omega arith), hex-IsSolid bs))

value_back : (c : Char) (n : ℕ) → digit_value c ≡ some n → (n < 16) × (digit n ≡ c)
value_back c n h = (ground arith, ground arith)

pair_back :
    (h l : Char) (bs b : Bytes)
    → pair_value h l (some bs) ≡ some b
    → hex_encode b ≡ h ∷ l ∷ hex_encode bs
pair_back h l bs b e = go (digit_value h) (digit_value l) refl refl
  where
    go :
        (m n : Option ℕ)
        → digit_value h ≡ m
        → digit_value l ≡ n
        → hex_encode b ≡ h ∷ l ∷ hex_encode bs
    go none n p q = cc
    go (some i) none p q = cc
    go (some i) (some j) p q =
        let (hi, di) = value_back h i p in
        let (hj, dj) = value_back l j q in
        let same : b ≡ (i * 16 + j) ∷ bs = cc in
        let high : (i * 16 + j) / 16 % 16 ≡ i = omega arith in
        let low : (i * 16 + j) % 16 ≡ j = omega arith in
        ap hex_encode same
        ∙ ap (λ (k : ℕ). digit k ∷ digit ((i * 16 + j) % 16) ∷ hex_encode bs) high
        ∙ ap (λ (k : ℕ). digit i ∷ digit k ∷ hex_encode bs) low
        ∙ ap (λ (c : Char). c ∷ digit j ∷ hex_encode bs) di
        ∙ ap (λ (c : Char). h ∷ c ∷ hex_encode bs) dj

strictly : (t b : Bytes) → hex_decode t ≡ some b → hex_encode b ≡ t
strictly [] b e = let same : [] ≡ b = cc in ap hex_encode (sym same)
strictly (h ∷ []) b e = cc
strictly (h ∷ l ∷ t) b e = go (hex_decode t) refl e (strictly t)
  where
    go :
        (r : Option Bytes)
        → hex_decode t ≡ r
        → pair_value h l r ≡ some b
        → ((bs : Bytes) → hex_decode t ≡ some bs → hex_encode bs ≡ t)
        → hex_encode b ≡ h ∷ l ∷ t
    go none q k rest = cc
    go (some bs) q k rest = pair_back h l bs b k ∙ ap (λ (s : Text). h ∷ l ∷ s) (rest bs q)

pub hex_strict : StrictCodecLaws hex_codec
hex_strict = record {
  encode-decode = λ t b e. as_bytes_ascii (hex_encode b) (all-IsAscii b) ∙ strictly t b e;
}
