-- ===== src/Tests/Encodings.antt =====
-- The unit tests of obsigil/src/encoding.rs.
use obsigil_rs.Prelude.{
  ℕ, zero, suc, ◌+◌, ◌*◌, ◌%◌, ◌≡◌, refl, false, ◌||◌, none, some, [], ◌∷◌, ◌==◌, length, any, All,
}
use obsigil_rs.Types.{Text, Bytes, b64, hex}
use obsigil_rs.Errors.{chars}
use obsigil_rs.Token.{str_len}
use obsigil_rs.Crates.{Crates}
use obsigil_rs.Encoding.{encoded_len, encode_into, decode}
use obsigil_rs.Tests.Fixtures.{crates}

-- `(0..n).map(|i| (i * 37 + 11) as u8)`, from `i` on.
abbrev ramp : ℕ → ℕ → Bytes
ramp i zero = []
ramp i (suc n) = (i * 37 + 11) % 256 ∷ ramp (suc i) n

-- The assertions on the bytes of one length.
abbrev RoundTrips : Crates → ℕ → Type 0
RoundTrips x n =
    let bytes : Bytes = ramp 0 n in
    let written : Text = encode_into x bytes b64 [] in
    (str_len written ≡ encoded_len x (length bytes) b64)
    × (any (λ c. c == b'=' || c == b'.' || c == b'~') written ≡ false)
    × (decode x written b64 ≡ some bytes)

abbrev B64RoundTripsAllLengths : Crates → Type 0
B64RoundTripsAllLengths x = All (RoundTrips x) (0 ∷ 1 ∷ 2 ∷ 3 ∷ 4 ∷ 5 ∷ 6 ∷ 7 ∷ 8 ∷ [])

b64_round_trips_all_lengths : B64RoundTripsAllLengths crates
unfolding encode_into encoded_len decode str_len obsigil_rs.Utf8.as_bytes
b64_round_trips_all_lengths = (
  (refl, refl, refl),
  (
    (refl, refl, refl),
    (
      (refl, refl, refl),
      (
        (refl, refl, refl),
        (
          (refl, refl, refl),
          (
            (refl, refl, refl),
            ((refl, refl, refl), ((refl, refl, refl), ((refl, refl, refl), tt))),
          ),
        ),
      ),
    ),
  ),
)

abbrev B64RejectsNonCanonical : Crates → Type 0
B64RejectsNonCanonical x =
    (decode x (chars "AAAAA") b64 ≡ none)
    × (decode x (chars "AA==") b64 ≡ none)
    × (decode x (chars "AB") b64 ≡ none)
    × (decode x (chars "AAB") b64 ≡ none)
    × (decode x (chars "A*BC") b64 ≡ none)
    × (decode x (chars "AA AA") b64 ≡ none)
    × (decode x (chars "AA") b64 ≡ some (0 ∷ []))

b64_rejects_non_canonical : B64RejectsNonCanonical crates
unfolding decode obsigil_rs.Utf8.as_bytes
b64_rejects_non_canonical = (refl, refl, refl, refl, refl, refl, refl)

abbrev HexRoundTripsAndRejects : Crates → Type 0
HexRoundTripsAndRejects x =
    let bytes : Bytes = 0x00 ∷ 0x0f ∷ 0xa9 ∷ 0xff ∷ 0x10 ∷ [] in
    (encode_into x bytes hex [] ≡ chars "000fa9ff10")
    × (decode x (chars "000fa9ff10") hex ≡ some bytes)
    × (decode x (chars "abc") hex ≡ none)
    × (decode x (chars "AB") hex ≡ none)
    × (decode x (chars "zz") hex ≡ none)

hex_round_trips_and_rejects : HexRoundTripsAndRejects crates
unfolding encode_into decode obsigil_rs.Utf8.as_bytes
hex_round_trips_and_rejects = (refl, refl, refl, refl, refl)
