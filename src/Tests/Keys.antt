-- ===== src/Tests/Keys.antt =====
-- The unit tests of obsigil/src/key.rs.
use obsigil_rs.Prelude.{◌≡◌, refl, ◌&&◌, ◌||◌, not, leb, err, any, false}
use obsigil_rs.Types.{Text, Bytes, manifest_key}
use obsigil_rs.Errors.{is_manifest_key, all_zero, bad_hex_encoding, bad_hex_length, chars}
use obsigil_rs.Token.{str_len}
use obsigil_rs.Crates.{Crates}
use obsigil_rs.Key.{from_hex, generate_key}
use obsigil_rs.Examples.Sample.{counting}
use obsigil_rs.Tests.Fixtures.{Unwraps, repeat, crates}

abbrev FromHexAcceptsCanonicalLowercase : Crates → Type 0
FromHexAcceptsCanonicalLowercase x = Unwraps (from_hex x (repeat (chars "2a") 64)) (λ _. Unit {0})

from_hex_accepts_canonical_lowercase : FromHexAcceptsCanonicalLowercase crates
unfolding from_hex obsigil_rs.Encoding.decode obsigil_rs.Utf8.as_bytes
from_hex_accepts_canonical_lowercase = tt

abbrev FromHexRejectsUppercaseAndBadLength : Crates → Type 0
FromHexRejectsUppercaseAndBadLength x =
    (from_hex x (repeat (chars "2A") 64) ≡ err bad_hex_encoding)
    × (from_hex x (chars "2a2a2a") ≡ err (bad_hex_length 3))
    × (from_hex x (chars "2a2") ≡ err bad_hex_encoding)

from_hex_rejects_uppercase_and_bad_length : FromHexRejectsUppercaseAndBadLength crates
unfolding from_hex obsigil_rs.Encoding.decode obsigil_rs.Utf8.as_bytes
from_hex_rejects_uppercase_and_bad_length = (refl, refl, refl)

abbrev FromHexRejectsManifestAndZero : Crates → Type 0
FromHexRejectsManifestAndZero x =
    (from_hex x (x.hexlower.encode manifest_key) ≡ err is_manifest_key)
    × (from_hex x (repeat (chars "00") 64) ≡ err all_zero)

from_hex_rejects_manifest_and_zero : FromHexRejectsManifestAndZero crates
unfolding from_hex obsigil_rs.Encoding.decode obsigil_rs.Utf8.as_bytes
from_hex_rejects_manifest_and_zero = (refl, refl)

-- `random` is what the platform's generator returned.
abbrev GenerateKeyIsCanonicalHexThatRoundTrips : Crates → Bytes → Type 0
GenerateKeyIsCanonicalHexThatRoundTrips x random =
    let written : Text = generate_key x random in
    (str_len written ≡ 128)
    × (any (λ c. not (leb b'0' c && leb c b'9' || leb b'a' c && leb c b'f')) written ≡ false)
    × Unwraps (from_hex x written) (λ _. Unit {0})

generate_key_is_canonical_hex_that_round_trips :
    GenerateKeyIsCanonicalHexThatRoundTrips crates (counting 0 64)
unfolding from_hex generate_key str_len obsigil_rs.Encoding.decode obsigil_rs.Utf8.as_bytes
generate_key_is_canonical_hex_that_round_trips = (refl, refl, tt)
