-- ===== src/Tests/Tables.antt =====
-- The unit tests of obsigil/src/types.rs.
use obsigil_rs.Prelude.{◌≡◌, refl, [], ◌∷◌, ◌++◌, pos}
use obsigil_rs.Types.{hex, manifest_key, tid_issued_at}
use obsigil_rs.Errors.{chars}
use obsigil_rs.Crates.{Crates}
use obsigil_rs.Encoding.{encode_into}
use obsigil_rs.Tests.Fixtures.{crates}

abbrev ManifestKeyMatchesSpecHex : Crates → Type 0
ManifestKeyMatchesSpecHex x =
    encode_into x manifest_key hex []
    ≡ chars "381284633d02ea5f35df8596b5cc4218310060468e8b465455a415174ea6e966"
      ++ chars "a9f48eec4ba446ddfc8b78587895356f45a75a1ab7419454dd9f7aa8a95dbdd5"

manifest_key_matches_spec_hex : ManifestKeyMatchesSpecHex crates
unfolding encode_into
manifest_key_matches_spec_hex = refl

abbrev TidIssuedAtReadsThe48BitMsField : Type 0
TidIssuedAtReadsThe48BitMsField =
    tid_issued_at (
      0x00 ∷ 0x00 ∷ 0x00 ∷ 0x01 ∷ 0x86 ∷ 0xa0 ∷ 0x70 ∷ 0x00 ∷ 0x80 ∷ 0x00 ∷ 0x00 ∷ 0x00 ∷ 0x00
      ∷ 0x00 ∷ 0x00 ∷ 0x00 ∷ [])
    ≡ pos 100

tid_issued_at_reads_the_48_bit_ms_field : TidIssuedAtReadsThe48BitMsField
unfolding tid_issued_at
tid_issued_at_reads_the_48_bit_ms_field = refl
