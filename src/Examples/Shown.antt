-- ===== src/Examples/Shown.antt =====
-- The properties of the manifest and of the builder, at a builder that has a manifest.
use Prim.Native.Nat.{min}
use obsigil_rs.Prelude.{◌+◌, ◌-◌, ◌^◌, ◌≡◌, refl, none, some, arith, All, length, pos, ok}
use obsigil_rs.Types.{Text, Bytes}
use obsigil_rs.Types.IssuedAt.{IsByte}
use obsigil_rs.Errors.{chars}
use obsigil_rs.Cbor.{map, from_list}
use obsigil_rs.Serial.{canonicalize}
use obsigil_rs.Serial.Write.{assemble, to_manifest_plaintext}
use obsigil_rs.Serial.Read.{from_manifest_plaintext}
use obsigil_rs.Serial.Manifest.{claim_entries, from_manifest_plaintext-to_manifest_plaintext}
use obsigil_rs.Mint.{MintBuilder, mint, expires_in}
use obsigil_rs.Mint.EndToEnd.{IsMintable}
use obsigil_rs.Mint.Shown.{claims-mint}
use obsigil_rs.Mint.Expiry.{expires_in-exp}
use obsigil_rs.Verify.{claims}
use obsigil_rs.Examples.Ciphers.{octets_of}
use obsigil_rs.Examples.Sample.{
  sample, sample_codecs, sample_cbor, sample_aead, role_entries, roles, sample_tid, sample_exp,
  sample_builder,
}
use obsigil_rs.Examples.Writes.{sample_app, written_reads, written_bytes}

abbrev shown_builder : MintBuilder Text
shown_builder = record sample_builder {
  manifest_plain = some (to_manifest_plaintext sample roles (chars "acme") (chars "admin"));
}

abbrev shown : Bytes
shown =
    assemble sample
      (claim_entries sample roles (chars "admin") (role_entries (chars "admin")) (chars "acme"))

shown_reads :
    sample.from_reader shown
    ≡ some (
        canonicalize sample (
          map (
            from_list (
              claim_entries sample roles
                (chars "admin")
                (role_entries (chars "admin"))
                (chars "acme")))))
unfolding assemble canonicalize obsigil_rs.Sort.sort_by_cached_key obsigil_rs.Sort.insert
    obsigil_rs.Sort.leb_bytes
shown_reads = refl

shown_octets : All IsByte shown
unfolding assemble canonicalize obsigil_rs.Sort.sort_by_cached_key obsigil_rs.Sort.insert
    obsigil_rs.Sort.leb_bytes
shown_octets = octets_of shown refl

length-shown : length shown ≡ 54
unfolding assemble canonicalize obsigil_rs.Sort.sort_by_cached_key obsigil_rs.Sort.insert
    obsigil_rs.Sort.leb_bytes
length-shown = refl

shown_written : to_manifest_plaintext sample roles (chars "acme") (chars "admin") ≡ ok shown
unfolding to_manifest_plaintext assemble obsigil_rs.Serial.is_negative_int
    obsigil_rs.Serial.contains_nan
shown_written = refl

from_manifest_plaintext-to_manifest_plaintext_example :
    (to_manifest_plaintext sample roles (chars "acme") (chars "admin") ≡ ok shown)
    × (from_manifest_plaintext sample roles shown
        ≡ ok (record { iss = chars "acme"; exp = none; app = chars "admin" }))
from_manifest_plaintext-to_manifest_plaintext_example =
    from_manifest_plaintext-to_manifest_plaintext sample roles (chars "admin")
      (role_entries (chars "admin")) (chars "acme") sample_cbor sample_app shown_reads

shown-IsMintable :
    IsMintable sample roles sample_tid shown_builder sample_exp (role_entries (chars "admin"))
shown-IsMintable = record {
  has_exp = refl;
  in_range = refl;
  audience = refl;
  version = refl;
  variant = refl;
  octets = refl;
  key = refl;
  app = sample_app;
  manifest = (shown, shown_written, shown_octets);
  mandate_enabled = tt;
  manifest_enabled = refl;
}

claims-mint_example :
    (token : Text) × (mint sample roles sample_tid shown_builder ≡ ok token)
    × (claims sample roles token
        ≡ ok (record { inner = record { iss = chars "acme"; exp = none; app = chars "admin" } }))
claims-mint_example =
    claims-mint sample sample_codecs roles sample_aead sample_cbor sample_tid shown_builder
      sample_exp (role_entries (chars "admin")) shown-IsMintable written_reads written_bytes roles
      (chars "admin") (role_entries (chars "admin")) (chars "acme") refl sample_app shown_reads
      shown_octets (omega (arith, length-shown))

-- The sum of time and lifetime does not fit i64.
expires_in-exp_example :
    (expires_in sample_builder (some 1704070000) (2 ^ 63 - 1)).exp
    ≡ some (pos (min (1704070000 + (2 ^ 63 - 1)) (2 ^ 63 - 1)))
expires_in-exp_example = expires_in-exp sample_builder 1704070000 (2 ^ 63 - 1) (omega arith)
