-- ===== src/Examples/Writes.antt =====
-- The properties of minting, at the sample builder.
use obsigil_rs.Prelude.{◌≡◌, ◌↔◌, pos, refl, ◌⊎◌, none, some, [], ◌∷◌, arith, All, ok, err}
use obsigil_rs.Types.{Text, Bytes, gcm_siv}
use obsigil_rs.Errors.{unsupported_alg, non_canonical, chars}
use obsigil_rs.Cbor.{Entries, Pairs, integer, null, map, no_entries, entry}
use obsigil_rs.Crates.{Serde}
use obsigil_rs.Aead.{seal}
use obsigil_rs.Aead.Opens.{IsSealed, seal-opened}
use obsigil_rs.Serial.{canonicalize}
use obsigil_rs.Serial.App.{IsAppValue}
use obsigil_rs.Serial.Write.{assemble, to_mandate_plaintext}
use obsigil_rs.Serial.Read.{from_mandate_plaintext}
use obsigil_rs.Serial.RoundTrip.{from_mandate_plaintext-to_mandate_plaintext}
use obsigil_rs.Serial.Unportable.{mandate_pairs, to_mandate_plaintext-unreadable_iff}
use obsigil_rs.Serial.Unique.{ReadsBack}
use obsigil_rs.Serial.Assemble.{IsPayload}
use obsigil_rs.Mint.Refusals.{IsMinted, mint-IsMinted}
use obsigil_rs.Mint.EndToEnd.{plaintext, value_of_plaintext}
use obsigil_rs.Types.IssuedAt.{IsByte}
use obsigil_rs.Examples.Ciphers.{octets_of}
use obsigil_rs.Examples.Sample.{
  sample, sample_cbor, sample_aead, role_entries, roles, sample_key, sample_tid, sample_exp,
  sample_builder, sample_fields,
}
use obsigil_rs.Examples.Computed.{sample_token, sample_plain, sample-mint}

pub sample_app : IsAppValue sample roles (chars "admin") (role_entries (chars "admin"))
unfolding canonicalize obsigil_rs.Serial.contains_nan obsigil_rs.Serial.has_invalid_map_key
    obsigil_rs.Sort.sort_by_cached_key obsigil_rs.Sort.insert obsigil_rs.Sort.leb_bytes
sample_app = record {
  serialized = refl;
  keys = (refl, tt);
  no_nan = refl;
  portable = refl;
  distinct = (tt, tt);
  deserialized = refl;
}

-- What the sample issuer seals.
abbrev pub written : Bytes
written = plaintext sample roles sample_tid sample_builder sample_exp (role_entries (chars "admin"))

written_eq : written ≡ sample_plain
unfolding assemble canonicalize obsigil_rs.Sort.sort_by_cached_key obsigil_rs.Sort.insert
    obsigil_rs.Sort.leb_bytes
written_eq = refl

pub written_reads :
    sample.from_reader written
    ≡ some (
        value_of_plaintext sample roles sample_tid sample_builder sample_exp
          (role_entries (chars "admin")))
unfolding assemble canonicalize obsigil_rs.Sort.sort_by_cached_key obsigil_rs.Sort.insert
    obsigil_rs.Sort.leb_bytes
written_reads = refl

from_mandate_plaintext-to_mandate_plaintext_example :
    (to_mandate_plaintext sample roles sample_exp sample_tid none
        (some (chars "api" ∷ []))
        (some (chars "ann"))
        (chars "admin")
      ≡ ok written)
    × (from_mandate_plaintext sample roles written ≡ ok sample_fields)
from_mandate_plaintext-to_mandate_plaintext_example =
    from_mandate_plaintext-to_mandate_plaintext sample sample_exp sample_tid none
      (some (chars "api" ∷ [])) (some (chars "ann")) roles (chars "admin")
      (role_entries (chars "admin")) sample_cbor sample_app refl refl written_reads

pub written_bytes : All IsByte written
written_bytes = rw written_eq (octets_of sample_plain refl)

mint-IsMinted_example : IsMinted sample roles sample_tid sample_builder sample_token
mint-IsMinted_example =
    mint-IsMinted sample roles sample_tid sample_builder sample_token sample-mint

seal-opened_example :
    (seal sample (5 ∷ []) sample_key.bytes gcm_siv ≡ err (unsupported_alg gcm_siv))
    ⊎ ((sealed : Bytes) × (seal sample (5 ∷ []) sample_key.bytes gcm_siv ≡ ok sealed)
        × IsSealed sample (5 ∷ []) sample_key.bytes gcm_siv sealed)
seal-opened_example =
    seal-opened sample (5 ∷ []) sample_key.bytes gcm_siv sample_aead refl (omega arith, tt)

abbrev twice_entries : Entries
twice_entries = entry (integer (pos 0)) null (entry (integer (pos 0)) null no_entries)

-- An application whose value has a key twice.
abbrev twice : Serde Text
twice = record { serialized = λ _. ok (map twice_entries); deserialized = λ _. none }

abbrev twice_pairs : Pairs
twice_pairs =
    mandate_pairs sample twice (chars "") twice_entries sample_exp sample_tid none none none

to_mandate_plaintext-unreadable_iff_example :
    (to_mandate_plaintext sample twice sample_exp sample_tid none none none (chars "")
      ≡ ok (assemble sample twice_pairs))
    × ((from_mandate_plaintext sample twice (assemble sample twice_pairs) ≡ err non_canonical)
        ↔ (¬ IsPayload sample twice_pairs))
unfolding obsigil_rs.Serial.is_negative_int obsigil_rs.Serial.contains_nan
to_mandate_plaintext-unreadable_iff_example =
    to_mandate_plaintext-unreadable_iff sample twice (chars "") twice_entries sample_exp sample_tid
      none none none refl refl refl twice_reads
  where
    twice_reads : ReadsBack sample twice_pairs
    twice_reads =
        unfold assemble canonicalize obsigil_rs.Sort.sort_by_cached_key obsigil_rs.Sort.insert
          obsigil_rs.Sort.leb_bytes in
        refl
