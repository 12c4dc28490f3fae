-- ===== src/Examples/Refusals.antt =====
-- The properties on refusals and on built verifiers, at the sample token.
use obsigil_rs.Prelude.{
  ◌≡◌, ◌≢◌, refl, none, some, [], ◌∷◌, pos, negsuc, ◌+ℤ◌, ◌≤ℤ◌, ◌<ℤ◌, ok, err, panic,
}
use mathlib.Core.List.Perm
use mathlib.Core.List.{Perm}
use obsigil_rs.Types.{NumericDate}
use obsigil_rs.Errors.{chars, expired, bad_type, error_new}
use obsigil_rs.Cbor.{Pairs, integer, text, null}
use obsigil_rs.Key.{from_bytes}
use obsigil_rs.Serial.{canonicalize}
use obsigil_rs.Serial.Write.{assemble}
use obsigil_rs.Serial.Read.{strict_map, from_mandate_plaintext}
use obsigil_rs.Serial.Assemble.{canonical_pairs, IsPayload}
use obsigil_rs.Serial.Reasons.{Unreadable, from_mandate_plaintext-eq-err_iff}
use obsigil_rs.Serial.Unique.{ReadsBack, assemble-eq_iff, strict_map_unique}
use obsigil_rs.Verify.{
  Verifier, verifier_new, with_keys, with_audience, with_leeway, with_now, clauses,
}
use obsigil_rs.Verify.Setup as Setup
use obsigil_rs.Verify.Setup.{
  IsMade, given, IsBuilt, clauses-ne-panic_of_IsBuilt, clauses_window_of_IsBuilt,
}
use obsigil_rs.Verify.Deadline.{clauses_expire}
use obsigil_rs.Examples.Sample.{
  sample, sample_aead, roles, sample_key, other_key, sample_verifier, sample_fields,
}
use obsigil_rs.Examples.Computed.{sample_token, sample_clauses, sample_verified}

-- The sample verifier, 40 seconds after the expiry and with a leeway of 30.
abbrev late : Verifier
late = record sample_verifier { now = some (pos 1704070840) }

-- A mandate whose `exp` is a text.
abbrev dated : Pairs
dated = (integer (negsuc 1), text (chars "soon")) ∷ []

dated_refused : from_mandate_plaintext sample roles (assemble sample dated) ≡ err bad_type
unfolding assemble from_mandate_plaintext obsigil_rs.Serial.contains_nan
    obsigil_rs.Serial.has_invalid_map_key canonicalize obsigil_rs.Sort.sort_by_cached_key
    obsigil_rs.Sort.insert obsigil_rs.Sort.leb_bytes obsigil_rs.Serial.classify
    obsigil_rs.Serial.Read.read_int
dated_refused = refl

from_mandate_plaintext-eq-err_iff_example : Unreadable sample roles (assemble sample dated) bad_type
from_mandate_plaintext-eq-err_iff_example =
    (from_mandate_plaintext-eq-err_iff sample roles (assemble sample dated) bad_type).0
      dated_refused

given_sample : IsMade sample sample_key
unfolding from_bytes
given_sample = given sample_key.bytes refl refl

given_other : IsMade sample other_key
unfolding from_bytes
given_other = given other_key.bytes refl refl

-- The sample verifier, as the builder methods make it.
built : IsBuilt sample sample_verifier
built = Setup.now (pos 1704070000) (
    Setup.leeway 30 (
      Setup.audience (chars "api")
        (Setup.keys (other_key ∷ sample_key ∷ []) Setup.new (given_other, (given_sample, tt)))))

clauses-ne-panic_of_IsBuilt_example :
    clauses sample roles none sample_verifier (chars "zz9~0") ≢ panic
clauses-ne-panic_of_IsBuilt_example =
    clauses-ne-panic_of_IsBuilt sample sample_aead roles none sample_verifier (chars "zz9~0") built

clauses_window_of_IsBuilt_example :
    (exp : NumericDate) × (sample_fields.exp ≡ some exp) × (pos 1704070000 <ℤ exp +ℤ pos 60)
clauses_window_of_IsBuilt_example =
    clauses_window_of_IsBuilt sample roles none sample_verifier sample_token sample_clauses built
      sample_verified

clauses_expire_example :
    (exp : NumericDate) × (sample_fields.exp ≡ some exp)
    × ((t : NumericDate)
        → t <ℤ exp
        → clauses sample roles none (with_now sample_verifier t) sample_token ≡ ok sample_clauses)
    × ((t : NumericDate)
        → exp +ℤ pos 60 ≤ℤ t
        → clauses sample roles none (with_now sample_verifier t) sample_token
          ≡ err (error_new expired))
clauses_expire_example =
    clauses_expire sample roles none sample_verifier sample_token sample_clauses built
      sample_verified

-- Two entries, in both orders.
abbrev backward : Pairs
backward = (integer (pos 1), null) ∷ (integer (pos 0), null) ∷ []

abbrev forward : Pairs
forward = (integer (pos 0), null) ∷ (integer (pos 1), null) ∷ []

backward-IsPayload : IsPayload sample backward
backward-IsPayload = record {
  no_nan = (unfold obsigil_rs.Serial.contains_nan in refl);
  portable = (unfold obsigil_rs.Serial.has_invalid_map_key in refl);
  distinct = (unfold canonicalize in (((λ q. cc), tt), (tt, tt)));
}

backward_reads : ReadsBack sample backward
unfolding assemble canonicalize obsigil_rs.Sort.sort_by_cached_key obsigil_rs.Sort.insert
    obsigil_rs.Sort.leb_bytes
backward_reads = refl

forward_reads : ReadsBack sample forward
unfolding assemble canonicalize obsigil_rs.Sort.sort_by_cached_key obsigil_rs.Sort.insert
    obsigil_rs.Sort.leb_bytes
forward_reads = refl

same_form : assemble sample backward ≡ assemble sample forward
unfolding assemble canonicalize obsigil_rs.Sort.sort_by_cached_key obsigil_rs.Sort.insert
    obsigil_rs.Sort.leb_bytes
same_form = refl

assemble-eq_iff_example : Perm (canonical_pairs sample backward) (canonical_pairs sample forward)
assemble-eq_iff_example =
    (assemble-eq_iff sample backward forward backward-IsPayload backward_reads forward_reads).0
      same_form

forward_strict : strict_map sample (assemble sample forward) ≡ ok forward
unfolding assemble strict_map obsigil_rs.Serial.contains_nan obsigil_rs.Serial.has_invalid_map_key
    canonicalize obsigil_rs.Sort.sort_by_cached_key obsigil_rs.Sort.insert obsigil_rs.Sort.leb_bytes
forward_strict = refl

backward_strict : strict_map sample (assemble sample backward) ≡ ok forward
unfolding assemble strict_map obsigil_rs.Serial.contains_nan obsigil_rs.Serial.has_invalid_map_key
    canonicalize obsigil_rs.Sort.sort_by_cached_key obsigil_rs.Sort.insert obsigil_rs.Sort.leb_bytes
backward_strict = refl

strict_map_unique_example : assemble sample forward ≡ assemble sample backward
strict_map_unique_example =
    strict_map_unique sample (assemble sample forward) (assemble sample backward) forward forward
      forward_strict backward_strict (Perm.refl forward)
