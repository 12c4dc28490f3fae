-- ===== src/Verify.antt =====
-- obsigil/src/verify.rs: the verifier and the keyless reads.
use obsigil_rs.Prelude.{
  ℕ, ◌+◌, ◌-◌, ◌*◌, ◌^◌, Bool, true, false, not, ◌||◌, Option, none, some, List, [], ◌∷◌, ◌++◌, ltb,
  leb, ◌==◌, if◌then◌else◌, is_empty, length, ℤ, pos, as_i64, leb_ℤ, saturating_add, Result, ok,
  err, panic, ok_or, map_err, reject_if, ◌>>=◌, ◌>>◌, Maybe, nothing, lift_option, drop_error,
}
pub mod Accepts
pub mod Forward
pub mod Display
pub mod Trial
pub mod Resealed
pub mod Determined
pub mod Reissued
pub mod Ring
pub mod Total
pub mod Window
pub mod Access
pub mod Audience
pub mod Failed
pub mod Laxer
pub mod Setup
pub mod Deadline
pub mod Unopened
pub mod Reasons
pub mod Fails
pub mod Keyless
use mathlib.Core.Option.{get_or}
use obsigil_rs.Types.{Text, Bytes, NumericDate, Alg, from_code, manifest_key}
use obsigil_rs.Errors.{
  Reason, malformed, unsupported, auth_failed, empty_mandate, bad_tid, missing_clause, expired,
  audience_mismatch, Error, error_new,
}
use obsigil_rs.Token.{str_len, Half, Parsed, parse}
use obsigil_rs.Utf8.{as_bytes}
use obsigil_rs.Crates.{Crates, Serde}
use obsigil_rs.Encoding.{decode}
use obsigil_rs.Aead.{opened}
use obsigil_rs.Key.{MandateKey}
use obsigil_rs.Reserved.{Uuid, MandateFields, Clauses, Claims}
use obsigil_rs.Serial.Read.{from_mandate_plaintext, from_manifest_plaintext}

abbrev pub min_half_bytes : ℕ
min_half_bytes = 17

abbrev pub max_leeway : ℕ
max_leeway = 60

abbrev pub default_max_decoded_len : ℕ
default_max_decoded_len = 64 * 1024

pub record Verifier : Type 0 where
  pub keys : List MandateKey
  pub audience : Option Text
  pub leeway : NumericDate
  pub now : Option NumericDate
  pub max_decoded_len : ℕ

-- `Verifier::new`
abbrev pub verifier_new : Verifier
verifier_new = record {
  keys = [];
  audience = none;
  leeway = pos 0;
  now = none;
  max_decoded_len = default_max_decoded_len;
}

abbrev pub with_key : Verifier → MandateKey → Verifier
with_key v k = record v { keys = v.keys ++ k ∷ [] }

abbrev pub with_keys : Verifier → List MandateKey → Verifier
with_keys v ks = record v { keys = v.keys ++ ks }

abbrev pub with_audience : Verifier → Text → Verifier
with_audience v id = record v { audience = some id }

-- The duration in whole seconds, a u64; the minimum is at most 60, so the cast to i64 keeps it.
abbrev pub with_leeway : Verifier → ℕ → Verifier
with_leeway v secs = record v { leeway = pos (if ltb secs max_leeway then secs else max_leeway) }

abbrev pub with_now : Verifier → NumericDate → Verifier
with_now v now = record v { now = some now }

abbrev pub with_max_decoded_len : Verifier → ℕ → Verifier
with_max_decoded_len v max = record v { max_decoded_len = max }

-- `usize` has 64 bits.
abbrev pub usize_max : ℕ
usize_max = 2 ^ 64 - 1

abbrev pub at_most_usize : ℕ → ℕ
at_most_usize n = if ltb n usize_max then n else usize_max

-- `max.saturating_mul(2).saturating_add(8)`
abbrev pub text_limit : ℕ → ℕ
text_limit max = at_most_usize (at_most_usize (max * 2) + 8)

-- Whole seconds since the epoch, a u64; `none` is a clock that stands before it.
abbrev pub now_unix : Option ℕ → NumericDate
now_unix none = pos 0
now_unix (some secs) = as_i64 secs

module _ (x : Crates) where
  pub aud_loop : Text → List Text → Bool → Bool
  aud_loop me [] hit = hit
  aud_loop me (a ∷ aud) hit = aud_loop me aud (hit || x.ct_eq (as_bytes a) (as_bytes me))

  unfoldable pub aud_contains : List Text → Text → Bool
  unfolding aud_loop
  aud_contains aud me = aud_loop me aud false

  -- `find_map` over the candidate keys: the first that opens the half
  unfoldable pub trial : Bytes → Alg → List MandateKey → Maybe Bytes
  trial sealed alg [] = nothing
  trial sealed alg (k ∷ ks) = elim (opened x sealed k.bytes alg) [
    | ok plain ↦ ok plain
    | err _ ↦ trial sealed alg ks
    | panic ↦ panic
  ]

  unfoldable pub authenticate : Verifier → Text → Result Reason Bytes
  unfolding trial
  authenticate v token = do
    parsed ← map_err (λ _. malformed) (parse token)
    half ← ok_or parsed.mandate empty_mandate
    alg ← ok_or (from_code half.alg_code) unsupported
    reject_if (ltb (text_limit v.max_decoded_len) (str_len half.text)) malformed
    sealed ← ok_or (decode x half.text parsed.encoding) malformed
    reject_if (ltb (length sealed) min_half_bytes || ltb v.max_decoded_len (length sealed))
        malformed
    map_err (λ _. auth_failed) (trial sealed alg v.keys)

  -- `tid.get_version_num() != 7 || tid.get_variant() != RFC4122`
  abbrev pub not_uuid_v7 : Uuid → Bool
  not_uuid_v7 tid = not (x.get_version_num tid == 7) || not (x.is_rfc4122 tid)

  -- The check of `aud`, where the clause is there.
  unfoldable pub check_aud : Verifier → Option (List Text) → Result Reason (Unit {0})
  unfolding aud_contains
  check_aud v none = ok tt
  check_aud v (some aud) = do
    reject_if (is_empty aud) audience_mismatch
    me ← ok_or v.audience audience_mismatch
    reject_if (not (aud_contains aud me)) audience_mismatch

  module _ {T : Type 0} (s : Serde T) where
    unfoldable pub authenticate_and_decode : Verifier → Text → Result Reason (MandateFields T)
    authenticate_and_decode v token = do
      plain ← authenticate v token
      from_mandate_plaintext x s plain

    -- `clock` is the reading of the system clock that `now_unix` uses.
    unfoldable pub clauses_inner : Option ℕ → Verifier → Text → Result Reason (Clauses T)
    unfolding authenticate_and_decode check_aud
    clauses_inner clock v token = do
      fields ← authenticate_and_decode v token
      tid ← ok_or fields.tid bad_tid
      reject_if (not_uuid_v7 tid) bad_tid
      exp ← ok_or fields.exp missing_clause
      let now = get_or v.now (now_unix clock)
      reject_if (leb_ℤ (saturating_add exp v.leeway) now) expired
      check_aud v fields.aud
      ok (record { inner = fields })

    unfoldable pub clauses_unchecked_inner : Verifier → Text → Result Reason (Clauses T)
    unfolding authenticate_and_decode
    clauses_unchecked_inner v token = do
      fields ← authenticate_and_decode v token
      tid ← ok_or fields.tid bad_tid
      exp ← ok_or fields.exp missing_clause
      ok (record { inner = fields })

    unfoldable pub clauses : Option ℕ → Verifier → Text → Result Error (Clauses T)
    unfolding clauses_inner
    clauses clock v token = map_err error_new (clauses_inner clock v token)

    unfoldable pub clauses_unchecked : Verifier → Text → Result Error (Clauses T)
    unfolding clauses_unchecked_inner
    clauses_unchecked v token = map_err error_new (clauses_unchecked_inner v token)

  unfoldable pub mandate_plaintext : Verifier → Text → Result Error Bytes
  unfolding authenticate
  mandate_plaintext v token = map_err error_new (authenticate v token)

  -- The keyless reads.
  unfoldable pub manifest_plaintext : Text → Maybe Bytes
  manifest_plaintext token = do
    parsed ← drop_error (parse token)
    half ← lift_option parsed.manifest
    alg ← lift_option (from_code half.alg_code)
    reject_if (ltb (text_limit default_max_decoded_len) (str_len half.text)) tt
    sealed ← lift_option (decode x half.text parsed.encoding)
    reject_if (ltb (length sealed) min_half_bytes || ltb default_max_decoded_len (length sealed)) tt
    opened x sealed manifest_key alg

  unfoldable pub claims : {T : Type 0} → Serde T → Text → Maybe (Claims T)
  unfolding manifest_plaintext
  claims s token = do
    plain ← manifest_plaintext token
    fields ← from_manifest_plaintext x s plain
    ok (record { inner = fields })

-- The manifest half as a token of its own, `manifest0.`
unfoldable pub manifest : Text → Maybe Text
manifest token = do
  parsed ← drop_error (parse token)
  half ← lift_option parsed.manifest
  ok (half.text ++ half.alg_code ∷ parsed.separator ∷ [])

-- The mandate half as a token of its own, `.0mandate`
unfoldable pub mandate : Text → Maybe Text
mandate token = do
  parsed ← drop_error (parse token)
  half ← lift_option parsed.mandate
  ok (parsed.separator ∷ parsed.mandate_part)

unfoldable pub authorization_header : Text → Text → Maybe Text
unfolding mandate
authorization_header token scheme = do half ← mandate token; ok (scheme ++ b' ' ∷ half)
