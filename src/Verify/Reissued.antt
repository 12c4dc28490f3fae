-- ===== src/Verify/Reissued.antt =====
-- A token that verify.rs accepts carries the mandate that mint.rs writes for its fields.
use obsigil_rs.Prelude.{ℕ, ◌≡◌, Option, All, some, length, ok, >>=-eq-ok}
use obsigil_rs.Types.{Text, Bytes, NumericDate, Encoding}
use obsigil_rs.Utf8.Injective.{IsText}
use obsigil_rs.Crates.{Crates, Serde}
use obsigil_rs.Crates.Laws.{CodecLaws, StrictCodecLaws, AeadLaws, ResealLaws}
use obsigil_rs.Encoding.{codec_of}
use obsigil_rs.Reserved.{Uuid, Clauses}
use obsigil_rs.Serial.Rewritten.{IsWritten, from_mandate_plaintext-IsWritten}
use obsigil_rs.Verify.{Verifier, authenticate, authenticate_and_decode, clauses}
use obsigil_rs.Verify.Accepts.{clauses-eq-ok_iff}
use obsigil_rs.Verify.Resealed.{IsResealed, authenticate-IsResealed}

module _ (x : Crates) {T : Type 0} (s : Serde T) where
  -- The plaintext of an accepted token is what its fields are written to, and its mandate half what
  -- the plaintext is sealed to under a key of the ring.
  pub record IsReissued (v : Verifier) (token : Text) (c : Clauses T) : Type 0 where
    pub exp : NumericDate
    pub has_exp : c.inner.exp ≡ some exp
    pub tid : Uuid
    pub has_tid : c.inner.tid ≡ some tid
    pub plain : Bytes
    pub written : IsWritten x s plain c.inner exp tid
    pub resealed : IsResealed x v token plain

  module _ (laws : (e : Encoding) → CodecLaws (codec_of x e))
      (strict : (e : Encoding) → StrictCodecLaws (codec_of x e)) (aead : AeadLaws x)
      (reseals : ResealLaws x) where
    -- A token that a verifier accepts carries the mandate that an issuer writes for it: the
    -- accepted fields, with an `exp` and a `tid`, and application entries that serde reads as the
    -- application value are written to the plaintext that opened, and the mandate half is,
    -- character for character, the algorithm code and the encoded bytes to which that plaintext is
    -- sealed under one of the verifier's keys, each of 64 bytes, if the crates decode strictly and
    -- seal deterministically and keep their laws; the token consists of Unicode scalar values.
    pub clauses-IsReissued :
        (clock : Option ℕ) (v : Verifier) (token : Text) (c : Clauses T)
        → IsText token
        → All (λ k. length k.bytes ≡ 64) v.keys
        → clauses x s clock v token ≡ ok c
        → IsReissued v token c
    unfolding authenticate_and_decode
    clauses-IsReissued clock v token c t long h =
        let a = (clauses-eq-ok_iff x s clock v token c).0 h in
        let (plain, opens, reads) = >>=-eq-ok (authenticate x v token) _ a.authentic in
        record {
          exp = a.exp;
          has_exp = a.has_exp;
          tid = a.tid;
          has_tid = a.has_tid;
          plain = plain;
          written =
              from_mandate_plaintext-IsWritten x s plain c.inner a.exp a.tid reads a.has_exp
                a.has_tid;
          resealed = authenticate-IsResealed x laws strict aead reseals v token plain t long opens;
        }
