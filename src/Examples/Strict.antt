-- ===== src/Examples/Strict.antt =====
-- The sample crates decode strictly and seal deterministically; what that means for a token.
use obsigil_rs.Prelude.{
  ℕ, ◌<◌, ◌≡◌, refl, false, Option, none, some, [], ◌∷◌, arith, any, leb, ok, ||-false,
}
use obsigil_rs.Types.{Text, Encoding, b64, hex}
use obsigil_rs.Utf8.Injective.{IsText}
use obsigil_rs.Crates.Laws.{StrictCodecLaws, ResealLaws}
use obsigil_rs.Encoding.{codec_of}
use mathlib.Core.List.Perm
use obsigil_rs.Token.{Half, Parsed, parse}
use obsigil_rs.Verify.{Verifier, authenticate, mandate}
use obsigil_rs.Aead.{opened}
use obsigil_rs.Verify.Determined.{mandate_unique}
use obsigil_rs.Verify.Reissued.{IsReissued, clauses-IsReissued}
use obsigil_rs.Serial.Rewritten.{IsWritten, from_mandate_plaintext-IsWritten}
use obsigil_rs.Examples.Ciphers.{toy_reseals}
use obsigil_rs.Examples.Codecs.{hex_strict}
use obsigil_rs.Examples.Sample.{
  sample, roles, sample_codecs, sample_aead, sample_verifier, sample_key, sample_fields, sample_exp,
  sample_tid,
}
use obsigil_rs.Examples.Computed.{
  sample_clauses, sample_verified, sample_read, sample_token, sample_plain, sample_half,
  sample_parsed, sample_pairs, sample_parse, sample_strict,
}

sample_codecs_strict : (e : Encoding) → StrictCodecLaws (codec_of sample e)
sample_codecs_strict b64 = hex_strict
sample_codecs_strict hex = hex_strict

sample_reseals : ResealLaws sample
sample_reseals = record {
  siv_reseals = λ key sealed plain h o. toy_reseals key sealed plain o;
  gcm_reseals = λ key nonce sealed plain h k o. toy_reseals key sealed plain o;
}

-- Scalar values, by a computed test.
text_of : (s : Text) → any (λ c. leb 0x110000 c) s ≡ false → IsText s
text_of [] h = tt
text_of (c ∷ s) h =
    let (low, rest) = ||-false (leb 0x110000 c) (any (λ d. leb 0x110000 d) s) h in
    (below c low, text_of s rest)
  where
    below : (c : ℕ) → leb 0x110000 c ≡ false → c < 0x110000
    below c h = ground arith

clauses-IsReissued_example : IsReissued sample roles sample_verifier sample_token sample_clauses
clauses-IsReissued_example =
    clauses-IsReissued sample roles sample_codecs sample_codecs_strict sample_aead sample_reseals
      none sample_verifier sample_token sample_clauses (text_of sample_token refl)
      (refl, (refl, tt)) sample_verified

from_mandate_plaintext-IsWritten_example :
    IsWritten sample roles sample_plain sample_fields sample_exp sample_tid
from_mandate_plaintext-IsWritten_example =
    from_mandate_plaintext-IsWritten sample roles sample_plain sample_fields sample_exp sample_tid
      sample_read refl refl

-- A verifier with the issuer's key only.
abbrev single : Verifier
single = record sample_verifier { keys = sample_key ∷ [] }

-- The mandate half on its own, as it is parsed.
abbrev half_parsed : Parsed
half_parsed = record sample_parsed { manifest = none }

abbrev half_of : Option Half → Half
half_of none = record { alg_code = 0; text = [] }
half_of (some h) = h

single_opens : authenticate sample single sample_token ≡ ok sample_plain
unfolding authenticate parse obsigil_rs.Encoding.decode obsigil_rs.Utf8.as_bytes
    obsigil_rs.Aead.opened
single_opens = refl

half_opens : authenticate sample single sample_half ≡ ok sample_plain
unfolding authenticate parse obsigil_rs.Encoding.decode obsigil_rs.Utf8.as_bytes
    obsigil_rs.Aead.opened
half_opens = refl

half_parse : parse sample_half ≡ ok half_parsed
unfolding parse
half_parse = refl

mandate_unique_example : mandate sample_token ≡ mandate sample_half
mandate_unique_example =
    mandate_unique sample sample_codecs sample_codecs_strict sample_aead sample_reseals single
      sample_key refl refl sample_token sample_half sample_parsed half_parsed
      (half_of sample_parsed.mandate) (half_of sample_parsed.mandate) sample_plain sample_plain
      sample_pairs sample_pairs (text_of sample_token refl) (text_of sample_half refl) single_opens
      half_opens sample_strict sample_strict (Perm.refl sample_pairs) sample_parse half_parse refl
      refl refl refl
