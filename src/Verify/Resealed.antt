-- ===== src/Verify/Resealed.antt =====
-- What verify.rs authenticates is what the issuer would write: no other text of the half opens.
use obsigil_rs.Prelude.{
  ◌<◌, ◌≡◌, sym, ap, ◌∙◌, some, List, ◌∷◌, ◌++◌, arith, All, All-map, All-right, All-at, length, ok,
}
use mathlib.Core.Path.{subst}
use obsigil_rs.Types.{Char, Text, Bytes, Alg, code, Encoding}
use obsigil_rs.Types.Codes.{code_of_some}
use obsigil_rs.Utf8.{as_bytes}
use obsigil_rs.Utf8.Injective.{IsText, as_bytes_injective}
use obsigil_rs.Token.{Half, Parsed, parse}
use obsigil_rs.Token.Grammar.{render_manifest, render_mandate}
use obsigil_rs.Token.Accepts.{parse-eq-ok_iff}
use obsigil_rs.Crates.{Crates}
use obsigil_rs.Crates.Laws.{CodecLaws, StrictCodecLaws, AeadLaws, ResealLaws}
use obsigil_rs.Encoding.{decode, codec_of}
use obsigil_rs.Aead.{seal}
use obsigil_rs.Aead.Reseals.{seal_of_opened}
use obsigil_rs.Key.{MandateKey}
use obsigil_rs.Mint.Shape.{encoded, encoded_eq, decode_eq}
use obsigil_rs.Verify.{Verifier, authenticate}
use obsigil_rs.Verify.Trial.{authenticate-eq-ok_iff}

-- The text of the mandate half is a text.
pub mandate-IsText :
    (token : Text) (p : Parsed) (h : Half)
    → IsText token
    → parse token ≡ ok p
    → p.mandate ≡ some h
    → (p.mandate_part ≡ h.alg_code ∷ h.text) × IsText h.text
mandate-IsText token p h t e m =
    let (valid, same) = (parse-eq-ok_iff token p).0 e in
    let part : p.mandate_part ≡ h.alg_code ∷ h.text = valid.part ∙ ap render_mandate m in
    let whole = subst IsText same t in
    let behind = All-right (λ c. c < 0x110000) (render_manifest p.manifest) _ whole in
    (part, (subst IsText part behind.1).1)

module _ (x : Crates) where
  -- The mandate half of a token is the sealed plaintext, as an issuer writes it.
  pub record IsResealed (v : Verifier) (token : Text) (plain : Bytes) : Type 0 where
    pub before : List MandateKey
    pub key : MandateKey
    pub after : List MandateKey
    pub ring : v.keys ≡ before ++ key ∷ after
    pub alg : Alg
    pub sealed : Bytes
    pub seals : seal x plain key.bytes alg ≡ ok sealed
    pub parsed : Parsed
    pub parses : parse token ≡ ok parsed
    pub part : parsed.mandate_part ≡ code alg ∷ encoded x sealed parsed.encoding

  module _ (laws : (e : Encoding) → CodecLaws (codec_of x e))
      (strict : (e : Encoding) → StrictCodecLaws (codec_of x e)) (aead : AeadLaws x)
      (reseals : ResealLaws x) where
    encoded_of_decode :
        (t : Text) (b : Bytes) (e : Encoding) → IsText t → decode x t e ≡ some b → t ≡ encoded x b e
    encoded_of_decode t b e h d =
        let c = codec_of x e in
        let same = sym ((strict e).encode-decode (as_bytes t) b (sym (decode_eq x t e) ∙ d)) in
        let ascii = All-map (c.encode b) (λ ch k. omega (arith, k)) ((laws e).ascii b) in
        as_bytes_injective t (c.encode b) h ascii same ∙ sym (encoded_eq x b e)

    -- The mandate half that a verifier authenticates is, character for character, the algorithm
    -- code and the encoded bytes to which the plaintext is sealed under one of the verifier's keys,
    -- each of 64 bytes, if the crates decode strictly and seal deterministically and keep their
    -- laws; the token consists of Unicode scalar values.
    pub authenticate-IsResealed :
        (v : Verifier) (token : Text) (plain : Bytes)
        → IsText token
        → All (λ k. length k.bytes ≡ 64) v.keys
        → authenticate x v token ≡ ok plain
        → IsResealed v token plain
    authenticate-IsResealed v token plain t lengths h =
        let a = (authenticate-eq-ok_iff x v token plain).0 h in
        let f = a.first in
        let long =
          All-at (λ k. length k.bytes ≡ 64) f.before f.key f.after
            (subst (All (λ k. length k.bytes ≡ 64)) f.split lengths) in
        let (part, valid) = mandate-IsText token a.parsed a.half t a.parses a.has_mandate in
        record {
          before = f.before;
          key = f.key;
          after = f.after;
          ring = f.split;
          alg = a.alg;
          sealed = a.sealed;
          seals = seal_of_opened x aead reseals a.sealed f.key.bytes plain a.alg long f.opens;
          parsed = a.parsed;
          parses = a.parses;
          part =
              part
              ∙ ap (λ (c : Char). c ∷ a.half.text) (code_of_some a.half.alg_code a.alg a.has_alg)
              ∙ ap (λ (s : Text). code a.alg ∷ s)
                  (encoded_of_decode a.half.text a.sealed a.parsed.encoding valid a.decodes);
        }
