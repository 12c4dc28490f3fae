-- ===== src/Verify/Determined.antt =====
-- The fields of an accepted mandate determine its text: verify.rs takes no two texts of one mandate.
use mathlib.Core.List.{Perm}
use obsigil_rs.Prelude.{◌≡◌, sym, ap, ◌∙◌, some, List, [], ◌∷◌, ◌++◌, All, length, ok, ok_injective}
use mathlib.Core.Path.{subst}
use obsigil_rs.Types.{Text, Bytes, Alg, code, from_code, Encoding}
use obsigil_rs.Types.Codes.{from_code-code}
use obsigil_rs.Utf8.Injective.{IsText}
use obsigil_rs.Cbor.{Pairs}
use obsigil_rs.Token.{Half, Parsed, parse}
use obsigil_rs.Token.Accepts.{parse-eq-ok_iff}
use obsigil_rs.Crates.{Crates}
use obsigil_rs.Crates.Laws.{CodecLaws, StrictCodecLaws, AeadLaws, ResealLaws}
use obsigil_rs.Encoding.{codec_of}
use obsigil_rs.Aead.{seal}
use obsigil_rs.Key.{MandateKey}
use obsigil_rs.Mint.Shape.{encoded}
use obsigil_rs.Serial.Read.{strict_map}
use obsigil_rs.Serial.Unique.{strict_map_unique}
use obsigil_rs.Verify.{Verifier, authenticate, mandate}
use obsigil_rs.Verify.Resealed.{mandate-IsText, authenticate-IsResealed}

only_key :
    (before : List MandateKey) (k : MandateKey) (after : List MandateKey) (key : MandateKey)
    → before ++ k ∷ after ≡ key ∷ []
    → k ≡ key
only_key [] k after key h = cc
only_key (b ∷ []) k after key h = cc
only_key (b ∷ c ∷ before) k after key h = cc

code_injective : (a b : Alg) → code a ≡ code b → a ≡ b
code_injective a b h = cc (from_code-code a, from_code-code b, ap from_code h)

module _ (x : Crates) (laws : (e : Encoding) → CodecLaws (codec_of x e))
    (strict : (e : Encoding) → StrictCodecLaws (codec_of x e)) (aead : AeadLaws x)
    (reseals : ResealLaws x) (v : Verifier) (key : MandateKey) (ring : v.keys ≡ key ∷ [])
    (long : length key.bytes ≡ 64) where
  -- The mandate half in terms of the one key.
  record IsWritten (token : Text) (p : Parsed) (h : Half) (plain : Bytes) : Type 0 where
    pub alg : Alg
    pub same_code : code alg ≡ h.alg_code
    pub sealed : Bytes
    pub seals : seal x plain key.bytes alg ≡ ok sealed
    pub part : p.mandate_part ≡ code alg ∷ encoded x sealed p.encoding

  authenticate-IsWritten :
      (token : Text) (p : Parsed) (h : Half) (plain : Bytes)
      → IsText token
      → parse token ≡ ok p
      → p.mandate ≡ some h
      → authenticate x v token ≡ ok plain
      → IsWritten token p h plain
  authenticate-IsWritten token p h plain t e m o =
      let lengths = subst (All (λ k. length k.bytes ≡ 64)) (sym ring) (long, tt) in
      let a = authenticate-IsResealed x laws strict aead reseals v token plain t lengths o in
      let same_key = only_key a.before a.key a.after key (sym a.ring ∙ ring) in
      let same : a.parsed ≡ p = ok_injective (sym a.parses ∙ e) in
      let part : p.mandate_part ≡ code a.alg ∷ encoded x a.sealed p.encoding =
        subst (λ q. q.mandate_part ≡ code a.alg ∷ encoded x a.sealed q.encoding) same a.part in
      let (shown, _) = mandate-IsText token p h t e m in
      record {
        alg = a.alg;
        same_code = cc (part, shown);
        sealed = a.sealed;
        seals = subst (λ k. seal x plain k.bytes a.alg ≡ ok a.sealed) same_key a.seals;
        part = part;
      }

  -- Two tokens that a verifier with one key authenticates, whose plaintexts `strict_map` reads to
  -- the same entries in whatever order, and which have the same encoding and algorithm code, have
  -- the same mandate, character for character, if the crates decode strictly and seal
  -- deterministically and keep their laws; the tokens consist of Unicode scalar values.
  pub mandate_unique :
      (t u : Text) (p q : Parsed) (h k : Half) (plain other : Bytes) (ps qs : Pairs)
      → IsText t
      → IsText u
      → authenticate x v t ≡ ok plain
      → authenticate x v u ≡ ok other
      → strict_map x plain ≡ ok ps
      → strict_map x other ≡ ok qs
      → Perm ps qs
      → parse t ≡ ok p
      → parse u ≡ ok q
      → p.mandate ≡ some h
      → q.mandate ≡ some k
      → p.encoding ≡ q.encoding
      → h.alg_code ≡ k.alg_code
      → mandate t ≡ mandate u
  unfolding mandate
  mandate_unique t u p q h k plain other ps qs ht hu ot ou st su perm pt pu mt mu same_e same_c =
      let a = authenticate-IsWritten t p h plain ht pt mt ot in
      let b = authenticate-IsWritten u q k other hu pu mu ou in
      let same = strict_map_unique x plain other ps qs st su perm in
      let alg = code_injective a.alg b.alg (a.same_code ∙ same_c ∙ sym b.same_code) in
      let sealed : a.sealed ≡ b.sealed = cc (a.seals, b.seals, same, alg) in
      let part : p.mandate_part ≡ q.mandate_part = cc (a.part, b.part, alg, sealed, same_e) in
      let sep : p.separator ≡ q.separator =
        cc ((((parse-eq-ok_iff t p).0 pt).0).sep, (((parse-eq-ok_iff u q).0 pu).0).sep, same_e) in
      rw (pt, pu, mt, mu) (cc (sep, part))
