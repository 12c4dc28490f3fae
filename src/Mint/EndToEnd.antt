-- ===== src/Mint/EndToEnd.antt =====
-- A token that mint.rs mints is accepted by verify.rs with the values that it was minted from.
use obsigil_rs.Prelude.{
  ℕ, ◌+◌, ◌^◌, ◌≤◌, ◌<◌, ◌≡◌, refl, true, false, Option, none, some, List, [], ◌∷◌, ◌++◌, arith,
  length, All, ◌<ℤ◌, in_i64, saturating_add, Result, ok, nothing,
}
use mathlib.Core.Option.{get_or}
use obsigil_rs.Types.{Text, Bytes, NumericDate, Alg, Encoding, manifest_key}
use obsigil_rs.Types.IssuedAt.{IsByte}
use obsigil_rs.Errors.{MintError}
use obsigil_rs.Cbor.{Value, Entries, map, from_list}
use obsigil_rs.Crates.{Crates, Serde}
use obsigil_rs.Crates.Laws.{CodecLaws, CborLaws, AeadLaws}
use obsigil_rs.Encoding.{codec_of}
use obsigil_rs.Aead.{opened}
use obsigil_rs.Aead.Opens.{IsSealed, IsEnabled, seal_of_enabled}
use obsigil_rs.Key.{MandateKey}
use obsigil_rs.Reserved.{Uuid, MandateFields}
use obsigil_rs.Serial.{canonicalize}
use obsigil_rs.Serial.App.{IsAppValue}
use obsigil_rs.Serial.Write.{assemble}
use obsigil_rs.Serial.RoundTrip.{all_entries, from_mandate_plaintext-to_mandate_plaintext}
use obsigil_rs.Mint.{Issuer, MintBuilder, is_empty_aud, seal_manifest, assemble_token, mint}
use obsigil_rs.Mint.Shape.{IsFilled, authenticate-assemble_token}
use obsigil_rs.Verify.{Verifier, now_unix, authenticate_and_decode, clauses}
use obsigil_rs.Verify.Accepts.{InAudience, clauses-eq-ok_iff}

-- No manifest was set, or its plaintext was made.
abbrev pub IsReady : Option (Result MintError Bytes) → Type 0
IsReady none = Unit {0}
IsReady (some r) = (plain : Bytes) × (r ≡ ok plain) × All IsByte plain

module _ (x : Crates) {T : Type 0} (s : Serde T) where
  -- A builder that has all that a token needs; `fresh` is the token id that is made if none is set.
  pub record IsMintable (fresh : Uuid) (b : MintBuilder T) (exp : NumericDate) (es : Entries)
      : Type 0 where
    pub has_exp : b.exp ≡ some exp
    pub in_range : in_i64 exp ≡ true
    pub audience : is_empty_aud b.aud ≡ false
    pub version : x.get_version_num (get_or b.tid fresh) ≡ 7
    pub variant : x.is_rfc4122 (get_or b.tid fresh) ≡ true
    pub octets : length (get_or b.tid fresh) ≡ 16
    pub key : length b.issuer.key.bytes ≡ 64
    pub app : IsAppValue x s b.app es
    pub manifest : IsReady b.manifest_plain
    pub mandate_enabled : IsEnabled x b.issuer.mandate_alg
    pub manifest_enabled : IsEnabled x b.issuer.manifest_alg

  -- The plaintext of the mandate half.
  abbrev pub plaintext : Uuid → MintBuilder T → NumericDate → Entries → Bytes
  plaintext fresh b exp es =
      assemble x (all_entries x exp (get_or b.tid fresh) b.iss b.aud b.sub s b.app es)

  abbrev pub value_of_plaintext : Uuid → MintBuilder T → NumericDate → Entries → Value
  value_of_plaintext fresh b exp es =
      canonicalize x
        (map (from_list (all_entries x exp (get_or b.tid fresh) b.iss b.aud b.sub s b.app es)))

  -- A verifier that is set up for the token: bounds that the half fits in, and a ring in which no
  -- key before the issuer's opens what the issuer's sealed.
  pub record IsReceiver (plain : Bytes) (i : Issuer) (v : Verifier) : Type 0 where
    pub fits : 16 + length plain ≤ v.max_decoded_len
    pub bound : v.max_decoded_len ≤ 2 ^ 62
    pub before : List MandateKey
    pub after : List MandateKey
    pub ring : v.keys ≡ before ++ i.key ∷ after
    pub closed :
        (sealed : Bytes)
        → IsSealed x plain i.key.bytes i.mandate_alg sealed
        → All (λ k. opened x sealed k.bytes i.mandate_alg ≡ nothing) before

  abbrev pub minted_fields : Uuid → MintBuilder T → NumericDate → MandateFields T
  minted_fields fresh b exp = record {
    exp = some exp;
    tid = some (get_or b.tid fresh);
    iss = b.iss;
    aud = b.aud;
    sub = b.sub;
    app = b.app;
  }

  seal_manifest_of :
      (m : Option (Result MintError Bytes)) (alg : Alg)
      → AeadLaws x
      → IsReady m
      → IsEnabled x alg
      → (sealed : Option Bytes) × (seal_manifest x m alg ≡ ok sealed) × IsFilled x sealed
  seal_manifest_of none alg l h e = (none, refl, tt)
  seal_manifest_of (some r) alg l (plain, h, o) e =
      let (sealed, hs, t) = seal_of_enabled x plain manifest_key alg l refl o e in
      (some sealed, rw (h, hs), omega (arith, t.longer))

  pub not_empty : CborLaws x → (b : Bytes) (v : Value) → x.from_reader b ≡ some v → 0 < length b
  not_empty l [] v h = let e = l.reads_nothing in absurd (different e)
    where
      different : x.from_reader [] ≡ none → ⊥
      different e = cc
  not_empty l (c ∷ b) v h = omega arith

  module _ (laws : (e : Encoding) → CodecLaws (codec_of x e)) (aead : AeadLaws x)
      (cbor : CborLaws x) (fresh : Uuid) (b : MintBuilder T) (exp : NumericDate) (es : Entries)
      (h : IsMintable fresh b exp es)
      (reads : x.from_reader (plaintext fresh b exp es) ≡ some (value_of_plaintext fresh b exp es))
      (writes : All IsByte (plaintext fresh b exp es)) where
    -- Minting succeeds, and the mandate half of the token is the sealed plaintext.
    pub mint-IsSealed :
        (manifest : Option Bytes) × (sealed : Bytes) × (mint x s fresh b
          ≡ ok (assemble_token x b.issuer manifest sealed))
        × IsFilled x manifest
        × (seal_manifest x b.manifest_plain b.issuer.manifest_alg ≡ ok manifest)
        × IsSealed x (plaintext fresh b exp es) b.issuer.key.bytes b.issuer.mandate_alg sealed
    unfolding mint
    mint-IsSealed =
        let tid = get_or b.tid fresh in
        let (wrote, _) =
          from_mandate_plaintext-to_mandate_plaintext x exp tid b.iss b.aud b.sub s b.app es cbor
            h.app h.in_range h.octets reads in
        let (sealed, hs, t) =
          seal_of_enabled x (plaintext fresh b exp es) b.issuer.key.bytes b.issuer.mandate_alg aead
            h.key writes h.mandate_enabled in
        let (manifest, hm, f) =
          seal_manifest_of b.manifest_plain b.issuer.manifest_alg aead h.manifest
            h.manifest_enabled in
        (
          manifest,
          sealed,
          rw (h.has_exp, h.audience, h.version, h.variant, wrote, hs, hm),
          f,
          hm,
          t,
        )

    pub clauses-mint :
        (clock : Option ℕ) (v : Verifier)
        → IsReceiver (plaintext fresh b exp es) b.issuer v
        → get_or v.now (now_unix clock) <ℤ saturating_add exp v.leeway
        → InAudience x v b.aud
        → (token : Text) × (mint x s fresh b ≡ ok token)
          × (clauses x s clock v token ≡ ok (record { inner = minted_fields fresh b exp }))
    unfolding authenticate_and_decode
    clauses-mint clock v r now aud =
        let tid = get_or b.tid fresh in
        let plain = plaintext fresh b exp es in
        let (manifest, sealed, hm, f, _, t) = mint-IsSealed in
        let (_, back) =
          from_mandate_plaintext-to_mandate_plaintext x exp tid b.iss b.aud b.sub s b.app es cbor
            h.app h.in_range h.octets reads in
        let token = assemble_token x b.issuer manifest sealed in
        let opens =
          authenticate-assemble_token x laws b.issuer manifest sealed plain v f t
            (not_empty cbor plain _ reads) (omega (arith, t.longer, r.fits)) r.bound
            (record {
              before = r.before;
              key = b.issuer.key;
              after = r.after;
              split = r.ring;
              closed = r.closed sealed t;
              opens = t.opens;
            }) in
        (
          token,
          hm,
          (clauses-eq-ok_iff x s clock v token _).1 (record {
            authentic = rw (opens, back);
            tid = tid;
            has_tid = refl;
            version = h.version;
            variant = h.variant;
            exp = exp;
            has_exp = refl;
            not_expired = now;
            in_audience = aud;
          }),
        )
