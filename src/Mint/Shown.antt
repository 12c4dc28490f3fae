-- ===== src/Mint/Shown.antt =====
-- The manifest of a token that mint.rs mints is what the keyless read of verify.rs returns.
use obsigil_rs.Prelude.{
  ◌+◌, ◌≤◌, ◌<◌, ◌≡◌, refl, sym, ◌∙◌, false, none, some, arith, ltb, length, All, ok, ok_injective,
  ℕ,
}
use mathlib.Core.Path.{subst}
use obsigil_rs.Types.{Text, Bytes, NumericDate, Encoding, manifest_key}
use obsigil_rs.Types.Codes.{from_code-code}
use obsigil_rs.Types.IssuedAt.{IsByte}
use obsigil_rs.Cbor.{Entries, map, from_list}
use obsigil_rs.Crates.{Crates, Serde}
use obsigil_rs.Crates.Laws.{CodecLaws, CborLaws, AeadLaws}
use obsigil_rs.Encoding.{codec_of}
use obsigil_rs.Aead.Opens.{IsSealed, seal_of_enabled}
use obsigil_rs.Reserved.{Uuid}
use obsigil_rs.Serial.{canonicalize}
use obsigil_rs.Serial.App.{IsAppValue}
use obsigil_rs.Serial.Write.{assemble, to_manifest_plaintext}
use obsigil_rs.Serial.Manifest.{claim_entries, from_manifest_plaintext-to_manifest_plaintext}
use obsigil_rs.Mint.{Issuer, MintBuilder, seal_manifest, assemble_token, mint}
use obsigil_rs.Mint.Shape.{parse-assemble_token, text_fits, decode-encoded}
use obsigil_rs.Mint.EndToEnd.{IsMintable, plaintext, value_of_plaintext, not_empty, mint-IsSealed}
use obsigil_rs.Verify.{default_max_decoded_len, min_half_bytes, manifest_plaintext, claims}

le_not_ltb : (a b : ℕ) → b ≤ a → ltb a b ≡ false
le_not_ltb a b h = ground arith

module _ (x : Crates) (laws : (e : Encoding) → CodecLaws (codec_of x e)) where
  -- The keyless read opens the manifest half that was sealed under the public key.
  manifest_plaintext-assemble_token :
      (i : Issuer) (shown sealed plain : Bytes)
      → IsSealed x plain manifest_key i.manifest_alg shown
      → 0 < length plain
      → 16 + length plain ≤ default_max_decoded_len
      → 0 < length sealed
      → manifest_plaintext x (assemble_token x i (some shown) sealed) ≡ ok plain
  unfolding manifest_plaintext
  manifest_plaintext-assemble_token i shown sealed plain s h fits k =
      let size : length shown ≤ default_max_decoded_len = omega (arith, s.longer) in
      rw (
        parse-assemble_token x laws i (some shown) sealed (omega (arith, s.longer)) k,
        from_code-code i.manifest_alg,
        le_not_ltb _ _
            (text_fits x laws shown i.encoding default_max_decoded_len size (omega arith)),
        decode-encoded x laws shown i.encoding s.octets,
        le_not_ltb (length shown) min_half_bytes (omega (arith, s.longer)),
        le_not_ltb default_max_decoded_len (length shown) size,
        s.opens,
      )

  module _ {T M : Type 0} (s : Serde T) (aead : AeadLaws x) (cbor : CborLaws x) (fresh : Uuid)
      (b : MintBuilder T) (exp : NumericDate) (es : Entries) (h : IsMintable x s fresh b exp es)
      (reads : x.from_reader (plaintext x s fresh b exp es)
        ≡ some (value_of_plaintext x s fresh b exp es))
      (writes : All IsByte (plaintext x s fresh b exp es)) where
    -- the plaintext of the manifest half
    abbrev pub shown_plaintext : Serde M → M → Entries → Text → Bytes
    shown_plaintext sm a ms iss = assemble x (claim_entries x sm a ms iss)

    -- A builder that has all that a token needs, and a manifest, is minted, and the keyless read of
    -- the token returns the manifest's issuer and application value and no `exp`; both plaintexts
    -- consist of bytes and are read back by the CBOR reader, the manifest fits the default bound,
    -- its application value is one that serde maps to distinct, portable application entries and
    -- reads back from them in canonical order, and the crates keep their laws.
    pub claims-mint :
        (sm : Serde M) (a : M) (ms : Entries) (iss : Text)
        → b.manifest_plain ≡ some (to_manifest_plaintext x sm iss a)
        → IsAppValue x sm a ms
        → x.from_reader (shown_plaintext sm a ms iss)
          ≡ some (canonicalize x (map (from_list (claim_entries x sm a ms iss))))
        → All IsByte (shown_plaintext sm a ms iss)
        → 16 + length (shown_plaintext sm a ms iss) ≤ default_max_decoded_len
        → (token : Text) × (mint x s fresh b ≡ ok token)
          × (claims x sm token ≡ ok (record { inner = record { iss = iss; exp = none; app = a } }))
    unfolding claims
    claims-mint sm a ms iss set app back octets fits =
        let plain = shown_plaintext sm a ms iss in
        let (manifest, sealed, minted, _, hm, t) =
          mint-IsSealed x s laws aead cbor fresh b exp es h reads writes in
        let (wrote, read) =
          from_manifest_plaintext-to_manifest_plaintext x sm a ms iss cbor app back in
        let (shown, hs, st) =
          seal_of_enabled x plain manifest_key b.issuer.manifest_alg aead refl octets
            h.manifest_enabled in
        let seals : seal_manifest x b.manifest_plain b.issuer.manifest_alg ≡ ok (some shown) =
          (rw (set, wrote, hs)) in
        let same : manifest ≡ some shown = ok_injective (sym hm ∙ seals) in
        let opens =
          manifest_plaintext-assemble_token b.issuer shown sealed plain st
            (not_empty x s cbor plain _ back) fits (omega (arith, t.longer)) in
        (
          assemble_token x b.issuer (some shown) sealed,
          subst (λ m. mint x s fresh b ≡ ok (assemble_token x b.issuer m sealed)) same minted,
          rw (opens, read),
        )
