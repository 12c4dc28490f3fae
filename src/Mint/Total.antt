-- ===== src/Mint/Total.antt =====
-- `mint` of mint.rs never panics.
use obsigil_rs.Prelude.{
  ◌≡◌, ◌≢◌, ◌||◌, not, ◌==◌, refl, Option, none, some, length, Result, panic, ok_or, reject_if,
  >>=-ne-panic, ok_or-ne-panic, reject_if-ne-panic,
}
use mathlib.Core.Option.{get_or}
use obsigil_rs.Types.{Bytes, Alg, manifest_key}
use obsigil_rs.Errors.{MintError, missing, empty_audience, bad_tid, chars}
use obsigil_rs.Crates.{Crates, Serde}
use obsigil_rs.Crates.Laws.{AeadLaws, SealLaws}
use obsigil_rs.Aead.{seal}
use obsigil_rs.Aead.Opens.{seal-ne-panic}
use obsigil_rs.Reserved.{Uuid}
use obsigil_rs.Serial.Write.{to_mandate_plaintext}
use obsigil_rs.Serial.ManifestTotal.{to_mandate_plaintext-ne-panic}
use obsigil_rs.Mint.{MintBuilder, is_empty_aud, seal_manifest, mint}

-- The plaintext of a manifest, where there is one, was made without a panic.
abbrev pub IsCalm : Option (Result MintError Bytes) → Type 0
IsCalm none = Unit {0}
IsCalm (some r) = r ≢ panic

module _ (x : Crates) (l : AeadLaws x) (t : SealLaws x) where
  seal_manifest-ne-panic :
      (m : Option (Result MintError Bytes)) (alg : Alg) → IsCalm m → seal_manifest x m alg ≢ panic
  seal_manifest-ne-panic none alg h = λ q. cc
  seal_manifest-ne-panic (some r) alg h = >>=-ne-panic r _ h λ plain _.
      >>=-ne-panic (seal x plain manifest_key alg) _
        (seal-ne-panic x plain manifest_key alg l t refl) λ sealed _ q. cc

  -- A builder with a key of 64 bytes is minted or refused, without a panic
  pub mint-ne-panic :
      {T : Type 0} (s : Serde T) (fresh : Uuid) (b : MintBuilder T)
      → length b.issuer.key.bytes ≡ 64
      → s.serialized b.app ≢ panic
      → IsCalm b.manifest_plain
      → mint x s fresh b ≢ panic
  unfolding mint
  mint-ne-panic s fresh b n h m =
      let tid = get_or b.tid fresh in
      >>=-ne-panic (ok_or b.exp (missing (chars "exp"))) _ (ok_or-ne-panic _ _) λ exp _.
        >>=-ne-panic (reject_if (is_empty_aud b.aud) empty_audience) _ (reject_if-ne-panic _ _)
          λ _ _.
            >>=-ne-panic
              (reject_if (not (x.get_version_num tid == 7) || not (x.is_rfc4122 tid)) bad_tid) _
              (reject_if-ne-panic _ _)
              λ _ _.
                >>=-ne-panic (to_mandate_plaintext x s exp tid b.iss b.aud b.sub b.app) _
                  (to_mandate_plaintext-ne-panic x s b.app h exp tid b.iss b.aud b.sub)
                  λ plain _.
                    >>=-ne-panic (seal x plain b.issuer.key.bytes b.issuer.mandate_alg) _
                      (seal-ne-panic x plain b.issuer.key.bytes b.issuer.mandate_alg l t n)
                      λ sealed _.
                        >>=-ne-panic (seal_manifest x b.manifest_plain b.issuer.manifest_alg) _
                          (seal_manifest-ne-panic b.manifest_plain b.issuer.manifest_alg m)
                          λ ms _ q. cc
