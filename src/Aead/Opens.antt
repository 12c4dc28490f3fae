-- ===== src/Aead/Opens.antt =====
-- `open` of aead.rs takes back what `seal` put in, and neither of the two panics.
use obsigil_rs.Prelude.{
  ◌+◌, ◌≡◌, ◌≢◌, refl, true, ◌⊎◌, inl, inr, [], All, length, Option, none, some, Result, expect, ok,
  err, panic, Bool-cases, ok_or-ne-panic,
}
use obsigil_rs.Types.{Bytes, Alg, siv, gcm_siv}
use obsigil_rs.Types.IssuedAt.{IsByte}
use obsigil_rs.Errors.{MintError, unsupported_alg, chars}
use obsigil_rs.Crates.{Crates}
use obsigil_rs.Crates.Laws.{AeadLaws, SealLaws}
use obsigil_rs.Aead.{zeros, seal, opened}

module _ (x : Crates) where
  -- Sealed bytes of a plaintext under a key.
  pub record IsSealed (plain key : Bytes) (alg : Alg) (sealed : Bytes) : Type 0 where
    pub longer : length sealed ≡ 16 + length plain
    pub octets : All IsByte sealed
    pub opens : opened x sealed key alg ≡ ok plain

  -- The algorithms that are compiled in.
  abbrev pub IsEnabled : Alg → Type 0
  IsEnabled siv = Unit {0}
  IsEnabled gcm_siv = x.gcm_siv_feature ≡ true

  pub seal_of_enabled :
      (plain key : Bytes) (alg : Alg)
      → AeadLaws x
      → length key ≡ 64
      → All IsByte plain
      → IsEnabled alg
      → (sealed : Bytes) × (seal x plain key alg ≡ ok sealed) × IsSealed plain key alg sealed
  unfolding seal
  seal_of_enabled plain key siv l h b e =
      let (sealed, hs, hl, hb, ho) = l.siv_seals key plain h b in
      (sealed, rw hs, record { longer = hl; octets = hb; opens = (unfold opened in rw ho) })
  seal_of_enabled plain key gcm_siv l h b e =
      let (okm, hk, hlen) = l.hkdf_expands key (chars "gcmsiv") h in
      let (sealed, hs, hl, hb, ho) = l.gcm_seals okm (zeros 12) plain hlen refl b in
      (
        sealed,
        rw (e, hk, hs),
        record { longer = hl; octets = hb; opens = (unfold opened in rw (e, hk, ho)) },
      )

  -- Sealing bytes under a key of 64 bytes either reports that the algorithm is not compiled in, or
  -- gives bytes that are 16 more than the plaintext's and that open under the key to the plaintext,
  -- if the sealing crates keep their laws.
  pub seal-opened :
      (plain key : Bytes) (alg : Alg)
      → AeadLaws x
      → length key ≡ 64
      → All IsByte plain
      → (seal x plain key alg ≡ err (unsupported_alg alg))
        ⊎ ((sealed : Bytes) × (seal x plain key alg ≡ ok sealed) × IsSealed plain key alg sealed)
  unfolding seal
  seal-opened plain key siv l h b = inr (seal_of_enabled plain key siv l h b tt)
  seal-opened plain key gcm_siv l h b = elim (Bool-cases x.gcm_siv_feature) [
    | inr e ↦ inl (rw e)
    | inl e ↦ inr (seal_of_enabled plain key gcm_siv l h b e)
  ]

  pub opened-ne-panic :
      (sealed key : Bytes) (alg : Alg)
      → AeadLaws x
      → length key ≡ 64
      → opened x sealed key alg ≢ panic
  unfolding opened
  opened-ne-panic sealed key siv l h = ok_or-ne-panic (x.siv_decrypt key [] sealed) tt
  opened-ne-panic sealed key gcm_siv l h =
      let (okm, hk, hlen) = l.hkdf_expands key (chars "gcmsiv") h in
      elim (Bool-cases x.gcm_siv_feature) [
        | inl e ↦ rw (e, hk) (ok_or-ne-panic (x.gcm_decrypt okm (zeros 12) sealed) tt)
        | inr e ↦ rw e (λ q. cc)
      ]

  expect-ne-panic :
      {A : Type 0} (o : Option A) → o ≢ none → ◌≢◌ {A = Result MintError A} (expect o) panic
  expect-ne-panic none h = absurd (h refl)
  expect-ne-panic (some a) h = λ q. cc

  pub seal-ne-panic :
      (plain key : Bytes) (alg : Alg)
      → AeadLaws x
      → SealLaws x
      → length key ≡ 64
      → seal x plain key alg ≢ panic
  unfolding seal
  seal-ne-panic plain key siv l t h = expect-ne-panic _ (t.siv_total key plain h)
  seal-ne-panic plain key gcm_siv l t h =
      let (okm, hk, hlen) = l.hkdf_expands key (chars "gcmsiv") h in
      elim (Bool-cases x.gcm_siv_feature) [
        | inl e ↦ rw (e, hk) (expect-ne-panic _ (t.gcm_total okm (zeros 12) plain hlen refl))
        | inr e ↦ rw e (λ q. cc)
      ]
