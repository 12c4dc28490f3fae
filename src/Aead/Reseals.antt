-- ===== src/Aead/Reseals.antt =====
-- `seal` of aead.rs gives back what `open` took.
use obsigil_rs.Prelude.{◌≡◌, refl, inl, inr, [], length, Bool-cases, ok, ok_or-eq-ok}
use obsigil_rs.Types.{Bytes, Alg, siv, gcm_siv}
use obsigil_rs.Errors.{chars}
use obsigil_rs.Crates.{Crates}
use obsigil_rs.Crates.Laws.{AeadLaws, ResealLaws}
use obsigil_rs.Aead.{zeros, seal, opened}

module _ (x : Crates) (aead : AeadLaws x) (laws : ResealLaws x) where
  -- Bytes that open are those that the plaintext is sealed to.
  pub seal_of_opened :
      (sealed key plain : Bytes) (alg : Alg)
      → length key ≡ 64
      → opened x sealed key alg ≡ ok plain
      → seal x plain key alg ≡ ok sealed
  unfolding seal opened
  seal_of_opened sealed key plain siv h o =
      rw (laws.siv_reseals key sealed plain h (ok_or-eq-ok (x.siv_decrypt key [] sealed) tt o))
  seal_of_opened sealed key plain gcm_siv h o =
      let (okm, hk, hlen) = aead.hkdf_expands key (chars "gcmsiv") h in
      elim (Bool-cases x.gcm_siv_feature) [
        | inl e ↦ rw (
          e,
          hk,
          laws.gcm_reseals okm (zeros 12) sealed plain hlen refl
              (ok_or-eq-ok (x.gcm_decrypt okm (zeros 12) sealed) tt (rw (e, hk) at o)),
        )
        | inr e ↦ cc (rw e at o)
      ]
