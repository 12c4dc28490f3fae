-- ===== src/Aead.antt =====
-- obsigil/src/aead.rs: deterministic sealing of a half under a 64-byte master key.
pub mod Opens
pub mod Reseals
use obsigil_rs.Prelude.{
  ℕ, zero, suc, Bool, true, false, Option, none, some, List, [], ◌∷◌, if◌then◌else◌, Result, ok,
  err, panic, expect, ◌>>=◌, Maybe, nothing, lift_option,
}
use obsigil_rs.Types.{Bytes, Alg, siv, gcm_siv}
use obsigil_rs.Errors.{MintError, unsupported_alg, chars}
use obsigil_rs.Crates.{Crates}

-- `[0u8; n]`
abbrev pub zeros : ℕ → Bytes
zeros zero = []
zeros (suc n) = 0 ∷ zeros n

module _ (x : Crates) where
  seal_siv : Bytes → Bytes → Result MintError Bytes
  seal_siv plaintext master = expect (x.siv_encrypt master [] plaintext)

  open_siv : Bytes → Bytes → Maybe Bytes
  open_siv sealed master = lift_option (x.siv_decrypt master [] sealed)

  gcm_siv_key {ℓ} : {E : Type ℓ} → Bytes → Result E Bytes
  gcm_siv_key master = expect (x.hkdf_expand master (chars "gcmsiv") 32)

  -- the two `cfg` versions
  seal_gcm_siv : Bytes → Bytes → Result MintError Bytes
  unfolding gcm_siv_key
  seal_gcm_siv plaintext master =
      if x.gcm_siv_feature
      then (do key ← gcm_siv_key master; expect (x.gcm_encrypt key (zeros 12) plaintext))
      else err (unsupported_alg gcm_siv)

  open_gcm_siv : Bytes → Bytes → Maybe Bytes
  unfolding gcm_siv_key
  open_gcm_siv sealed master =
      if x.gcm_siv_feature
      then (do key ← gcm_siv_key master; lift_option (x.gcm_decrypt key (zeros 12) sealed))
      else nothing

  unfoldable pub seal : Bytes → Bytes → Alg → Result MintError Bytes
  unfolding seal_siv seal_gcm_siv
  seal plaintext master siv = seal_siv plaintext master
  seal plaintext master gcm_siv = seal_gcm_siv plaintext master

  unfoldable pub opened : Bytes → Bytes → Alg → Maybe Bytes
  unfolding open_siv open_gcm_siv
  opened sealed master siv = open_siv sealed master
  opened sealed master gcm_siv = open_gcm_siv sealed master
