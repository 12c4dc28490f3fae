-- ===== src/Verify/Ring.antt =====
-- The order of the keys in a verifier of verify.rs.
use obsigil_rs.Prelude.{◌≡◌, ◌⊎◌, List, All, ok, nothing}
use obsigil_rs.Types.{Bytes, Alg}
use obsigil_rs.Crates.{Crates}
use obsigil_rs.Aead.{opened}
use obsigil_rs.Key.{MandateKey}
use obsigil_rs.Verify.{Verifier}

module _ (x : Crates) where
  -- A key does not open the sealed bytes, or opens them to the one plaintext.
  abbrev pub Agrees : Bytes → Alg → Bytes → MandateKey → Type 0
  Agrees sealed alg plain k =
      (opened x sealed k.bytes alg ≡ nothing) ⊎ (opened x sealed k.bytes alg ≡ ok plain)

  -- All keys of a ring that open the same sealed bytes open them to the same plaintext.
  abbrev pub IsConsistent : List MandateKey → Type 0
  IsConsistent ks =
      (sealed : Bytes) (alg : Alg) → (plain : Bytes) × All (Agrees sealed alg plain) ks

  -- The verifier with another ring.
  abbrev pub with_ring : Verifier → List MandateKey → Verifier
  with_ring v ks = record v { keys = ks }
