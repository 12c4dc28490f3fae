-- ===== src/Lowlevel/RoundTrip.antt =====
-- What lowlevel.rs seals and writes as text, it reads and opens again.
use obsigil_rs.Prelude.{◌≡◌, ◌⊎◌, inl, inr, some, All, length, ok, nothing}
use obsigil_rs.Types.{Bytes, Alg, Encoding}
use obsigil_rs.Types.IssuedAt.{IsByte}
use obsigil_rs.Crates.{Crates}
use obsigil_rs.Crates.Laws.{CodecLaws, AeadLaws}
use obsigil_rs.Encoding.{codec_of}
use obsigil_rs.Aead.Opens.{seal-opened}
use obsigil_rs.Mint.Shape.{decode-encoded}
use obsigil_rs.Lowlevel.{seal, opened, encode, decode}

module _ (x : Crates) where
  -- Octets sealed under a key of 64 bytes, by an algorithm that is compiled in, are written as
  -- text, decoded and opened to the same octets; by another algorithm there is no result; the
  -- crates keep their laws.
  pub opened-decode :
      (octets key : Bytes) (alg : Alg) (e : Encoding)
      → ((e : Encoding) → CodecLaws (codec_of x e))
      → AeadLaws x
      → length key ≡ 64
      → All IsByte octets
      → (seal x octets key alg ≡ nothing)
        ⊎ ((sealed : Bytes) × (seal x octets key alg ≡ ok sealed)
            × (decode x (encode x sealed e) e ≡ some sealed)
            × (opened x sealed key alg ≡ ok octets))
  unfolding seal opened encode decode
  opened-decode octets key alg e laws l h b = elim (seal-opened x octets key alg l h b) [
    | inl q ↦ inl (rw q)
    | inr (sealed, q, s) ↦ inr (sealed, rw q, decode-encoded x laws sealed e s.octets, s.opens)
  ]
