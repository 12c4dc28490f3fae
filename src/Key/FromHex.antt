-- ===== src/Key/FromHex.antt =====
-- Which texts `MandateKey::from_hex` of key.rs takes, and which key it makes of them.
use obsigil_rs.Prelude.{
  ◌≡◌, ◌≢◌, sym, ap, ◌∙◌, ◌↔◌, inl, inr, true, false, some, ◌==◌, ==_iff, length, All, bytes_eq,
  bytes_eq→eq, bytes_eq_refl, Bool-cases, ok, ok_or, >>=-eq-ok, ok_or-eq-ok, ok_injective,
}
use mathlib.Core.Path.{subst}
use obsigil_rs.Types.{Text, Bytes, hex, manifest_key}
use obsigil_rs.Types.IssuedAt.{IsByte}
use obsigil_rs.Errors.{KeyError, bad_hex_encoding, bad_hex_length}
use obsigil_rs.Utf8.{as_bytes_ascii}
use obsigil_rs.Encoding.{decode}
use obsigil_rs.Aead.{zeros}
use obsigil_rs.Crates.{Crates}
use obsigil_rs.Crates.Laws.{CodecLaws}
use obsigil_rs.Key.{MandateKey, from_bytes, to_array64, from_hex, generate_key}

-- The bytes of a usable secret key.
pub record IsSecret (bs : Bytes) : Type 0 where
  pub not_public : bs ≢ manifest_key
  pub not_zero : bs ≢ zeros 64

pub from_bytes_sound :
    (bs : Bytes) (k : MandateKey) → from_bytes bs ≡ ok k → IsSecret bs × (k ≡ record { bytes = bs })
unfolding from_bytes
from_bytes_sound bs k h = elim (Bool-cases (bytes_eq bs manifest_key)) [
  | inl e ↦ cc (rw e at h)
  | inr e ↦ elim (Bool-cases (bytes_eq bs (zeros 64))) [
    | inl f ↦ cc (rw (e, f) at h)
    | inr f ↦ (
      record {
        not_public = λ q. cc (e, subst (λ c. bytes_eq bs c ≡ true) q (bytes_eq_refl bs));
        not_zero = λ q. cc (f, subst (λ c. bytes_eq bs c ≡ true) q (bytes_eq_refl bs));
      },
      sym (ok_injective (rw (e, f) at h)),
    )
  ]
]

from_bytes_complete : (bs : Bytes) → IsSecret bs → from_bytes bs ≡ ok (record { bytes = bs })
unfolding from_bytes
from_bytes_complete bs s =
    rw (differs bs manifest_key s.not_public, differs bs (zeros 64) s.not_zero)
  where
    differs : (a b : Bytes) → a ≢ b → bytes_eq a b ≡ false
    differs a b n = elim (Bool-cases (bytes_eq a b)) [
      | inl e ↦ absurd (n (bytes_eq→eq a b e))
      | inr e ↦ e
    ]

to_array64-eq-ok :
    (bs cs : Bytes) (e : KeyError) → to_array64 bs e ≡ ok cs → (length bs ≡ 64) × (bs ≡ cs)
to_array64-eq-ok bs cs e h = elim (Bool-cases (length bs == 64)) [
  | inl p ↦ ((==_iff _ _).0 p, ok_injective (rw p at h))
  | inr p ↦ cc (rw p at h)
]

module _ (x : Crates) where
  -- A text is taken as a key exactly when it decodes as hex to the key's bytes, which are 64, are
  -- not the public manifest key and are not all zero.
  pub from_hex-eq-ok_iff :
      (text : Text) (k : MandateKey)
      → (from_hex x text ≡ ok k)
        ↔ ((decode x text hex ≡ some k.bytes) × (length k.bytes ≡ 64) × IsSecret k.bytes)
  unfolding from_hex
  from_hex-eq-ok_iff text k = (sound, complete)
    where
      sound :
          from_hex x text ≡ ok k
          → (decode x text hex ≡ some k.bytes) × (length k.bytes ≡ 64) × IsSecret k.bytes
      sound h =
          let (bs, h0, h1) =
            >>=-eq-ok (ok_or (decode x text hex) bad_hex_encoding) _ (unfold from_hex in h) in
          let (cs, h2, h3) = >>=-eq-ok (to_array64 bs (bad_hex_length (length bs))) _ h1 in
          let (n, same) = to_array64-eq-ok bs cs _ h2 in
          let (s, e) = from_bytes_sound cs k h3 in
          let bytes : bs ≡ k.bytes = (same ∙ sym (ap (λ (m : MandateKey). m.bytes) e)) in
          (
            ok_or-eq-ok (decode x text hex) bad_hex_encoding h0 ∙ ap some bytes,
            subst (λ b. length b ≡ 64) bytes n,
            subst IsSecret (sym same ∙ bytes) s,
          )

      complete :
          (decode x text hex ≡ some k.bytes) × (length k.bytes ≡ 64) × IsSecret k.bytes
          → from_hex x text ≡ ok k
      complete (d, n, s) = unfold from_hex in rw (d, n, from_bytes_complete k.bytes s)

  -- The text of a generated key of 64 bytes is read back as those bytes, subject to the checks of
  -- `from_bytes`, if the hex encoding keeps its laws.
  pub from_hex-generate_key :
      CodecLaws x.hexlower
      → (random : Bytes) → length random ≡ 64
      → All IsByte random
      → from_hex x (generate_key x random) ≡ from_bytes random
  unfolding from_hex
  from_hex-generate_key l random n b =
      let back : decode x (generate_key x random) hex ≡ some random =
        (unfold decode generate_key in
          ap x.hexlower.decode (as_bytes_ascii (x.hexlower.encode random) (l.ascii random))
          ∙ l.decode-encode random b) in
      rw (back, n)
