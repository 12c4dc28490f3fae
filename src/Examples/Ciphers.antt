-- ===== src/Examples/Ciphers.antt =====
-- Concrete sealing functions: in front of the plaintext stand sixteen bytes of the key.
use obsigil_rs.Prelude.{
  ℕ, zero, suc, ◌+◌, ◌%◌, ◌<◌, ◌≡◌, refl, sym, ap, ◌∙◌, inl, inr, Bool-cases, ==_iff, false, Option,
  none, some, [], ◌∷◌, ◌++◌, arith, ◌==◌, ==-refl, if◌then◌else◌, All, All-append, length,
  length-append, any, leb, ||-false,
}
use obsigil_rs.Types.{Bytes}
use obsigil_rs.Types.IssuedAt.{IsByte}

-- The first `n` bytes, filled up with zeros.
abbrev pub fill : ℕ → Bytes → Bytes
fill zero bs = []
fill (suc n) [] = 0 ∷ fill n []
fill (suc n) (b ∷ bs) = b % 256 ∷ fill n bs

abbrev pub strip : Bytes → Bytes → Option Bytes
strip [] bs = some bs
strip (t ∷ ts) [] = none
strip (t ∷ ts) (b ∷ bs) = if t == b then strip ts bs else none

abbrev pub toy_encrypt : Bytes → Bytes → Option Bytes
toy_encrypt key plain = some (fill 16 key ++ plain)

abbrev pub toy_decrypt : Bytes → Bytes → Option Bytes
toy_decrypt key sealed = strip (fill 16 key) sealed

pub length-fill : (n : ℕ) (bs : Bytes) → length (fill n bs) ≡ n
length-fill zero bs = refl
length-fill (suc n) [] = omega (arith, length-fill n [])
length-fill (suc n) (b ∷ bs) = omega (arith, length-fill n bs)

fill-bytes : (n : ℕ) (bs : Bytes) → All IsByte (fill n bs)
fill-bytes zero bs = tt
fill-bytes (suc n) [] = (omega arith, fill-bytes n [])
fill-bytes (suc n) (b ∷ bs) = (omega arith, fill-bytes n bs)

strip-append : (ts bs : Bytes) → strip ts (ts ++ bs) ≡ some bs
strip-append [] bs = refl
strip-append (t ∷ ts) bs = rw (==-refl t) (strip-append ts bs)

pub toy_seals :
    (key plain : Bytes)
    → All IsByte plain
    → (sealed : Bytes) × (toy_encrypt key plain ≡ some sealed)
      × (length sealed ≡ 16 + length plain)
      × All IsByte sealed
      × (toy_decrypt key sealed ≡ some plain)
toy_seals key plain h = (
  fill 16 key ++ plain,
  refl,
  omega (arith, length-append (fill 16 key) plain, length-fill 16 key),
  All-append IsByte (fill 16 key) plain (fill-bytes 16 key) h,
  strip-append (fill 16 key) plain,
)

-- Bytes, by a computed test.
pub octets_of : (bs : Bytes) → any (λ b. leb 256 b) bs ≡ false → All IsByte bs
octets_of [] h = tt
octets_of (b ∷ bs) h =
    let (low, rest) = ||-false (leb 256 b) (any (λ c. leb 256 c) bs) h in
    (below b low, octets_of bs rest)
  where
    below : (b : ℕ) → leb 256 b ≡ false → b < 256
    below b h = ground arith

strip_back : (ts bs plain : Bytes) → strip ts bs ≡ some plain → ts ++ plain ≡ bs
strip_back [] bs plain h = let same : bs ≡ plain = cc in sym same
strip_back (t ∷ ts) [] plain h = cc
strip_back (t ∷ ts) (b ∷ bs) plain h = elim (Bool-cases (t == b)) [
  | inl e ↦
      let same : t ≡ b = (==_iff t b).0 e in
      ap (λ (s : Bytes). t ∷ s) (strip_back ts bs plain (rw e at h)) ∙ ap (λ (c : ℕ). c ∷ bs) same
  | inr e ↦ cc (rw e at h)
]

-- What opens is what is sealed.
pub toy_reseals :
    (key sealed plain : Bytes)
    → toy_decrypt key sealed ≡ some plain
    → toy_encrypt key plain ≡ some sealed
toy_reseals key sealed plain h = ap some (strip_back (fill 16 key) sealed plain h)
