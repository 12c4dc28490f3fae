-- ===== src/Tests/Sealing.antt =====
-- The unit tests of obsigil/src/aead.rs.
use obsigil_rs.Prelude.{
  ℕ, zero, suc, ◌+◌, ◌-◌, ◌%◌, ◌≡◌, refl, [], ◌∷◌, ◌==◌, if◌then◌else◌, length, ok, nothing,
}
use obsigil_rs.Types.{Bytes, siv, gcm_siv}
use obsigil_rs.Errors.{chars}
use obsigil_rs.Crates.{Crates}
use obsigil_rs.Aead.{seal, opened}
use obsigil_rs.Tests.Fixtures.{Unwraps, replicate, crates}

-- `b ^= 0x01` at an index; an index out of range, which would panic, is not met.
abbrev flip_bit : Bytes → ℕ → Bytes
flip_bit [] i = []
flip_bit (b ∷ bs) zero = (if b % 2 == 0 then b + 1 else b - 1) ∷ bs
flip_bit (b ∷ bs) (suc i) = b ∷ flip_bit bs i

abbrev SivRoundTripsAndDetectsTampering : Crates → Type 0
SivRoundTripsAndDetectsTampering x =
    let master : Bytes = replicate 7 64 in
    let pt : Bytes = chars "jhello mandate" in
    Unwraps (seal x pt master siv) (λ sealed.
      (length sealed ≡ 16 + length pt)
      × (opened x sealed master siv ≡ ok pt)
      × (opened x (flip_bit sealed 20) master siv ≡ nothing)
      × (opened x sealed (replicate 9 64) siv ≡ nothing))

siv_round_trips_and_detects_tampering : SivRoundTripsAndDetectsTampering crates
unfolding seal opened
siv_round_trips_and_detects_tampering = (refl, refl, refl, refl)

abbrev GcmSivRoundTrips : Crates → Type 0
GcmSivRoundTrips x =
    let master : Bytes = replicate 3 64 in
    let pt : Bytes = chars "jhello mandate" in
    Unwraps (seal x pt master gcm_siv)
      (λ sealed. (length sealed ≡ length pt + 16) × (opened x sealed master gcm_siv ≡ ok pt))

gcm_siv_round_trips : GcmSivRoundTrips crates
unfolding seal opened
gcm_siv_round_trips = (refl, refl)
