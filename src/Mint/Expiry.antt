-- ===== src/Mint/Expiry.antt =====
-- `expires_in` of mint.rs: the expiry that a time to live gives.
use Prim.Native.Nat.{min}
use obsigil_rs.Prelude.{
  ℕ, ◌+◌, ◌-◌, ◌^◌, ◌<◌, ◌≡◌, some, arith, pos, saturating_add, ltb, if◌then◌else◌, i64_max,
  as_i64_small,
}
use obsigil_rs.Mint.{MintBuilder, expires_in}

sum_saturates :
    (secs ttl : ℕ)
    → secs < 2 ^ 63
    → saturating_add (pos secs) (if ltb ttl (2 ^ 63) then pos ttl else i64_max)
      ≡ pos (min (secs + ttl) (2 ^ 63 - 1))
sum_saturates secs ttl h = ground arith

-- With a clock below 2 ^ 63 seconds, `expires_in` sets `exp` to the sum of the time and the time to
-- live, or to the greatest i64 if the sum exceeds it.
pub expires_in-exp :
    {T : Type 0} (b : MintBuilder T) (secs ttl : ℕ)
    → secs < 2 ^ 63
    → (expires_in b (some secs) ttl).exp ≡ some (pos (min (secs + ttl) (2 ^ 63 - 1)))
expires_in-exp b secs ttl h = rw (as_i64_small secs h, sum_saturates secs ttl h)
