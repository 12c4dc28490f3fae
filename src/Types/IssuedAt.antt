-- ===== src/Types/IssuedAt.antt =====
-- `tid_issued_at` of types.rs reads a big-endian number of milliseconds.
use Prim.Native.Nat.{max, bit_or-bitwise, digits}
use obsigil_rs.Prelude.{
  ℕ, zero, suc, ◌+◌, ◌*◌, ◌/◌, ◌%◌, ◌^◌, ◌≤◌, ◌<◌, bit_or, ◌≡◌, refl, arith, ap, [], ◌∷◌, All, pos,
  as_i64_small,
}
use obsigil_rs.Types.{Bytes, timestamp_ms, tid_issued_at}
use native.Mathlib.Nat.{pow-suc}

abbrev or_digits : ℕ → ℕ → ℕ → ℕ
or_digits n a b = digits (λ b. b) max n a b

or_digits_fuel : (n m a b : ℕ) → a ≤ n → a ≤ m → or_digits n a b ≡ or_digits m a b
or_digits_fuel zero zero a b p q = refl
or_digits_fuel zero (suc m) zero b p q = refl
or_digits_fuel zero (suc m) (suc a) b p q = absurd (omega arith)
or_digits_fuel (suc n) zero zero b p q = refl
or_digits_fuel (suc n) zero (suc a) b p q = absurd (omega arith)
or_digits_fuel (suc n) (suc m) zero b p q = refl
or_digits_fuel (suc n) (suc m) (suc a) b p q =
    omega (arith, or_digits_fuel n m (suc a / 2) (b / 2) (omega arith) (omega arith))

zero-bit_or : (b : ℕ) → bit_or 0 b ≡ b
zero-bit_or b = bit_or-bitwise 0 b

-- The lowest binary digit, and the others.
bit_or_step : (x y : ℕ) → bit_or x y ≡ max (x % 2) (y % 2) + bit_or (x / 2) (y / 2) * 2
bit_or_step zero y = omega (arith, zero-bit_or y, zero-bit_or (y / 2))
bit_or_step (suc x) y =
    let half = suc x / 2 in
    let rest = bit_or-bitwise half (y / 2) in
    let same = or_digits_fuel x half half (y / 2) (omega arith) (omega arith) in
    omega (arith, bit_or-bitwise (suc x) y, rest, same)

bit_or-zero_fuel : (n a : ℕ) → a ≤ n → bit_or a 0 ≡ a
bit_or-zero_fuel n zero h = refl
bit_or-zero_fuel zero (suc a) h = absurd (omega arith)
bit_or-zero_fuel (suc n) (suc a) h =
    omega (arith, bit_or_step (suc a) 0, bit_or-zero_fuel n (suc a / 2) (omega arith))

double_pow : (k : ℕ) → 2 ^ suc k ≡ 2 * 2 ^ k
double_pow k = omega (arith, pow-suc 2 k)

-- Numbers with no binary digit in common are added by `|`.
bit_or_disjoint : (k a b : ℕ) → b < 2 ^ k → bit_or (a * 2 ^ k) b ≡ a * 2 ^ k + b
bit_or_disjoint zero a zero h =
    let e : a * 2 ^ 0 ≡ a = omega arith in rw e (omega (arith, bit_or-zero_fuel a a (omega arith)))
bit_or_disjoint zero a (suc b) h = absurd (omega arith)
bit_or_disjoint (suc k) a b h =
    let e : a * 2 ^ suc k ≡ 2 * (a * 2 ^ k) = omega (arith, ap (λ (t : ℕ). a * t) (double_pow k)) in
    rw e (
      omega (
        arith,
        bit_or_step (2 * (a * 2 ^ k)) b,
        ap (λ (t : ℕ). bit_or t (b / 2)) (half_double (a * 2 ^ k)),
        bit_or_disjoint k a (b / 2) (omega (arith, double_pow k)),
      ))
  where
    half_double : (x : ℕ) → 2 * x / 2 ≡ x
    half_double x = omega arith

join : (k x a b : ℕ) → x ≡ a * 2 ^ k → b < 2 ^ k → bit_or x b ≡ x + b
join k x a b e h = rw e (bit_or_disjoint k a b h)

abbrev pub IsByte : ℕ → Type 0
IsByte b = b < 256

-- The bytes as the digits of a number in base 256, the first byte highest.
pub big_endian : ℕ → Bytes → ℕ
big_endian n [] = n
big_endian n (b ∷ bs) = big_endian (n * 256 + b) bs

timestamp_ms_lem :
    (b0 b1 b2 b3 b4 b5 : ℕ)
    → IsByte b1
    → IsByte b2
    → IsByte b3
    → IsByte b4
    → IsByte b5
    → timestamp_ms b0 b1 b2 b3 b4 b5 ≡ big_endian 0 (b0 ∷ b1 ∷ b2 ∷ b3 ∷ b4 ∷ b5 ∷ [])
unfolding timestamp_ms big_endian
timestamp_ms_lem b0 b1 b2 b3 b4 b5 h1 h2 h3 h4 h5 =
    let x2 = b0 * 2 ^ 40 + b1 * 2 ^ 32 in
    let x3 = x2 + b2 * 2 ^ 24 in
    let x4 = x3 + b3 * 2 ^ 16 in
    let x5 = x4 + b4 * 2 ^ 8 in
    rw
      (
        join 40 (b0 * 2 ^ 40) b0 (b1 * 2 ^ 32) (omega arith) (omega arith),
        join 32 x2 (b0 * 256 + b1) (b2 * 2 ^ 24) (omega arith) (omega arith),
        join 24 x3 ((b0 * 256 + b1) * 256 + b2) (b3 * 2 ^ 16) (omega arith) (omega arith),
        join 16 x4 (((b0 * 256 + b1) * 256 + b2) * 256 + b3) (b4 * 2 ^ 8) (omega arith)
            (omega arith),
        join 8 x5 ((((b0 * 256 + b1) * 256 + b2) * 256 + b3) * 256 + b4) b5 (omega arith)
            (omega arith),
      )
      (omega arith)

-- The issue time of a token id is the big-endian number in its first six bytes divided by 1000.
pub tid_issued_at-big_endian :
    (b0 b1 b2 b3 b4 b5 : ℕ) (rest : Bytes)
    → All IsByte (b0 ∷ b1 ∷ b2 ∷ b3 ∷ b4 ∷ b5 ∷ [])
    → tid_issued_at (b0 ∷ b1 ∷ b2 ∷ b3 ∷ b4 ∷ b5 ∷ rest)
      ≡ pos (big_endian 0 (b0 ∷ b1 ∷ b2 ∷ b3 ∷ b4 ∷ b5 ∷ []) / 1000)
unfolding tid_issued_at big_endian
tid_issued_at-big_endian b0 b1 b2 b3 b4 b5 rest (h0, (h1, (h2, (h3, (h4, (h5, _)))))) =
    rw timestamp_ms_lem (as_i64_small _ (omega arith))
