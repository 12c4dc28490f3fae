-- ===== src/Verify/Window.antt =====
-- The window that verify.rs leaves a token after its `exp`: at most 60 seconds.
use obsigil_rs.Prelude.{
  ℕ, ◌≤◌, ◌≡◌, true, Option, some, arith, ltb, if◌then◌else◌, ℤ, pos, ◌+ℤ◌, ◌<ℤ◌, in_i64,
  saturating_add, ok, >>=-eq-ok,
}
use mathlib.Core.Option.{get_or}
use mathlib.Core.Path.{subst}
use obsigil_rs.Types.{Text, NumericDate}
use obsigil_rs.Crates.{Crates, Serde}
use obsigil_rs.Reserved.{MandateFields, Clauses}
use obsigil_rs.Serial.Typed.{IsDate, from_mandate_plaintext-typed}
use obsigil_rs.Verify.{
  Verifier, with_leeway, now_unix, authenticate, authenticate_and_decode, clauses,
}
use obsigil_rs.Verify.Accepts.{clauses-eq-ok_iff}

-- A saturating sum with a small leeway is at most the sum.
pub window :
    (now exp : ℤ) (leeway : ℕ)
    → in_i64 exp ≡ true
    → leeway ≤ 60
    → now <ℤ saturating_add exp (pos leeway)
    → now <ℤ exp +ℤ pos 60
window now exp leeway h k n = ground arith

pub small_leeway : (secs : ℕ) → (if ltb secs 60 then secs else 60) ≤ 60
small_leeway secs = ground arith

module _ (x : Crates) {T : Type 0} (s : Serde T) where
  pub authentic-in_i64 :
      (v : Verifier) (token : Text) (f : MandateFields T) (exp : NumericDate)
      → authenticate_and_decode x s v token ≡ ok f
      → f.exp ≡ some exp
      → in_i64 exp ≡ true
  unfolding authenticate_and_decode
  authentic-in_i64 v token f exp h e =
      let (plain, h0, h1) = >>=-eq-ok (authenticate x v token) _ h in
      subst IsDate e (from_mandate_plaintext-typed x s plain f h1).0

  -- Whatever leeway a verifier is set to, a mandate that it accepts has an `exp`, and the time is
  -- less than 60 seconds after it.
  pub clauses-with_leeway :
      (clock : Option ℕ) (v : Verifier) (secs : ℕ) (token : Text) (c : Clauses T)
      → clauses x s clock (with_leeway v secs) token ≡ ok c
      → (exp : NumericDate) × (c.inner.exp ≡ some exp)
        × (get_or v.now (now_unix clock) <ℤ exp +ℤ pos 60)
  clauses-with_leeway clock v secs token c h =
      let v' = with_leeway v secs in
      let a = (clauses-eq-ok_iff x s clock v' token c).0 h in
      (
        a.exp,
        a.has_exp,
        window (get_or v.now (now_unix clock)) a.exp (if ltb secs 60 then secs else 60)
            (authentic-in_i64 v' token c.inner a.exp a.authentic a.has_exp) (small_leeway secs)
            a.not_expired,
      )
