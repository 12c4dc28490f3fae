-- ===== src/Verify/Deadline.antt =====
-- What time does to the answer of verify.rs: an accepted token is accepted until its deadline, and
-- from then on refused as expired.
use obsigil_rs.Prelude.{
  ℕ, ◌≤◌, ◌≡◌, true, false, some, Option, arith, ℤ, pos, ◌+ℤ◌, ◌≤ℤ◌, ◌<ℤ◌, leb_ℤ, in_i64,
  saturating_add, if◌then◌else◌, ok, err, refl, sym, Bool, map_err, reject_if, ◌>>◌,
}
use mathlib.Core.Path.{subst}
use obsigil_rs.Types.{Text, NumericDate}
use obsigil_rs.Errors.{error_new, expired}
use obsigil_rs.Crates.{Crates, Serde}
use obsigil_rs.Reserved.{Clauses}
use obsigil_rs.Verify.{
  Verifier, with_now, authenticate, authenticate_and_decode, clauses_inner, clauses,
}
use obsigil_rs.Verify.Accepts.{IsAccepted, check_aud_of_InAudience, clauses-eq-ok_iff}
use obsigil_rs.Verify.Window.{authentic-in_i64}
use obsigil_rs.Verify.Setup.{IsBuilt, IsBuilt-IsSetUp}

before_deadline :
    (t exp : ℤ) (leeway : ℕ)
    → in_i64 exp ≡ true
    → t <ℤ exp
    → leb_ℤ (saturating_add exp (pos leeway)) t ≡ false
before_deadline t exp leeway h k = ground arith

after_deadline :
    (t exp : ℤ) (leeway : ℕ)
    → in_i64 exp ≡ true
    → leeway ≤ 60
    → exp +ℤ pos 60 ≤ℤ t
    → leb_ℤ (saturating_add exp (pos leeway)) t ≡ true
after_deadline t exp leeway h k l = ground arith

module _ (x : Crates) {T : Type 0} (s : Serde T) where
  decode-with_now :
      (v : Verifier) (t : NumericDate) (token : Text)
      → authenticate_and_decode x s (with_now v t) token ≡ authenticate_and_decode x s v token
  unfolding authenticate_and_decode authenticate
  decode-with_now v t token = refl

  -- An accepted token, seen at another time.
  pub clauses-with_now :
      (clock : Option ℕ) (v : Verifier) (token : Text) (c : Clauses T)
      (a : IsAccepted x s clock v token c) (t : NumericDate)
      → clauses x s clock (with_now v t) token
        ≡ (if leb_ℤ (saturating_add a.exp v.leeway) t then err (error_new expired) else ok c)
  unfolding clauses clauses_inner
  clauses-with_now clock v token c a t =
      rw
        (
          decode-with_now v t token,
          a.authentic,
          a.has_tid,
          a.version,
          a.variant,
          a.has_exp,
          check_aud_of_InAudience x (with_now v t) c.inner.aud a.in_audience,
        )
        (branch (leb_ℤ (saturating_add a.exp v.leeway) t) _)
    where
      branch :
          (late : Bool) (d : Clauses T)
          → map_err error_new (reject_if late expired >> ok d)
            ≡ (if late then err (error_new expired) else ok d)
      branch true d = refl
      branch false d = refl

  -- A token that a verifier made by the builder methods accepts has an `exp`; with its time set to
  -- any date before the `exp` the verifier accepts it with the same clauses, and with its time set
  -- to any date from 60 seconds after the `exp` on it refuses it as expired.
  pub clauses_expire :
      (clock : Option ℕ) (v : Verifier) (token : Text) (c : Clauses T)
      → IsBuilt x v
      → clauses x s clock v token ≡ ok c
      → (exp : NumericDate) × (c.inner.exp ≡ some exp)
        × ((t : NumericDate) → t <ℤ exp → clauses x s clock (with_now v t) token ≡ ok c)
        × ((t : NumericDate)
            → exp +ℤ pos 60 ≤ℤ t
            → clauses x s clock (with_now v t) token ≡ err (error_new expired))
  clauses_expire clock v token c b h =
      let a = (clauses-eq-ok_iff x s clock v token c).0 h in
      let u = IsBuilt-IsSetUp x b in
      let fits = authentic-in_i64 x s v token c.inner a.exp a.authentic a.has_exp in
      (
        a.exp,
        a.has_exp,
        λ t k. at a t (
            subst (λ n. leb_ℤ (saturating_add a.exp n) t ≡ false) (sym u.is_seconds)
              (before_deadline t a.exp u.seconds fits k)),
        λ t k. at a t (
            subst (λ n. leb_ℤ (saturating_add a.exp n) t ≡ true) (sym u.is_seconds)
              (after_deadline t a.exp u.seconds fits u.clamped k)),
      )
    where
      at :
          (a : IsAccepted x s clock v token c) (t : NumericDate) {late : Bool}
          → leb_ℤ (saturating_add a.exp v.leeway) t ≡ late
          → clauses x s clock (with_now v t) token
            ≡ (if late then err (error_new expired) else ok c)
      at a t e = rw (← e) (clauses-with_now clock v token c a t)
