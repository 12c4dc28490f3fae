-- ===== src/Verify/Accepts.antt =====
-- Which tokens the verifier of verify.rs accepts.
use mathlib.Core.Option.{get_or}
use mathlib.Core.Path.{subst}
use obsigil_rs.Prelude.{
  ℕ, ◌≡◌, refl, ◌↔◌, Bool, true, false, ◌||◌, Option, none, some, List, [], ◌∷◌, arith, any,
  is_empty, ℤ, ◌<ℤ◌, leb_ℤ, saturating_add, ok, ok_or, reject_if, >>=-eq-ok, reject_if-eq-ok,
  ok_or-eq-ok, ok_injective, map_err-eq-ok,
}
use obsigil_rs.Types.{Text, NumericDate}
use obsigil_rs.Errors.{bad_tid, missing_clause, expired, error_new}
use obsigil_rs.Utf8.{as_bytes}
use obsigil_rs.Crates.{Crates, Serde}
use obsigil_rs.Reserved.{Uuid, Clauses}
use obsigil_rs.Verify.{
  Verifier, now_unix, aud_loop, aud_contains, not_uuid_v7, check_aud, authenticate_and_decode,
  clauses_inner, clauses,
}

module _ (x : Crates) where
  pub aud_loop-eq-any :
      (me : Text) (aud : List Text) (hit : Bool)
      → aud_loop x me aud hit ≡ (hit || any (λ a. x.ct_eq (as_bytes a) (as_bytes me)) aud)
  unfolding aud_loop
  aud_loop-eq-any me [] hit = ground arith
  aud_loop-eq-any me (a ∷ aud) hit =
      ground (arith, aud_loop-eq-any me aud (hit || x.ct_eq (as_bytes a) (as_bytes me)))

  -- The `aud` clause lets the verifier in: it is absent, or names the verifier.
  abbrev pub InAudience : Verifier → Option (List Text) → Type 0
  InAudience v none = Unit {0}
  InAudience v (some aud) = (me : Text) × (v.audience ≡ some me) × (aud_contains x aud me ≡ true)

  pub check_aud-eq-ok :
      (v : Verifier) (aud : Option (List Text)) → check_aud x v aud ≡ ok tt → InAudience v aud
  unfolding check_aud
  check_aud-eq-ok v none h = tt
  check_aud-eq-ok v (some aud) h = ground arith

  nonempty_of_contains :
      (aud : List Text) (me : Text) → aud_contains x aud me ≡ true → is_empty aud ≡ false
  unfolding aud_contains aud_loop
  nonempty_of_contains [] me h = cc
  nonempty_of_contains (a ∷ aud) me h = refl

  pub check_aud_of_InAudience :
      (v : Verifier) (aud : Option (List Text)) → InAudience v aud → check_aud x v aud ≡ ok tt
  unfolding check_aud
  check_aud_of_InAudience v none h = refl
  check_aud_of_InAudience v (some aud) (me, hm, hc) = rw (nonempty_of_contains aud me hc, hm, hc)

  -- What a verified mandate has to satisfy, beside being authentic.
  module _ {T : Type 0} (s : Serde T) where
    pub record IsAccepted (clock : Option ℕ) (v : Verifier) (token : Text) (c : Clauses T)
        : Type 0 where
      pub authentic : authenticate_and_decode x s v token ≡ ok c.inner
      pub tid : Uuid
      pub has_tid : c.inner.tid ≡ some tid
      pub version : x.get_version_num tid ≡ 7
      pub variant : x.is_rfc4122 tid ≡ true
      pub exp : NumericDate
      pub has_exp : c.inner.exp ≡ some exp
      pub not_expired : get_or v.now (now_unix clock) <ℤ saturating_add exp v.leeway
      pub in_audience : InAudience v c.inner.aud

    pub uuid_v7 :
        (tid : Uuid)
        → not_uuid_v7 x tid ≡ false
        → (x.get_version_num tid ≡ 7) × (x.is_rfc4122 tid ≡ true)
    uuid_v7 tid h = ground arith

    pub later_of_leb : (a b : ℤ) → leb_ℤ a b ≡ false → b <ℤ a
    later_of_leb a b h = ground arith

    accepted :
        (clock : Option ℕ) (v : Verifier) (token : Text) (c : Clauses T)
        → clauses_inner x s clock v token ≡ ok c
        → IsAccepted clock v token c
    unfolding clauses_inner
    accepted clock v token c h =
        let (fields, hf, h1) = >>=-eq-ok (authenticate_and_decode x s v token) _ h in
        let (tid, ht, h2) = >>=-eq-ok (ok_or fields.tid bad_tid) _ h1 in
        let (_, hv, h3) = >>=-eq-ok (reject_if (not_uuid_v7 x tid) bad_tid) _ h2 in
        let (exp, he, h4) = >>=-eq-ok (ok_or fields.exp missing_clause) _ h3 in
        let now = get_or v.now (now_unix clock) in
        let late = leb_ℤ (saturating_add exp v.leeway) now in
        let (_, hn, h5) = >>=-eq-ok (reject_if late expired) _ h4 in
        let (_, ha, h6) = >>=-eq-ok (check_aud x v fields.aud) _ h5 in
        subst (IsAccepted clock v token) (ok_injective h6) (record {
          authentic = hf;
          tid = tid;
          has_tid = ok_or-eq-ok fields.tid bad_tid ht;
          version = (uuid_v7 tid (reject_if-eq-ok _ bad_tid hv)).0;
          variant = (uuid_v7 tid (reject_if-eq-ok _ bad_tid hv)).1;
          exp = exp;
          has_exp = ok_or-eq-ok fields.exp missing_clause he;
          not_expired = later_of_leb _ now (reject_if-eq-ok late expired hn);
          in_audience = check_aud-eq-ok v fields.aud ha;
        })

    complete :
        (clock : Option ℕ) (v : Verifier) (token : Text) (c : Clauses T)
        → IsAccepted clock v token c
        → clauses_inner x s clock v token ≡ ok c
    unfolding clauses_inner
    complete clock v token c a = rw (
      a.authentic,
      a.has_tid,
      a.version,
      a.variant,
      a.has_exp,
      in_time _ _ a.not_expired,
      check_aud_of_InAudience v c.inner.aud a.in_audience,
    )
      where
        in_time : (a b : ℤ) → b <ℤ a → leb_ℤ a b ≡ false
        in_time a b h = ground arith

    -- The verifier accepts a token, with given clauses, exactly when the mandate authenticates and
    -- decodes to them, they have a `tid` that is a UUIDv7 and an `exp` that has not passed by the
    -- verifier's clock and leeway, and `aud` is absent or names the verifier.
    pub clauses-eq-ok_iff :
        (clock : Option ℕ) (v : Verifier) (token : Text) (c : Clauses T)
        → (clauses x s clock v token ≡ ok c) ↔ IsAccepted clock v token c
    unfolding clauses
    clauses-eq-ok_iff clock v token c = (
      λ h. accepted clock v token c (map_err-eq-ok error_new _ h),
      λ a. rw (complete clock v token c a),
    )
