-- ===== src/Verify/Fails.antt =====
-- Which check of verify.rs the fields of an authentic mandate do not pass.
use obsigil_rs.Prelude.{
  ◌≡◌, refl, sym, inl, inr, true, false, Option, none, some, List, arith, ℤ, ◌≤ℤ◌, ◌<ℤ◌, leb_ℤ,
  saturating_add, Result, ok, err, panic, ok_or, reject_if, ◌>>=◌, ◌>>◌, >>=-eq-err,
  reject_if-eq-err, reject_if-fails, ok_or-none, ok_or-eq-err, reject_if-eq-ok, ok_or-eq-ok,
  Bool-cases,
}
use obsigil_rs.Types.{Text, NumericDate}
use obsigil_rs.Errors.{Reason, bad_tid, missing_clause, expired, audience_mismatch}
use obsigil_rs.Crates.{Crates, Serde}
use obsigil_rs.Reserved.{Uuid, MandateFields, Clauses}
use obsigil_rs.Verify.{Verifier, not_uuid_v7, check_aud}
use obsigil_rs.Verify.Accepts.{InAudience, check_aud_of_InAudience, uuid_v7, later_of_leb}

module _ (x : Crates) where
  abbrev pub IsUuidV7 : Uuid → Type 0
  IsUuidV7 tid = (x.get_version_num tid ≡ 7) × (x.is_rfc4122 tid ≡ true)

  -- A token id that the verifier takes.
  abbrev pub HasTid : {T : Type 0} → MandateFields T → Type 0
  HasTid f = (tid : Uuid) × (f.tid ≡ some tid) × IsUuidV7 tid

  check_aud_fails :
      (v : Verifier) (aud : Option (List Text))
      → ¬ InAudience x v aud
      → check_aud x v aud ≡ err audience_mismatch
  unfolding check_aud
  check_aud_fails v none n = absurd (n tt)
  check_aud_fails v (some aud) n = ground arith

  module _ {T : Type 0} (s : Serde T) where
    -- The check that authentic fields do not pass; they are made in this order.
    pub data Fails (now : NumericDate) (v : Verifier) (f : MandateFields T) (r : Reason)
        : Type 0 where
      no_tid : f.tid ≡ none → r ≡ bad_tid → Fails now v f r
      other_tid : (tid : Uuid) → f.tid ≡ some tid → ¬ IsUuidV7 tid → r ≡ bad_tid → Fails now v f r
      no_exp : HasTid f → f.exp ≡ none → r ≡ missing_clause → Fails now v f r
      too_late :
          (exp : NumericDate)
          → HasTid f
          → f.exp ≡ some exp
          → saturating_add exp v.leeway ≤ℤ now
          → r ≡ expired
          → Fails now v f r
      elsewhere :
          (exp : NumericDate)
          → HasTid f
          → f.exp ≡ some exp
          → now <ℤ saturating_add exp v.leeway
          → ¬ InAudience x v f.aud
          → r ≡ audience_mismatch
          → Fails now v f r

    abbrev pub verified : MandateFields T → Clauses T
    verified f = record { inner = f }

    -- The checks of `clauses_inner` on the fields.
    abbrev pub checks : NumericDate → Verifier → MandateFields T → Result Reason (Clauses T)
    checks now v f = do
      tid ← ok_or f.tid bad_tid
      reject_if (not_uuid_v7 x tid) bad_tid
      exp ← ok_or f.exp missing_clause
      reject_if (leb_ℤ (saturating_add exp v.leeway) now) expired
      check_aud x v f.aud
      ok (verified f)

    not_v7 : (tid : Uuid) → ¬ IsUuidV7 tid → not_uuid_v7 x tid ≡ true
    not_v7 tid n = elim (Bool-cases (not_uuid_v7 x tid)) [
      | inl e ↦ e
      | inr e ↦ absurd (n (uuid_v7 x s tid e))
    ]

    v7_test : (tid : Uuid) → not_uuid_v7 x tid ≡ true → ¬ IsUuidV7 tid
    v7_test tid h (a, b) = ground arith

    le_of_leb : (a b : ℤ) → leb_ℤ a b ≡ true → a ≤ℤ b
    le_of_leb a b h = ground arith

    leb_of_le : (a b : ℤ) → a ≤ℤ b → leb_ℤ a b ≡ true
    leb_of_le a b h = ground arith

    leb_of_lt : (a b : ℤ) → b <ℤ a → leb_ℤ a b ≡ false
    leb_of_lt a b h = ground arith

    pub Fails-complete :
        (now : NumericDate) (v : Verifier) (f : MandateFields T) (r : Reason)
        → Fails now v f r
        → checks now v f ≡ err r
    Fails-complete now v f r (no_tid h e) = rw (h, e)
    Fails-complete now v f r (other_tid tid h n e) = rw (h, not_v7 tid n, e)
    Fails-complete now v f r (no_exp (tid, t, (a, b)) h e) = rw (t, a, b, h, e)
    Fails-complete now v f r (too_late exp (tid, t, (a, b)) h l e) =
        rw (t, a, b, h, leb_of_le _ _ l, e)
    Fails-complete now v f r (elsewhere exp (tid, t, (a, b)) h l n e) =
        rw (t, a, b, h, leb_of_lt _ _ l, check_aud_fails v f.aud n, e)

    aud_sound :
        (v : Verifier) (f : MandateFields T) (r : Reason)
        → (check_aud x v f.aud >> ok (verified f)) ≡ err r
        → (¬ InAudience x v f.aud) × (r ≡ audience_mismatch)
    aud_sound v f r h = go (check_aud x v f.aud) refl h
      where
        go :
            (res : Result Reason (Unit {0}))
            → check_aud x v f.aud ≡ res
            → (res >> ok (verified f)) ≡ err r
            → (¬ InAudience x v f.aud) × (r ≡ audience_mismatch)
        go (ok u) e q = cc
        go (err g) e q =
            let n : ¬ InAudience x v f.aud = (λ a. cc (check_aud_of_InAudience x v f.aud a, e)) in
            (n, cc (check_aud_fails v f.aud n, e, q))
        go panic e q = cc

    dated_sound :
        (now : NumericDate) (v : Verifier) (f : MandateFields T) (r : Reason) (exp : NumericDate)
        → HasTid f
        → f.exp ≡ some exp
        → (reject_if (leb_ℤ (saturating_add exp v.leeway) now) expired
            >> (check_aud x v f.aud >> ok (verified f)))
          ≡ err r
        → Fails now v f r
    dated_sound now v f r exp has he h =
        let late = leb_ℤ (saturating_add exp v.leeway) now in
        elim (>>=-eq-err (reject_if late expired) _ h) [
          | inl e ↦
              too_late exp has he (le_of_leb _ now (reject_if-fails late expired e))
                (sym (reject_if-eq-err late expired e))
          | inr (_, hl, h1) ↦
              let (n, same) = aud_sound v f r h1 in
              elsewhere exp has he (later_of_leb x s _ now (reject_if-eq-ok late expired hl)) n same
        ]

    pub Fails-sound :
        (now : NumericDate) (v : Verifier) (f : MandateFields T) (r : Reason)
        → checks now v f ≡ err r
        → Fails now v f r
    Fails-sound now v f r h = elim (>>=-eq-err (ok_or f.tid bad_tid) _ h) [
      | inl e ↦ no_tid (ok_or-none _ bad_tid e) (sym (ok_or-eq-err _ bad_tid e))
      | inr (tid, ht, h1) ↦
          let t = ok_or-eq-ok f.tid bad_tid ht in
          elim (>>=-eq-err (reject_if (not_uuid_v7 x tid) bad_tid) _ h1) [
            | inl e ↦
                other_tid tid t (v7_test tid (reject_if-fails _ bad_tid e))
                  (sym (reject_if-eq-err _ bad_tid e))
            | inr (_, hv, h2) ↦
                let has : HasTid f = (tid, t, uuid_v7 x s tid (reject_if-eq-ok _ bad_tid hv)) in
                elim (>>=-eq-err (ok_or f.exp missing_clause) _ h2) [
                  | inl e ↦
                      no_exp has (ok_or-none _ missing_clause e)
                        (sym (ok_or-eq-err _ missing_clause e))
                  | inr (exp, he, h3) ↦
                      dated_sound now v f r exp has (ok_or-eq-ok f.exp missing_clause he) h3
                ]
          ]
    ]
