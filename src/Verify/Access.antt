-- ===== src/Verify/Access.antt =====
-- What a caller of verify.rs may rely on once a mandate is returned: the accessors of reserved.rs do
-- not panic, and a mandate that is accepted is also returned unchecked.
use obsigil_rs.Prelude.{
  ℕ, ◌≡◌, Option, some, ok, ok_or, >>=-eq-ok, ok_or-eq-ok, ok_injective, map_err-eq-ok,
}
use mathlib.Core.Path.{subst}
use obsigil_rs.Types.{Text, NumericDate, tid_issued_at}
use obsigil_rs.Errors.{bad_tid, missing_clause, error_new}
use obsigil_rs.Crates.{Crates, Serde}
use obsigil_rs.Reserved.{Uuid, Clauses, clauses_exp, clauses_tid, clauses_issued_at}
use obsigil_rs.Verify.{
  Verifier, authenticate_and_decode, clauses, clauses_unchecked_inner, clauses_unchecked,
}
use obsigil_rs.Verify.Accepts.{clauses-eq-ok_iff}

-- The accessors that call `expect` all return.
pub record IsReadable {T : Type 0} (c : Clauses T) : Type 0 where
  pub exp : NumericDate
  pub tid : Uuid
  pub reads_exp : clauses_exp c ≡ ok exp
  pub reads_tid : clauses_tid c ≡ ok tid
  pub reads_issued_at : clauses_issued_at c ≡ ok (tid_issued_at tid)

readable :
    {T : Type 0} (c : Clauses T) (exp : NumericDate) (tid : Uuid)
    → c.inner.exp ≡ some exp
    → c.inner.tid ≡ some tid
    → IsReadable c
readable c exp tid he ht = record {
  exp = exp;
  tid = tid;
  reads_exp = rw he;
  reads_tid = rw ht;
  reads_issued_at = rw ht;
}

module _ (x : Crates) {T : Type 0} (s : Serde T) where
  pub clauses-IsReadable :
      (clock : Option ℕ) (v : Verifier) (token : Text) (c : Clauses T)
      → clauses x s clock v token ≡ ok c
      → IsReadable c
  clauses-IsReadable clock v token c h =
      let a = (clauses-eq-ok_iff x s clock v token c).0 h in
      readable c a.exp a.tid a.has_exp a.has_tid

  -- Of a mandate that is returned, even unchecked, the accessors `exp`, `tid` and `issued_at` do
  -- not panic.
  pub clauses_unchecked-IsReadable :
      (v : Verifier) (token : Text) (c : Clauses T)
      → clauses_unchecked x s v token ≡ ok c
      → IsReadable c
  unfolding clauses_unchecked clauses_unchecked_inner
  clauses_unchecked-IsReadable v token c h =
      let inner = map_err-eq-ok error_new _ h in
      let (fields, hf, h1) = >>=-eq-ok (authenticate_and_decode x s v token) _ inner in
      let (tid, ht, h2) = >>=-eq-ok (ok_or fields.tid bad_tid) _ h1 in
      let (exp, he, h3) = >>=-eq-ok (ok_or fields.exp missing_clause) _ h2 in
      subst IsReadable (ok_injective h3) (
        readable (record { inner = fields }) exp tid (ok_or-eq-ok fields.exp missing_clause he)
          (ok_or-eq-ok fields.tid bad_tid ht))

  -- The checks only refuse: a mandate that the verifier accepts is the one that it returns
  -- unchecked.
  pub clauses_unchecked_of_clauses :
      (clock : Option ℕ) (v : Verifier) (token : Text) (c : Clauses T)
      → clauses x s clock v token ≡ ok c
      → clauses_unchecked x s v token ≡ ok c
  unfolding clauses_unchecked clauses_unchecked_inner
  clauses_unchecked_of_clauses clock v token c h =
      let a = (clauses-eq-ok_iff x s clock v token c).0 h in rw (a.authentic, a.has_tid, a.has_exp)
