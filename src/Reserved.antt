-- ===== src/Reserved.antt =====
-- obsigil/src/reserved.rs: the reserved fields of a half, and what a verified mandate and an opened
-- manifest let the caller read.
use obsigil_rs.Prelude.{Option, List, Result, ok, expect, ◌>>=◌}
use obsigil_rs.Types.{Text, Bytes, NumericDate, tid_issued_at}

-- A `Uuid` is its 16 bytes.
abbrev pub Uuid : Type 0
Uuid = Bytes

-- `NoApp {}`
pub data NoApp : Type 0 where
  no_app : NoApp

pub record MandateFields (T : Type 0) : Type 0 where
  pub exp : Option NumericDate
  pub tid : Option Uuid
  pub iss : Option Text
  pub aud : Option (List Text)
  pub sub : Option Text
  pub app : T

pub record Clauses (T : Type 0) : Type 0 where
  pub inner : MandateFields T

pub record ManifestFields (T : Type 0) : Type 0 where
  pub iss : Text
  pub exp : Option NumericDate
  pub app : T

pub record Claims (T : Type 0) : Type 0 where
  pub inner : ManifestFields T

-- The accessors of `Clauses` that call `expect`: a panic is the one way in which they fail.
module _ {T : Type 0} (c : Clauses T) where
  abbrev pub clauses_exp : Result ⊥ NumericDate
  clauses_exp = expect c.inner.exp

  abbrev pub clauses_tid : Result ⊥ Uuid
  clauses_tid = expect c.inner.tid

  abbrev pub clauses_issued_at : Result ⊥ NumericDate
  clauses_issued_at = do tid ← clauses_tid; ok (tid_issued_at tid)

  abbrev pub clauses_issuer : Option Text
  clauses_issuer = c.inner.iss

  abbrev pub clauses_audience : Option (List Text)
  clauses_audience = c.inner.aud

  abbrev pub clauses_subject : Option Text
  clauses_subject = c.inner.sub

  abbrev pub clauses_app : T
  clauses_app = c.inner.app

module _ {T : Type 0} (c : Claims T) where
  abbrev pub claims_issuer : Text
  claims_issuer = c.inner.iss

  abbrev pub claims_exp : Option NumericDate
  claims_exp = c.inner.exp

  abbrev pub claims_app : T
  claims_app = c.inner.app
