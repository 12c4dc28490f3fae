-- ===== src/Verify/Reasons.antt =====
-- Why the verifier of verify.rs refuses a token: each of its eleven reasons.
use mathlib.Core.Option.{get_or}
use obsigil_rs.Prelude.{ℕ, ◌≡◌, Option, ok}
use obsigil_rs.Types.{Text, Bytes}
use obsigil_rs.Errors.{Reason}
use obsigil_rs.Crates.{Crates, Serde}
use obsigil_rs.Reserved.{MandateFields}
use obsigil_rs.Serial.Reasons.{Unreadable}
use obsigil_rs.Verify.{Verifier, now_unix, authenticate_and_decode}
use obsigil_rs.Verify.Trial.{IsAuthentic}
use obsigil_rs.Verify.Unopened.{Unopened}
use obsigil_rs.Verify.Fails.{Fails}

module _ (x : Crates) {T : Type 0} (s : Serde T) where
  -- The token opens to no mandate, the mandate reads as no fields, or the fields fail a check.
  pub data Refused (clock : Option ℕ) (v : Verifier) (token : Text) (r : Reason) : Type 0 where
    unopened : Unopened x v token r → Refused clock v token r
    unreadable :
        (plain : Bytes)
        → IsAuthentic x v token plain
        → Unreadable x s plain r
        → Refused clock v token r
    failed :
        (f : MandateFields T)
        → authenticate_and_decode x s v token ≡ ok f
        → Fails x s (get_or v.now (now_unix clock)) v f r
        → Refused clock v token r
