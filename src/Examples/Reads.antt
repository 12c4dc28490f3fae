-- ===== src/Examples/Reads.antt =====
-- The properties of the verifier, at the sample token.
use obsigil_rs.Prelude.{[], ◌∷◌, arith, ◌≡◌, refl, none, some, ◌++◌, pos, ok}
use obsigil_rs.Errors.{chars}
use obsigil_rs.Token.{Parsed, parse}
use obsigil_rs.Verify.{Verifier, authenticate, clauses, clauses_unchecked, claims, with_leeway}
use obsigil_rs.Verify.Accepts.{IsAccepted, clauses-eq-ok_iff}
use obsigil_rs.Verify.Trial.{IsAuthentic, authenticate-eq-ok_iff}
use obsigil_rs.Verify.Forward.{clauses_ignores_manifest, clauses-mandate}
use obsigil_rs.Verify.Display.{claims-manifest}
use obsigil_rs.Verify.Laxer.{relaxed, clauses-relaxed}
use obsigil_rs.Verify.Audience.{Names, aud_contains-Names}
use obsigil_rs.Verify.Access.{clauses_unchecked_of_clauses}
use obsigil_rs.Examples.Sample.{sample, roles, sample_key, sample_verifier}
use obsigil_rs.Examples.Computed.{
  sample_token, sample_half, sample_manifest_half, sample_mandate_text, sample_parsed,
  sample_clauses, sample_plain, sample_parse, sample_mandate, sample_manifest, sample-authenticate,
  sample_verified,
}

clauses-eq-ok_iff_example : IsAccepted sample roles none sample_verifier sample_token sample_clauses
clauses-eq-ok_iff_example =
    (clauses-eq-ok_iff sample roles none sample_verifier sample_token sample_clauses).0
      sample_verified

authenticate-eq-ok_iff_example : IsAuthentic sample sample_verifier sample_token sample_plain
authenticate-eq-ok_iff_example =
    (authenticate-eq-ok_iff sample sample_verifier sample_token sample_plain).0 sample-authenticate

-- The same mandate with a manifest that nobody sealed.
abbrev forged : Parsed
forged = record sample_parsed { manifest = some (record { alg_code = b'9'; text = chars "zz" }) }

forged-parse : parse (chars "zz9~0" ++ sample_mandate_text) ≡ ok forged
unfolding parse
forged-parse = refl

clauses_ignores_manifest_example :
    clauses sample roles none sample_verifier (chars "zz9~0" ++ sample_mandate_text)
    ≡ clauses sample roles none sample_verifier sample_token
clauses_ignores_manifest_example =
    clauses_ignores_manifest sample roles none sample_verifier
      (chars "zz9~0" ++ sample_mandate_text) sample_token forged sample_parsed forged-parse
      sample_parse refl refl

clauses-mandate_example :
    clauses sample roles none sample_verifier sample_half
    ≡ clauses sample roles none sample_verifier sample_token
clauses-mandate_example =
    clauses-mandate sample roles none sample_verifier sample_token sample_half sample_mandate

claims-manifest_example :
    claims sample roles sample_manifest_half ≡ claims sample roles sample_token
claims-manifest_example =
    claims-manifest sample roles sample_token sample_manifest_half sample_manifest

clauses-relaxed_example :
    clauses sample roles none
      (relaxed sample_verifier (sample_key ∷ []) (pos 1704060000) 70000)
      sample_token
    ≡ ok sample_clauses
clauses-relaxed_example =
    clauses-relaxed sample roles none sample_verifier (sample_key ∷ []) (pos 1704060000) 70000
      sample_token sample_clauses (omega arith) (omega arith) sample_verified

clauses_unchecked_of_clauses_example :
    clauses_unchecked sample roles sample_verifier sample_token ≡ ok sample_clauses
clauses_unchecked_of_clauses_example =
    clauses_unchecked_of_clauses sample roles none sample_verifier sample_token sample_clauses
      sample_verified

aud_contains-Names_example : Names (chars "api") (chars "wéb" ∷ chars "api" ∷ [])
aud_contains-Names_example =
    (aud_contains-Names sample (λ a b. refl) (chars "wéb" ∷ chars "api" ∷ []) (chars "api")
        (
          (omega arith, (omega arith, (omega arith, tt))),
          ((omega arith, (omega arith, (omega arith, tt))), tt),
        )
        (omega arith, (omega arith, (omega arith, tt)))).0
      (unfold obsigil_rs.Verify.aud_contains obsigil_rs.Utf8.as_bytes in refl)
