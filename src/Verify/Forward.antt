-- ===== src/Verify/Forward.antt =====
-- The halves that verify.rs carves out of a token, and what the verifier reads of a token at all.
use obsigil_rs.Prelude.{
  ℕ, ◌≡◌, refl, ap, Option, none, some, [], ok, is_none, lift_option, drop_error, >>=-eq-ok,
  ok_injective, map_err-eq-ok, ok_or-eq-ok,
}
use mathlib.Core.Path.{subst}
use obsigil_rs.Types.{Text}
use obsigil_rs.Token.{Half, Parsed, parse}
use obsigil_rs.Token.Grammar.{IsToken, parse-render}
use obsigil_rs.Token.Accepts.{parse-eq-ok_iff}
use obsigil_rs.Crates.{Crates, Serde}
use obsigil_rs.Verify.{
  Verifier, authenticate, authenticate_and_decode, clauses_inner, clauses, mandate,
}

-- The parts of a token that hold only its mandate, or only its manifest.
abbrev pub mandate_only : Parsed → Parsed
mandate_only p = record p { manifest = none }

abbrev pub manifest_only : Parsed → Parsed
manifest_only p = record p { mandate = none; mandate_part = [] }

mandate_only-IsToken :
    (p : Parsed) (h : Half) → IsToken p → p.mandate ≡ some h → IsToken (mandate_only p)
mandate_only-IsToken p h t e = record {
  sep = t.sep;
  manifest = tt;
  mandate = t.mandate;
  one_half = ap is_none e;
  part = t.part;
}

-- A token whose mandate half was carved out is that half alone.
pub parse-mandate :
    (token half : Text)
    → mandate token ≡ ok half
    → (p : Parsed) × (parse token ≡ ok p) × (parse half ≡ ok (mandate_only p))
unfolding mandate
parse-mandate token half h =
    let (p, hp, h1) = >>=-eq-ok (drop_error (parse token)) _ h in
    let (m, hm, h2) = >>=-eq-ok (lift_option p.mandate) _ h1 in
    let parsed = map_err-eq-ok _ (parse token) hp in
    let t = ((parse-eq-ok_iff token p).0 parsed).0 in
    let has = ok_or-eq-ok p.mandate tt hm in
    (
      p,
      parsed,
      subst (λ u. parse u ≡ ok (mandate_only p)) (ok_injective h2)
          (parse-render (mandate_only p) (mandate_only-IsToken p m t has)),
    )

module _ (x : Crates) where
  -- The verifier reads the encoding and the mandate half, and nothing else.
  pub authenticate_reads :
      (v : Verifier) (t u : Text) (p q : Parsed)
      → parse t ≡ ok p
      → parse u ≡ ok q
      → p.encoding ≡ q.encoding
      → p.mandate ≡ q.mandate
      → authenticate x v t ≡ authenticate x v u
  unfolding authenticate
  authenticate_reads v t u p q hp hq he hm = rw (hp, hq, he, hm)

  module _ {T : Type 0} (s : Serde T) where
    -- Two texts that parse with the same encoding and the same mandate half get the same answer
    -- from every verifier, whatever their manifests are.
    pub clauses_ignores_manifest :
        (clock : Option ℕ) (v : Verifier) (t u : Text) (p q : Parsed)
        → parse t ≡ ok p
        → parse u ≡ ok q
        → p.encoding ≡ q.encoding
        → p.mandate ≡ q.mandate
        → clauses x s clock v t ≡ clauses x s clock v u
    unfolding clauses clauses_inner authenticate_and_decode
    clauses_ignores_manifest clock v t u p q hp hq he hm =
        rw (authenticate_reads v t u p q hp hq he hm)

    -- The mandate half that is carved out of a token gets from every verifier the answer that the
    -- whole token gets.
    pub clauses-mandate :
        (clock : Option ℕ) (v : Verifier) (token half : Text)
        → mandate token ≡ ok half
        → clauses x s clock v half ≡ clauses x s clock v token
    clauses-mandate clock v token half h =
        let (p, hp, hq) = parse-mandate token half h in
        clauses_ignores_manifest clock v half token (mandate_only p) p hq hp refl refl
