-- ===== src/Verify/Laxer.antt =====
-- What the settings of a verifier of verify.rs may change without refusing an accepted token.
use mathlib.Core.List.{append_assoc}
use mathlib.Core.Option.{get_or}
use obsigil_rs.Prelude.{
  ℕ, ◌≤◌, ◌≡◌, ap, ◌∙◌, Option, List, ◌∷◌, ◌++◌, arith, ℤ, ◌≤ℤ◌, ◌<ℤ◌, saturating_add, ok,
  >>=-eq-ok,
}
use obsigil_rs.Types.{Text, Bytes, Alg, NumericDate}
use obsigil_rs.Crates.{Crates, Serde}
use obsigil_rs.Reserved.{MandateFields, Clauses}
use obsigil_rs.Key.{MandateKey}
use obsigil_rs.Verify.{
  Verifier, with_keys, with_now, with_max_decoded_len, text_limit, now_unix, authenticate,
  authenticate_and_decode, clauses,
}
use obsigil_rs.Verify.Trial.{IsFirst, authenticate-eq-ok_iff}
use obsigil_rs.Verify.Accepts.{clauses-eq-ok_iff}

text_limit_mono : (a b : ℕ) → a ≤ b → text_limit a ≤ text_limit b
text_limit_mono a b h = ground arith

le_trans : (a b c : ℕ) → a ≤ b → b ≤ c → a ≤ c
le_trans a b c h k = omega arith

still_before : (a b c : ℤ) → a ≤ℤ b → b <ℤ c → a <ℤ c
still_before a b c h k = omega arith

-- The verifier with keys after its own, a clock of its own and another bound.
abbrev pub relaxed : Verifier → List MandateKey → NumericDate → ℕ → Verifier
relaxed v more now max = with_max_decoded_len (with_now (with_keys v more) now) max

module _ (x : Crates) where
  IsFirst-append :
      (sealed : Bytes) (alg : Alg) (keys more : List MandateKey) (plain : Bytes)
      → IsFirst x sealed alg keys plain
      → IsFirst x sealed alg (keys ++ more) plain
  IsFirst-append sealed alg keys more plain f = record {
    before = f.before;
    key = f.key;
    after = f.after ++ more;
    split = ap (λ ks. ks ++ more) f.split ∙ append_assoc f.before (f.key ∷ f.after) more;
    closed = f.closed;
    opens = f.opens;
  }

  authenticate-relaxed :
      (v : Verifier) (more : List MandateKey) (now : NumericDate) (max : ℕ) (token : Text)
      (plain : Bytes)
      → v.max_decoded_len ≤ max
      → authenticate x v token ≡ ok plain
      → authenticate x (relaxed v more now max) token ≡ ok plain
  authenticate-relaxed v more now max token plain h q =
      let a = (authenticate-eq-ok_iff x v token plain).0 q in
      (authenticate-eq-ok_iff x (relaxed v more now max) token plain).1 (record {
        parsed = a.parsed;
        parses = a.parses;
        half = a.half;
        has_mandate = a.has_mandate;
        alg = a.alg;
        has_alg = a.has_alg;
        short_text = le_trans _ _ _ a.short_text (text_limit_mono v.max_decoded_len max h);
        sealed = a.sealed;
        decodes = a.decodes;
        not_short = a.not_short;
        not_long = le_trans _ _ _ a.not_long h;
        first = IsFirst-append a.sealed a.alg v.keys more plain a.first;
      })

  module _ {T : Type 0} (s : Serde T) where
    decode_relaxed :
        (v : Verifier) (more : List MandateKey) (now : NumericDate) (max : ℕ) (token : Text)
        (f : MandateFields T)
        → v.max_decoded_len ≤ max
        → authenticate_and_decode x s v token ≡ ok f
        → authenticate_and_decode x s (relaxed v more now max) token ≡ ok f
    unfolding authenticate_and_decode
    decode_relaxed v more now max token f h q =
        let (plain, h0, h1) = >>=-eq-ok (authenticate x v token) _ q in
        rw (authenticate-relaxed v more now max token plain h h0) h1

    -- A token that a verifier accepts is accepted, with the same clauses, by the verifier with more
    -- keys after its own, set to a time that is no later, and with a bound that is no smaller.
    pub clauses-relaxed :
        (clock : Option ℕ) (v : Verifier) (more : List MandateKey) (now : NumericDate) (max : ℕ)
        (token : Text) (c : Clauses T)
        → now ≤ℤ get_or v.now (now_unix clock)
        → v.max_decoded_len ≤ max
        → clauses x s clock v token ≡ ok c
        → clauses x s clock (relaxed v more now max) token ≡ ok c
    clauses-relaxed clock v more now max token c early h q =
        let a = (clauses-eq-ok_iff x s clock v token c).0 q in
        (clauses-eq-ok_iff x s clock (relaxed v more now max) token c).1 (record {
          authentic = decode_relaxed v more now max token c.inner h a.authentic;
          tid = a.tid;
          has_tid = a.has_tid;
          version = a.version;
          variant = a.variant;
          exp = a.exp;
          has_exp = a.has_exp;
          not_expired =
              still_before now (get_or v.now (now_unix clock)) (saturating_add a.exp v.leeway) early
                a.not_expired;
          in_audience = a.in_audience;
        })
