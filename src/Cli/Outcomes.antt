-- ===== src/Cli/Outcomes.antt =====
-- When the commands of obsigil-cli/src/main.rs that take a mandate key succeed.
use obsigil_rs.Prelude.{
  ℕ, ◌≡◌, refl, sym, ap, ◌∙◌, ◌⊎◌, inl, inr, false, Option, List, [], ◌∷◌, All, length, is_empty,
  Result, ok, err, panic, reject_if, ◌>>=◌, >>=-eq-ok, map_err-eq-ok, reject_if-eq-ok, ok_injective,
}
use mathlib.Core.Path.{subst}
use obsigil_rs.Types.{Text}
use obsigil_rs.Errors.{Error, reason, malformed, is_manifest_key, chars, display_key}
use obsigil_rs.Key.{MandateKey, from_bytes}
use obsigil_rs.Key.FromHex.{IsSecret, from_bytes_sound}
use obsigil_rs.Reserved.{Uuid, Clauses}
use obsigil_rs.Verify as Verify
use obsigil_rs.Cli.{MintArgs, VerifyArgs, Output, failure, Stdin, read_input, resolve_key}
use obsigil_rs.Cli.Json.{Json, Tools}
use obsigil_rs.Cli.SealOpen.{resolve_key-length}
use obsigil_rs.Cli.Commands.{
  mandate_key, mandate_keys, verifier_of, clauses_json, print_json, rejected, cmd_mint, cmd_clauses,
}

module _ (t : Tools) where
  abbrev pub IsMandateKey : MandateKey → Type 0
  IsMandateKey k = (length k.bytes ≡ 64) × IsSecret k.bytes

  pub mandate_key-IsMandateKey :
      (s : Text) (k : MandateKey) → mandate_key t s ≡ ok k → IsMandateKey k
  mandate_key-IsMandateKey s k h =
      let (bs, h0, h1) = >>=-eq-ok (resolve_key t.crates s) _ h in
      let (secret, e) = from_bytes_sound bs k (map_err-eq-ok display_key (from_bytes bs) h1) in
      subst IsMandateKey (sym e) (resolve_key-length t.crates s bs h0, secret)

  pub mandate_keys-All :
      (ss : List Text) (ks : List MandateKey) → mandate_keys t ss ≡ ok ks → All IsMandateKey ks
  mandate_keys-All [] ks h = subst (All IsMandateKey) (ok_injective h) tt
  mandate_keys-All (s ∷ ss) ks h =
      let (k, h0, h1) = >>=-eq-ok (mandate_key t s) _ h in
      let (rest, h2, h3) = >>=-eq-ok (mandate_keys t ss) _ h1 in
      subst (All IsMandateKey) (ok_injective h3)
        (mandate_key-IsMandateKey s k h0, mandate_keys-All ss rest h2)

  -- The token and the keys that the arguments name.
  pub record IsAsked (a : VerifyArgs) (stdin : Stdin) (token : Text) (keys : List MandateKey)
      : Type 0 where
    pub later : Stdin
    pub reads : read_input a.token stdin ≡ ok (token, later)
    pub some_key : is_empty a.key ≡ false
    pub resolves : mandate_keys t a.key ≡ ok keys
    pub secret : All IsMandateKey keys

  -- What the command makes of the verifier's answer.
  abbrev pub IsAnswer : Option ℕ → VerifyArgs → List MandateKey → Text → Output → Type 0
  IsAnswer clock a keys token o =
      ((c : Clauses Json) × (Verify.clauses t.crates t.json_serde clock (verifier_of t a keys) token
          ≡ ok c)
        × ((clauses_json t c >>= print_json t) ≡ ok o))
      ⊎ ((e : Error) × (Verify.clauses t.crates t.json_serde clock (verifier_of t a keys) token
            ≡ err e)
          × (o ≡ rejected t a.reason (reason e)))

  -- If `obsigil clauses` ends without a usage error, it read a token and at least one key, each of
  -- 64 bytes and neither the public manifest key nor all zero, and either the verifier that the
  -- arguments set up accepted the token and the output is its clauses, printed, or the verifier
  -- refused it and the output is the rejection.
  pub cmd_clauses-outcome :
      (clock : Option ℕ) (a : VerifyArgs) (stdin : Stdin) (o : Output)
      → cmd_clauses t clock a stdin ≡ ok o
      → (token : Text) × (keys : List MandateKey) × IsAsked a stdin token keys
        × IsAnswer clock a keys token o
  unfolding cmd_clauses
  cmd_clauses-outcome clock a stdin o h =
      let ((token, later), h0, h1) = >>=-eq-ok (read_input a.token stdin) _ h in
      let none_given = chars "at least one --key is required" in
      let (_, h2, h3) = >>=-eq-ok (reject_if (is_empty a.key) none_given) _ h1 in
      let (keys, h4, h5) = >>=-eq-ok (mandate_keys t a.key) _ h3 in
      (
        token,
        keys,
        record {
          later = later;
          reads = h0;
          some_key = reject_if-eq-ok (is_empty a.key) none_given h2;
          resolves = h4;
          secret = mandate_keys-All a.key keys h4;
        },
        answer keys token (Verify.clauses t.crates t.json_serde clock (verifier_of t a keys) token)
            refl h5,
      )
    where
      answer :
          (keys : List MandateKey) (token : Text) (r : Result Error (Clauses Json))
          → Verify.clauses t.crates t.json_serde clock (verifier_of t a keys) token ≡ r
          → (elim r [
            | ok m ↦ clauses_json t m >>= print_json t
            | err e ↦ ok (rejected t a.reason (reason e))
            | panic ↦ panic
          ])
            ≡ ok o
          → IsAnswer clock a keys token o
      answer keys token (ok m) e q = inl (m, e, q)
      answer keys token (err f) e q = inr (f, e, sym (ok_injective q))
      answer keys token panic e q = cc

  -- `obsigil mint` with the keyword `manifest` as its key is the usage error that names the public
  -- manifest key, whatever the other arguments are.
  pub cmd_mint-manifest_key :
      (clock : Option ℕ) (fresh : Uuid) (a : MintArgs) (stdin : Stdin)
      → a.key ≡ chars "manifest"
      → cmd_mint t clock fresh a stdin ≡ err (display_key is_manifest_key)
  unfolding cmd_mint resolve_key from_bytes
  cmd_mint-manifest_key clock fresh a stdin h = rw h

  cmd_clauses-rejected :
      (clock : Option ℕ) (a : VerifyArgs) (stdin : Stdin) (o : Output)
      → cmd_clauses t clock a stdin ≡ ok o
      → a.reason ≡ false
      → o.code ≡ failure
      → o ≡ rejected t false malformed
  cmd_clauses-rejected clock a stdin o h quiet f =
      let (token, keys, _, answer) = cmd_clauses-outcome clock a stdin o h in
      elim answer [
        | inl (c, _, e) ↦
            let (json, _, e1) = >>=-eq-ok (clauses_json t c) _ e in
            let (text, _, e2) = >>=-eq-ok (t.to_string json) _ e1 in cc (e2, f)
        | inr (r, _, e) ↦ e ∙ ap (λ b. rejected t b (reason r)) quiet
      ]

  -- Without `--reason`, all rejections by `obsigil clauses` look the same: the outputs of two runs
  -- that end with the exit code of a failure are equal, whatever the tokens, the keys, the other
  -- arguments and the causes are.
  pub cmd_clauses-uniform :
      (clock later : Option ℕ) (a b : VerifyArgs) (stdin other : Stdin) (o p : Output)
      → cmd_clauses t clock a stdin ≡ ok o
      → cmd_clauses t later b other ≡ ok p
      → a.reason ≡ false
      → b.reason ≡ false
      → o.code ≡ failure
      → p.code ≡ failure
      → o ≡ p
  cmd_clauses-uniform clock later a b stdin other o p h k qa qb fo fp =
      cmd_clauses-rejected clock a stdin o h qa fo
      ∙ sym (cmd_clauses-rejected later b other p k qb fp)
