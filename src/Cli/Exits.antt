-- ===== src/Cli/Exits.antt =====
-- What a run of obsigil-cli/src/main.rs prints, and on which of its outputs.
use obsigil_rs.Prelude.{
  ℕ, ◌≡◌, refl, Bool, Option, none, some, is_empty, if◌then◌else◌, map_err, reject_if, ok_or, [],
  ◌++◌, Result, ok, err, panic, Maybe, ◌>>=◌, >>=-eq-ok, ok_injective,
}
use mathlib.Core.Path.{subst}
use obsigil_rs.Types.{Text, Bytes, hex}
use obsigil_rs.Errors.{chars, display_mint, Error, reason, Reason}
use obsigil_rs.Reserved.{Uuid, Clauses}
use obsigil_rs.Verify as Verify
use mathlib.Core.Option.{get_or}
use obsigil_rs.Lowlevel as Lowlevel
use obsigil_rs.Mint as Mint
use obsigil_rs.Mint.{
  issuer_new, with_alg, with_manifest_alg, with_encoding, mint_clauses, with_issuer, with_subject,
}
use obsigil_rs.Cli.{
  MintArgs, VerifyArgs, SealArgs, Cmd, mint, clauses, claims, mandate, manifest, parse,
  generate_key, seal, open_half, Stdin, read_input, parse_alg, parse_encoding, resolve_key, Output,
  success, failure, usage, printed, failed,
}
use obsigil_rs.Cli.Json.{Json, Tools}
use obsigil_rs.Cli.Commands.{
  mandate_key, mandate_keys, set, set_expiry, set_tid, set_manifest, verifier_of, clauses_json,
  print_json, rejected, cmd_mint, cmd_clauses, cmd_claims, print_half, cmd_mandate, cmd_manifest,
  cmd_generate_key, cmd_seal, print_octets, open_sealed, cmd_open, cmd_parse,
}
use obsigil_rs.Cli.Run.{Platform, run, main}

-- A success writes to standard output only, anything else to standard error only.
pub data IsClean (o : Output) : Type 0 where
  succeeded : o.code ≡ success → o.stderr ≡ [] → IsClean o
  refused : o.code ≡ failure → o.stdout ≡ [] → IsClean o

Clean : Result Text Output → Type 0
Clean r = (o : Output) → r ≡ ok o → IsClean o

bind-Clean :
    {A : Type 0} (m : Result Text A) (f : A → Result Text Output)
    → ((a : A) → Clean (f a))
    → Clean (m >>= f)
unfolding Clean
bind-Clean m f k o h = let (a, _, e) = >>=-eq-ok m f h in k a o e

printed-Clean : (s : Text) → Clean (ok (printed s))
unfolding Clean
printed-Clean s o h = subst IsClean (ok_injective h) (succeeded refl refl)

failed-Clean : Clean (ok failed)
unfolding Clean
failed-Clean o h = subst IsClean (ok_injective h) (refused refl refl)

panic-Clean : Clean panic
unfolding Clean
panic-Clean o h = cc

-- A result that is shown, or a failure.
shown-Clean :
    {A : Type 0} (m : Maybe A) (f : A → Result Text Output)
    → ((a : A) → Clean (f a))
    → Clean (elim m [ ok a ↦ f a | err _ ↦ ok failed | panic ↦ panic ])
shown-Clean (ok a) f h = h a
shown-Clean (err e) f h = failed-Clean
shown-Clean panic f h = panic-Clean

module _ (t : Tools) where
  print_json-Clean : (j : Json) → Clean (print_json t j)
  print_json-Clean j = bind-Clean (t.to_string j) _ λ s. printed-Clean s

  rejected-Clean : (verbose : Bool) (r : Reason) → Clean (ok (rejected t verbose r))
  unfolding Clean
  rejected-Clean verbose r o h = subst IsClean (ok_injective h) (refused refl refl)

  print_half-Clean : (m : Maybe Text) → Clean (print_half t m)
  print_half-Clean (ok s) = printed-Clean s
  print_half-Clean (err e) = failed-Clean
  print_half-Clean panic = panic-Clean

  print_octets-Clean : (m : Maybe Bytes) → Clean (print_octets t m)
  print_octets-Clean (ok s) = printed-Clean _
  print_octets-Clean (err e) = failed-Clean
  print_octets-Clean panic = panic-Clean

  open_sealed-Clean :
      (m : Option Bytes) (key : Bytes) (alg : Text) → Clean (open_sealed t m key alg)
  open_sealed-Clean none key alg = failed-Clean
  open_sealed-Clean (some s) key alg =
      bind-Clean (parse_alg alg) _ λ a. print_octets-Clean (Lowlevel.opened t.crates s key a)

  cmd_mint-Clean :
      (clock : Option ℕ) (fresh : Uuid) (a : MintArgs) (stdin : Stdin)
      → Clean (cmd_mint t clock fresh a stdin)
  unfolding cmd_mint
  cmd_mint-Clean clock fresh a stdin = bind-Clean (mandate_key t a.key) _ λ key.
      bind-Clean (parse_alg a.alg) _ λ alg. bind-Clean (parse_alg a.manifest_alg) _ λ malg.
        bind-Clean (parse_encoding a.encoding) _ λ enc.
          bind-Clean (read_input (get_or a.fields (chars "{}")) stdin) _ λ p.
            bind-Clean (map_err (λ e. chars "--fields: " ++ e) (t.from_str p.0)) _ λ app.
              let issuer =
                with_encoding (with_manifest_alg (with_alg (issuer_new key) alg) malg) enc in
              bind-Clean (set_expiry t clock a.exp a.ttl (mint_clauses issuer app)) _ λ dated.
                bind-Clean (set_tid t a.tid dated) _ λ named.
                  let heard = if is_empty a.aud then named else Mint.with_audience named a.aud in
                  let signed = set a.iss with_issuer (set a.sub with_subject heard) in
                  bind-Clean (set_manifest t a.manifest_iss a.manifest_fields p.1 signed) _ λ b.
                    bind-Clean (map_err display_mint (Mint.mint t.crates t.json_serde fresh b)) _
                      printed-Clean

  cmd_clauses-Clean :
      (clock : Option ℕ) (a : VerifyArgs) (stdin : Stdin) → Clean (cmd_clauses t clock a stdin)
  unfolding cmd_clauses
  cmd_clauses-Clean clock a stdin = bind-Clean (read_input a.token stdin) _ λ p.
      bind-Clean (reject_if (is_empty a.key) (chars "at least one --key is required")) _ λ _.
        bind-Clean (mandate_keys t a.key) _
          λ ks. go (Verify.clauses t.crates t.json_serde clock (verifier_of t a ks) p.0)
    where
      go :
          (r : Result Error (Clauses Json))
          → Clean (elim r [
            | ok m ↦ clauses_json t m >>= print_json t
            | err e ↦ ok (rejected t a.reason (reason e))
            | panic ↦ panic
          ])
      go (ok m) = bind-Clean (clauses_json t m) _ λ j. print_json-Clean j
      go (err e) = rejected-Clean a.reason (reason e)
      go panic = panic-Clean

  cmd_seal-Clean : (a : SealArgs) (stdin : Stdin) → Clean (cmd_seal t a stdin)
  unfolding cmd_seal
  cmd_seal-Clean a stdin = bind-Clean (read_input a.octets stdin) _ λ p.
      bind-Clean (ok_or (Lowlevel.decode t.crates p.0 hex) (chars "--octets must be lowercase hex"))
        _
        λ octets. bind-Clean (resolve_key t.crates a.key) _ λ key.
          bind-Clean (parse_alg a.alg) _ λ alg.
            bind-Clean
              (map_err (λ _. chars "algorithm not enabled in this build")
                (Lowlevel.seal t.crates octets key alg))
              _ λ sealed. bind-Clean (parse_encoding a.encoding) _ λ enc. printed-Clean _

  run-Clean : (p : Platform) (c : Cmd) (stdin : Stdin) → Clean (run t p c stdin)
  unfolding run cmd_claims cmd_mandate cmd_manifest cmd_generate_key cmd_open cmd_parse
  run-Clean p (mint a) stdin = cmd_mint-Clean p.clock p.fresh a stdin
  run-Clean p (clauses a) stdin = cmd_clauses-Clean p.clock a stdin
  run-Clean p (claims a) stdin =
      bind-Clean (read_input a.token stdin) _
        λ q. shown-Clean (Verify.claims t.crates t.json_serde q.0) _ λ m. print_json-Clean _
  run-Clean p (mandate a) stdin =
      bind-Clean (read_input a.token stdin) _ λ q. print_half-Clean (Verify.mandate q.0)
  run-Clean p (manifest a) stdin =
      bind-Clean (read_input a.token stdin) _ λ q. print_half-Clean (Verify.manifest q.0)
  run-Clean p generate_key stdin = printed-Clean _
  run-Clean p (seal a) stdin = cmd_seal-Clean a stdin
  run-Clean p (open_half a) stdin = bind-Clean (resolve_key t.crates a.key) _ λ key.
      bind-Clean (parse_encoding a.encoding) _
        λ enc. open_sealed-Clean (Lowlevel.decode t.crates a.half enc) key a.alg
  run-Clean p (parse a) stdin =
      bind-Clean (read_input a.token stdin) _
        λ q. shown-Clean (Lowlevel.parse q.0) _ λ m. print_json-Clean _

  -- How a run ends: it succeeds, and writes to standard output only; the command fails, and writes
  -- to standard error only; or the arguments are refused with a message.
  pub data Ends (p : Platform) (c : Cmd) (stdin : Stdin) (o : Output) : Type 0 where
    succeeds : run t p c stdin ≡ ok o → o.code ≡ success → o.stderr ≡ [] → Ends p c stdin o
    fails : run t p c stdin ≡ ok o → o.code ≡ failure → o.stdout ≡ [] → Ends p c stdin o
    misused :
        (msg : Text)
        → run t p c stdin ≡ err msg
        → o.code ≡ usage
        → o.stdout ≡ []
        → o.stderr ≡ chars "error: " ++ (msg ++ chars "\n")
        → Ends p c stdin o

  -- A run of the tool ends in one of three ways: the command succeeds, with exit code 0 and nothing
  -- on standard error; it fails, with exit code 1 and nothing on standard output; or it is a usage
  -- error, with exit code 2, nothing on standard output and the message behind `error: ` on
  -- standard error.
  pub main-Ends :
      (p : Platform) (c : Cmd) (stdin : Stdin) (o : Output)
      → main t p c stdin ≡ ok o
      → Ends p c stdin o
  unfolding main Clean
  main-Ends p c stdin o h = go (run t p c stdin) refl h
    where
      clean : (q : Output) → run t p c stdin ≡ ok q → IsClean q → Ends p c stdin q
      clean q e (succeeded k n) = succeeds e k n
      clean q e (refused k n) = fails e k n

      go :
          (r : Result Text Output)
          → run t p c stdin ≡ r
          → ◌≡◌ {A = Result ⊥ Output}
              (elim r [
                | ok q ↦ ok q
                | err msg ↦ ok (record {
                  stdout = [];
                  stderr = chars "error: " ++ (msg ++ chars "\n");
                  code = usage;
                })
                | panic ↦ panic
              ])
              (ok o)
          → Ends p c stdin o
      go (ok q) e k = subst (Ends p c stdin) (ok_injective k) (clean q e (run-Clean p c stdin q e))
      go (err msg) e k = subst (Ends p c stdin) (ok_injective k) (misused msg e refl refl refl)
      go panic e k = cc
