-- ===== src/Cli/Commands.antt =====
-- The commands of obsigil-cli/src/main.rs, each with what it prints and its exit code.
use obsigil_rs.Prelude.{
  ℕ, Bool, Option, none, some, List, [], ◌∷◌, ◌++◌, if◌then◌else◌, is_empty, ℤ, Result, ok, err,
  panic, ok_or, map_err, reject_if, ◌>>=◌, ◌>>◌, Maybe,
}
use mathlib.Core.Option.{get_or}
use obsigil_rs.Types.{Text, Bytes, Encoding, b64, hex}
use obsigil_rs.Errors.{Reason, reason, debug_reason, chars, display_key, display_mint}
use obsigil_rs.Key.{MandateKey, from_bytes}
use obsigil_rs.Key as Key
use obsigil_rs.Reserved.{
  Uuid, Clauses, clauses_exp, clauses_tid, clauses_issued_at, clauses_issuer, clauses_audience,
  clauses_subject, clauses_app, claims_issuer, claims_exp, claims_app,
}
use obsigil_rs.Mint.{
  Issuer, issuer_new, with_alg, with_manifest_alg, with_encoding, MintBuilder, mint_clauses,
  with_exp, expires_in, with_tid, with_issuer, with_subject, with_manifest,
}
use obsigil_rs.Mint as Mint
use obsigil_rs.Verify.{Verifier, verifier_new, with_key, with_leeway, with_now}
use obsigil_rs.Verify as Verify
use obsigil_rs.Lowlevel as Lowlevel
use obsigil_rs.Cli.{
  MintArgs, VerifyArgs, SealArgs, OpenArgs, TokenArg, Output, failure, printed, failed, Stdin,
  read_input, parse_alg, parse_encoding, resolve_key,
}
use obsigil_rs.Cli.Json.{
  Json, null, number, string, array, object, no_members, member, strings, optional, Tools,
}

-- An accessor in a function that has errors of its own.
abbrev pub reading {ℓ} : {A : Type ℓ} → Result ⊥ A → Result Text A
reading r = map_err (λ e. absurd e) r

-- `if let Some(..) = .. { b = .. }`
abbrev pub set {ℓ κ} : {A : Type ℓ} {B : Type κ} → Option A → (B → A → B) → B → B
set none f b = b
set (some a) f b = f b a

module _ (t : Tools) where
  -- `MandateKey::from_bytes(resolve_key(..)?).map_err(|e| e.to_string())`
  abbrev pub mandate_key : Text → Result Text MandateKey
  mandate_key s = do bs ← resolve_key t.crates s; map_err display_key (from_bytes bs)

  -- the match on `(a.exp, a.ttl)`
  abbrev pub set_expiry :
      Option ℕ → Option ℤ → Option ℕ → MintBuilder Json → Result Text (MintBuilder Json)
  set_expiry clock (some exp) ttl b = ok (with_exp b exp)
  set_expiry clock none (some ttl) b = ok (expires_in b clock ttl)
  set_expiry clock none none b = err (chars "one of --exp or --ttl is required")

  abbrev pub set_tid : Option Text → MintBuilder Json → Result Text (MintBuilder Json)
  set_tid none b = ok b
  set_tid (some s) b = do
    tid ← map_err (λ e. chars "--tid: " ++ e) (t.parse_str s)
    ok (with_tid b tid)

  abbrev pub set_manifest :
      Option Text → Option Text → Stdin → MintBuilder Json → Result Text (MintBuilder Json)
  set_manifest none fields stdin b = ok b
  set_manifest (some iss) fields stdin b = do
    (text, _) ← read_input (get_or fields (chars "{}")) stdin
    app ← map_err (λ e. chars "--manifest-fields: " ++ e) (t.from_str text)
    ok (with_manifest t.crates t.json_serde b iss app)

  -- The clock and the fresh token id are those that the library would take.
  unfoldable pub cmd_mint : Option ℕ → Uuid → MintArgs → Stdin → Result Text Output
  cmd_mint clock fresh a stdin = do
    key ← mandate_key a.key
    alg ← parse_alg a.alg
    manifest_alg ← parse_alg a.manifest_alg
    encoding ← parse_encoding a.encoding
    let issuer =
        with_encoding (with_manifest_alg (with_alg (issuer_new key) alg) manifest_alg) encoding
    (fields, later) ← read_input (get_or a.fields (chars "{}")) stdin
    app ← map_err (λ e. chars "--fields: " ++ e) (t.from_str fields)
    dated ← set_expiry clock a.exp a.ttl (mint_clauses issuer app)
    named ← set_tid a.tid dated
    let heard = if is_empty a.aud then named else Mint.with_audience named a.aud
    let signed = set a.iss with_issuer (set a.sub with_subject heard)
    shown ← set_manifest a.manifest_iss a.manifest_fields later signed
    token ← map_err display_mint (Mint.mint t.crates t.json_serde fresh shown)
    ok (printed token)

  -- `collect` on results stops at the first error.
  abbrev pub mandate_keys : List Text → Result Text (List MandateKey)
  mandate_keys [] = ok []
  mandate_keys (s ∷ ss) = do k ← mandate_key s; ks ← mandate_keys ss; ok (k ∷ ks)

  -- `for k in &keys { v = v.key(k); }`
  abbrev pub add_keys : Verifier → List MandateKey → Verifier
  add_keys v [] = v
  add_keys v (k ∷ ks) = add_keys (with_key v k) ks

  -- The members stand in the order of the source; `to_string` decides on theirs.
  abbrev pub clauses_json : Clauses Json → Result Text Json
  clauses_json c = do
    exp ← reading (clauses_exp c)
    tid ← reading (clauses_tid c)
    issued_at ← reading (clauses_issued_at c)
    ok (
        object (
          member (chars "exp") (number exp) (
            member (chars "tid") (string (t.uuid_text tid)) (
              member (chars "issued_at") (number issued_at) (
                member (chars "iss") (optional string (clauses_issuer c)) (
                  member (chars "aud") (optional (λ ss. array (strings ss)) (clauses_audience c)) (
                    member (chars "sub") (optional string (clauses_subject c))
                      (member (chars "app") (clauses_app c) no_members))))))))

  -- `serde_json::to_string(&out)`, printed
  abbrev pub print_json : Json → Result Text Output
  print_json out = do text ← t.to_string out; ok (printed text)

  abbrev pub rejected : Bool → Reason → Output
  rejected verbose r = record {
    stdout = [];
    stderr =
        chars "obsigil: token rejected\n"
        ++ (if verbose then chars "reason: " ++ (debug_reason r ++ chars "\n") else []);
    code = failure;
  }

  -- the verifier that the arguments set up
  abbrev pub verifier_of : VerifyArgs → List MandateKey → Verifier
  verifier_of a keys =
      set a.now with_now
        (set a.audience Verify.with_audience (add_keys (with_leeway verifier_new a.leeway) keys))

  unfoldable pub cmd_clauses : Option ℕ → VerifyArgs → Stdin → Result Text Output
  cmd_clauses clock a stdin = do
    (token, _) ← read_input a.token stdin
    reject_if (is_empty a.key) (chars "at least one --key is required")
    keys ← mandate_keys a.key
    elim (Verify.clauses t.crates t.json_serde clock (verifier_of a keys) token) [
      | ok m ↦ clauses_json m >>= print_json
      | err e ↦ ok (rejected a.reason (reason e))
      | panic ↦ panic
    ]

  unfoldable pub cmd_claims : TokenArg → Stdin → Result Text Output
  cmd_claims a stdin = do
    (token, _) ← read_input a.token stdin
    elim (Verify.claims t.crates t.json_serde token) [
      | ok m ↦ print_json (
          object (
            member (chars "iss") (string (claims_issuer m)) (
              member (chars "exp") (optional number (claims_exp m))
                (member (chars "app") (claims_app m) no_members))))
      | err _ ↦ ok failed
      | panic ↦ panic
    ]

  -- `Some(half)` is printed, `None` is a failure.
  abbrev pub print_half : Maybe Text → Result Text Output
  print_half (ok half) = ok (printed half)
  print_half (err _) = ok failed
  print_half panic = panic

  unfoldable pub cmd_mandate : TokenArg → Stdin → Result Text Output
  cmd_mandate a stdin = do (token, _) ← read_input a.token stdin; print_half (Verify.mandate token)

  unfoldable pub cmd_manifest : TokenArg → Stdin → Result Text Output
  cmd_manifest a stdin = do
    (token, _) ← read_input a.token stdin
    print_half (Verify.manifest token)

  -- `random` is what the platform's generator returned.
  unfoldable pub cmd_generate_key : Bytes → Result Text Output
  cmd_generate_key random = ok (printed (Key.generate_key t.crates random))

  unfoldable pub cmd_seal : SealArgs → Stdin → Result Text Output
  cmd_seal a stdin = do
    (octets_hex, _) ← read_input a.octets stdin
    octets ←
        ok_or (Lowlevel.decode t.crates octets_hex hex) (chars "--octets must be lowercase hex")
    key ← resolve_key t.crates a.key
    alg ← parse_alg a.alg
    sealed ←
        map_err (λ _. chars "algorithm not enabled in this build")
          (Lowlevel.seal t.crates octets key alg)
    encoding ← parse_encoding a.encoding
    ok (printed (Lowlevel.encode t.crates sealed encoding))

  -- the octets that were opened, as hex
  abbrev pub print_octets : Maybe Bytes → Result Text Output
  print_octets (ok octets) = ok (printed (Lowlevel.encode t.crates octets hex))
  print_octets (err _) = ok failed
  print_octets panic = panic

  -- what follows the `let .. else`
  abbrev pub open_sealed : Option Bytes → Bytes → Text → Result Text Output
  open_sealed none key alg_text = ok failed
  open_sealed (some sealed) key alg_text = do
    alg ← parse_alg alg_text
    print_octets (Lowlevel.opened t.crates sealed key alg)

  unfoldable pub cmd_open : OpenArgs → Result Text Output
  cmd_open a = do
    key ← resolve_key t.crates a.key
    encoding ← parse_encoding a.encoding
    open_sealed (Lowlevel.decode t.crates a.half encoding) key a.alg

  abbrev pub encoding_name : Encoding → Text
  encoding_name b64 = chars "b64"
  encoding_name hex = chars "hex"

  -- the closure `half` of `cmd_parse`
  abbrev pub half_json : Option Lowlevel.Half → Json
  half_json none = null
  half_json (some h) = object (
      member (chars "alg") (string (h.alg ∷ [])) (member (chars "text") (string h.text) no_members))

  unfoldable pub cmd_parse : TokenArg → Stdin → Result Text Output
  cmd_parse a stdin = do
    (token, _) ← read_input a.token stdin
    elim (Lowlevel.parse token) [
      | ok p ↦ print_json (
          object (
            member (chars "encoding") (string (encoding_name p.encoding)) (
              member (chars "separator") (string (p.separator ∷ [])) (
                member (chars "manifest") (half_json p.manifest)
                  (member (chars "mandate") (half_json p.mandate) no_members)))))
      | err _ ↦ ok failed
      | panic ↦ panic
    ]
