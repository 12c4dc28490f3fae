-- ===== src/Cli/HalfTotal.antt =====
-- The commands of obsigil-cli/src/main.rs on tokens and halves, without a mandate key or without
-- clauses, do not panic.
use obsigil_rs.Prelude.{
  ◌≡◌, ◌≢◌, refl, Option, none, some, length, Result, ok, err, panic, ok_or, map_err, Maybe,
  >>=-ne-panic, ok_or-ne-panic, map_err-ne-panic,
}
use obsigil_rs.Types.{Text, Bytes, Alg, hex}
use obsigil_rs.Errors.{chars}
use obsigil_rs.Aead.Opens.{seal-ne-panic, opened-ne-panic}
use obsigil_rs.Lowlevel as Lowlevel
use obsigil_rs.Verify as Verify
use obsigil_rs.Verify.{Verifier, with_key, with_leeway, verifier_new, with_now}
use obsigil_rs.Verify.Keyless.{
  claims-ne-panic, mandate-ne-panic, manifest-ne-panic, drop_error-parse-ne-panic,
}
use obsigil_rs.Cli.{
  SealArgs, OpenArgs, TokenArg, Stdin, read_input, parse_alg, parse_encoding, resolve_key, Output,
  failed,
}
use obsigil_rs.Cli.Json.{Json, Tools}
use obsigil_rs.Cli.SealOpen.{resolve_key-length}
use obsigil_rs.Cli.Ready.{
  ToolLaws, read_input-ne-panic, parse_alg-ne-panic, parse_encoding-ne-panic, resolve_key-ne-panic,
}
use obsigil_rs.Cli.Commands.{
  print_json, cmd_claims, print_half, cmd_mandate, cmd_manifest, cmd_seal, print_octets,
  open_sealed, cmd_open, cmd_parse,
}

module _ (t : Tools) (l : ToolLaws t) where
  pub print_json-ne-panic : (j : Json) → print_json t j ≢ panic
  print_json-ne-panic j = >>=-ne-panic (t.to_string j) _ (l.to_string_total j) λ s _ q. cc

  print_half-ne-panic : (m : Maybe Text) → m ≢ panic → print_half t m ≢ panic
  print_half-ne-panic (ok s) h = λ q. cc
  print_half-ne-panic (err e) h = λ q. cc
  print_half-ne-panic panic h = λ q. h refl

  pub cmd_mandate-ne-panic :
      (a : TokenArg) (stdin : Stdin) → stdin ≢ panic → cmd_mandate t a stdin ≢ panic
  unfolding cmd_mandate
  cmd_mandate-ne-panic a stdin h =
      >>=-ne-panic (read_input a.token stdin) _ (read_input-ne-panic a.token stdin h)
        λ p _. print_half-ne-panic (Verify.mandate p.0) (mandate-ne-panic p.0)

  pub cmd_manifest-ne-panic :
      (a : TokenArg) (stdin : Stdin) → stdin ≢ panic → cmd_manifest t a stdin ≢ panic
  unfolding cmd_manifest
  cmd_manifest-ne-panic a stdin h =
      >>=-ne-panic (read_input a.token stdin) _ (read_input-ne-panic a.token stdin h)
        λ p _. print_half-ne-panic (Verify.manifest p.0) (manifest-ne-panic p.0)

  shown-ne-panic :
      {A : Type 0} (m : Maybe A) (f : A → Result Text Output)
      → ((a : A) → f a ≢ panic)
      → m ≢ panic
      → (elim m [ ok a ↦ f a | err _ ↦ ok failed | panic ↦ panic ]) ≢ panic
  shown-ne-panic (ok a) f h n = h a
  shown-ne-panic (err e) f h n = λ q. cc
  shown-ne-panic panic f h n = λ q. n refl

  parsed-ne-panic : (token : Text) → Lowlevel.parse token ≢ panic
  unfolding Lowlevel.parse
  parsed-ne-panic token = >>=-ne-panic _ _ (drop_error-parse-ne-panic token) λ p _ q. cc

  sealed-ne-panic :
      (octets key : Bytes) (alg : Alg)
      → length key ≡ 64
      → Lowlevel.seal t.crates octets key alg ≢ panic
  unfolding Lowlevel.seal
  sealed-ne-panic octets key alg n =
      map_err-ne-panic (λ _. tt) _ (seal-ne-panic t.crates octets key alg l.aead l.seals n)

  open_sealed-ne-panic :
      (sealed : Option Bytes) (key : Bytes) (alg : Text)
      → length key ≡ 64
      → open_sealed t sealed key alg ≢ panic
  unfolding Lowlevel.opened
  open_sealed-ne-panic none key alg n = λ q. cc
  open_sealed-ne-panic (some sealed) key text n =
      >>=-ne-panic (parse_alg text) _ (parse_alg-ne-panic text) λ alg _.
        octets (Lowlevel.opened t.crates sealed key alg)
          (opened-ne-panic t.crates sealed key alg l.aead n)
    where
      octets : (m : Maybe Bytes) → m ≢ panic → print_octets t m ≢ panic
      octets (ok b) h = λ q. cc
      octets (err e) h = λ q. cc
      octets panic h = λ q. h refl

  pub cmd_claims-ne-panic :
      (a : TokenArg) (stdin : Stdin) → stdin ≢ panic → cmd_claims t a stdin ≢ panic
  unfolding cmd_claims
  cmd_claims-ne-panic a stdin h =
      >>=-ne-panic (read_input a.token stdin) _ (read_input-ne-panic a.token stdin h) λ p _.
        shown-ne-panic (Verify.claims t.crates t.json_serde p.0) _ (λ m. print_json-ne-panic _)
          (claims-ne-panic t.crates l.aead t.json_serde p.0)

  pub cmd_parse-ne-panic :
      (a : TokenArg) (stdin : Stdin) → stdin ≢ panic → cmd_parse t a stdin ≢ panic
  unfolding cmd_parse
  cmd_parse-ne-panic a stdin h =
      >>=-ne-panic (read_input a.token stdin) _ (read_input-ne-panic a.token stdin h) λ p _.
        shown-ne-panic (Lowlevel.parse p.0) _ (λ m. print_json-ne-panic _) (parsed-ne-panic p.0)

  pub cmd_seal-ne-panic :
      (a : SealArgs) (stdin : Stdin) → stdin ≢ panic → cmd_seal t a stdin ≢ panic
  unfolding cmd_seal
  cmd_seal-ne-panic a stdin h =
      >>=-ne-panic (read_input a.octets stdin) _ (read_input-ne-panic a.octets stdin h) λ p _.
        >>=-ne-panic
          (ok_or (Lowlevel.decode t.crates p.0 hex) (chars "--octets must be lowercase hex")) _
          (ok_or-ne-panic _ _)
          λ octets _.
            >>=-ne-panic (resolve_key t.crates a.key) _ (resolve_key-ne-panic t.crates a.key)
              λ key hk. >>=-ne-panic (parse_alg a.alg) _ (parse_alg-ne-panic a.alg) λ alg _.
                >>=-ne-panic
                  (map_err (λ _. chars "algorithm not enabled in this build")
                    (Lowlevel.seal t.crates octets key alg))
                  _
                  (map_err-ne-panic _ _
                    (sealed-ne-panic octets key alg (resolve_key-length t.crates a.key key hk)))
                  λ sealed _.
                    >>=-ne-panic (parse_encoding a.encoding) _ (parse_encoding-ne-panic a.encoding)
                      λ enc _ q. cc

  pub cmd_open-ne-panic : (a : OpenArgs) → cmd_open t a ≢ panic
  unfolding cmd_open
  cmd_open-ne-panic a =
      >>=-ne-panic (resolve_key t.crates a.key) _ (resolve_key-ne-panic t.crates a.key) λ key hk.
        >>=-ne-panic (parse_encoding a.encoding) _ (parse_encoding-ne-panic a.encoding) λ enc _.
          open_sealed-ne-panic (Lowlevel.decode t.crates a.half enc) key a.alg
            (resolve_key-length t.crates a.key key hk)
