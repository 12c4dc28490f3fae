-- ===== src/Cli/Run.antt =====
-- `run` and `main` of obsigil-cli/src/main.rs.
use obsigil_rs.Prelude.{ℕ, Option, [], ◌++◌, Result, ok, err, panic}
use obsigil_rs.Types.{Text, Bytes}
use obsigil_rs.Errors.{chars}
use obsigil_rs.Reserved.{Uuid}
use obsigil_rs.Cli.{
  Cmd, mint, clauses, claims, mandate, manifest, parse, generate_key, seal, open_half, Output,
  usage, Stdin,
}
use obsigil_rs.Cli.Json.{Tools}
use obsigil_rs.Cli.Commands.{
  cmd_mint, cmd_clauses, cmd_claims, cmd_mandate, cmd_manifest, cmd_generate_key, cmd_seal,
  cmd_open, cmd_parse,
}

-- The system clock, a fresh token id, and 64 random bytes.
pub record Platform : Type 0 where
  pub clock : Option ℕ
  pub fresh : Uuid
  pub random : Bytes

module _ (t : Tools) (p : Platform) where
  unfoldable pub run : Cmd → Stdin → Result Text Output
  run (mint a) stdin = cmd_mint t p.clock p.fresh a stdin
  run (clauses a) stdin = cmd_clauses t p.clock a stdin
  run (claims a) stdin = cmd_claims t a stdin
  run (mandate a) stdin = cmd_mandate t a stdin
  run (manifest a) stdin = cmd_manifest t a stdin
  run generate_key stdin = cmd_generate_key t p.random
  run (seal a) stdin = cmd_seal t a stdin
  run (open_half a) stdin = cmd_open t a
  run (parse a) stdin = cmd_parse t a stdin

  -- A usage error is printed, and ends with the exit code 2.
  unfoldable pub main : Cmd → Stdin → Result ⊥ Output
  main c stdin = elim (run c stdin) [
    | ok o ↦ ok o
    | err msg ↦
        ok (record { stdout = []; stderr = chars "error: " ++ (msg ++ chars "\n"); code = usage })
    | panic ↦ panic
  ]
