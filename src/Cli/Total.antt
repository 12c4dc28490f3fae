-- ===== src/Cli/Total.antt =====
-- No run of the command-line tool, obsigil-cli/src/main.rs, panics.
use obsigil_rs.Verify as Verify
use obsigil_rs.Cli.Json.{Json}
