-- ===== src/Cli/MintTotal.antt =====
-- The command `obsigil mint` of obsigil-cli/src/main.rs does not panic.
use obsigil_rs.Prelude.{
  ℕ, ◌≢◌, ◌++◌, Option, is_empty, if◌then◌else◌, Result, ok, panic, map_err, ◌>>=◌, >>=-ne-panic,
  map_err-ne-panic,
}
use mathlib.Core.Option.{get_or}
use obsigil_rs.Types.{Text}
use obsigil_rs.Errors.{chars, display_mint}
use obsigil_rs.Reserved.{Uuid}
use obsigil_rs.Mint.{
  MintBuilder, Issuer, issuer_new, with_alg, with_manifest_alg, with_encoding, mint_clauses,
  with_issuer, with_subject,
}
use obsigil_rs.Mint as Mint
use obsigil_rs.Mint.Total.{mint-ne-panic}
use obsigil_rs.Cli.{MintArgs, Stdin, read_input, parse_alg, parse_encoding, Output, printed}
use obsigil_rs.Cli.Json.{Json, Tools}
use obsigil_rs.Cli.Outcomes.{mandate_key-IsMandateKey}
use obsigil_rs.Cli.Ready.{
  ToolLaws, read_input-ne-panic, read_input-later, parse_alg-ne-panic, parse_encoding-ne-panic,
  mandate_key-ne-panic, IsReady, set_expiry-IsReady, set_tid-IsReady, set_aud-IsReady,
  set_texts-IsReady, set_manifest-IsReady, set_expiry-ne-panic, set_tid-ne-panic,
  set_manifest-ne-panic,
}
use obsigil_rs.Cli.Commands.{mandate_key, set, set_expiry, set_tid, set_manifest, cmd_mint}

module _ (t : Tools) (l : ToolLaws t) where
  -- What `cmd_mint` does once it has the builder.
  abbrev mint_app : Option ℕ → Uuid → MintArgs → Stdin → MintBuilder Json → Result Text Output
  mint_app clock fresh a later b = do
    dated ← set_expiry t clock a.exp a.ttl b
    named ← set_tid t a.tid dated
    let heard = if is_empty a.aud then named else Mint.with_audience named a.aud
    let signed = set a.iss with_issuer (set a.sub with_subject heard)
    shown ← set_manifest t a.manifest_iss a.manifest_fields later signed
    token ← map_err display_mint (Mint.mint t.crates t.json_serde fresh shown)
    ok (printed token)

  mint_app-ne-panic :
      (clock : Option ℕ) (fresh : Uuid) (a : MintArgs) (later : Stdin) (b : MintBuilder Json)
      → IsReady t l b
      → later ≢ panic
      → mint_app clock fresh a later b ≢ panic
  mint_app-ne-panic clock fresh a later b r h =
      >>=-ne-panic (set_expiry t clock a.exp a.ttl b) _
        (set_expiry-ne-panic t l clock a.exp a.ttl b)
        λ dated hd.
          >>=-ne-panic (set_tid t a.tid dated) _ (set_tid-ne-panic t l a.tid dated) λ named hn.
            let heard = if is_empty a.aud then named else Mint.with_audience named a.aud in
            let signed = set a.iss with_issuer (set a.sub with_subject heard) in
            let ready = set_texts-IsReady t l a.iss a.sub heard (
              set_aud-IsReady t l a.aud named (
                set_tid-IsReady t l a.tid dated named
                  (set_expiry-IsReady t l clock a.exp a.ttl b dated r hd) hn)) in
            >>=-ne-panic (set_manifest t a.manifest_iss a.manifest_fields later signed) _
              (set_manifest-ne-panic t l a.manifest_iss a.manifest_fields later signed h)
              λ shown hs.
                let (n, calm) =
                  set_manifest-IsReady t l a.manifest_iss a.manifest_fields later signed shown ready
                    hs in
                >>=-ne-panic (map_err display_mint (Mint.mint t.crates t.json_serde fresh shown)) _
                  (map_err-ne-panic display_mint _ (
                    mint-ne-panic t.crates l.aead l.seals t.json_serde fresh shown n
                      (l.serialized_total shown.app) calm))
                  λ token _ q. cc

  pub cmd_mint-ne-panic :
      (clock : Option ℕ) (fresh : Uuid) (a : MintArgs) (stdin : Stdin)
      → stdin ≢ panic
      → cmd_mint t clock fresh a stdin ≢ panic
  unfolding cmd_mint
  cmd_mint-ne-panic clock fresh a stdin h =
      >>=-ne-panic (mandate_key t a.key) _ (mandate_key-ne-panic t l a.key) λ key hk.
        >>=-ne-panic (parse_alg a.alg) _ (parse_alg-ne-panic a.alg) λ alg _.
          >>=-ne-panic (parse_alg a.manifest_alg) _ (parse_alg-ne-panic a.manifest_alg) λ malg _.
            >>=-ne-panic (parse_encoding a.encoding) _ (parse_encoding-ne-panic a.encoding) λ enc _.
              >>=-ne-panic (read_input (get_or a.fields (chars "{}")) stdin) _
                (read_input-ne-panic _ stdin h)
                λ p hp.
                  >>=-ne-panic (map_err (λ e. chars "--fields: " ++ e) (t.from_str p.0)) _
                    (map_err-ne-panic _ _ (l.from_str_total p.0))
                    λ app _.
                      let issuer =
                        with_encoding (with_manifest_alg (with_alg (issuer_new key) alg) malg)
                          enc in
                      mint_app-ne-panic clock fresh a p.1 (mint_clauses issuer app)
                        ((mandate_key-IsMandateKey t a.key key hk).0, tt)
                        (read_input-later _ stdin p.0 p.1 h hp)
