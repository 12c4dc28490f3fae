-- ===== src/Cli/Pipeline.antt =====
-- `obsigil mint .. | obsigil clauses -`: the two commands of main.rs, one after the other.
use obsigil_rs.Prelude.{
  ℕ, ◌≡◌, refl, sym, ap, ◌∙◌, false, Option, none, some, List, [], ◌∷◌, All, is_empty, ◌<ℤ◌,
  saturating_add, if◌then◌else◌, Result, ok, >>=-ok, map_err, reject_if,
}
use mathlib.Core.Option.{get_or}
use mathlib.Core.Path.{subst}
use obsigil_rs.Types.{Text, Bytes, NumericDate, Encoding, tid_issued_at}
use obsigil_rs.Types.IssuedAt.{IsByte}
use obsigil_rs.Errors.{MintError, chars}
use obsigil_rs.Cbor.{Entries}
use obsigil_rs.Crates.Laws.{CodecLaws, CborLaws, AeadLaws}
use obsigil_rs.Encoding.{codec_of}
use obsigil_rs.Key.{MandateKey}
use obsigil_rs.Reserved.{Uuid}
use obsigil_rs.Mint.{
  Issuer, MintBuilder, mint, mint_clauses, with_audience, with_issuer, with_subject,
}
use obsigil_rs.Mint.Refusals.{mint-IsMinted}
use obsigil_rs.Mint.EndToEnd.{
  IsMintable, IsReceiver, plaintext, value_of_plaintext, minted_fields, clauses-mint,
}
use obsigil_rs.Verify.{now_unix, clauses}
use obsigil_rs.Verify.Accepts.{InAudience}
use obsigil_rs.Cli.{
  MintArgs, VerifyArgs, Output, printed, Stdin, read_input, parse_alg, parse_encoding,
}
use obsigil_rs.Cli.Json.{
  Json, number, string, array, object, no_members, member, strings, optional, Tools,
}
use obsigil_rs.Cli.Commands.{
  mandate_key, mandate_keys, set, set_expiry, set_tid, set_manifest, verifier_of, print_json,
  cmd_mint, cmd_clauses,
}
use obsigil_rs.Cli.Trimmed.{IsSolid, read_input-printed, assemble_token-IsSolid}

abbrev pub audience_of : List Text → Option (List Text)
audience_of aud = if is_empty aud then none else some aud

-- The builder after `exp` and `tid`.
abbrev pub dated_builder : Issuer → Json → NumericDate → Option Uuid → MintBuilder Json
dated_builder i app exp tid = record {
  issuer = i;
  app = app;
  exp = some exp;
  tid = tid;
  iss = none;
  aud = none;
  sub = none;
  manifest_plain = none;
}

-- The builder that the arguments ask for.
abbrev pub builder_of :
    MintArgs
    → Issuer
    → Json
    → NumericDate
    → Option Uuid
    → Option (Result MintError Bytes)
    → MintBuilder Json
builder_of a i app exp tid m = record (dated_builder i app exp tid) {
  iss = a.iss;
  aud = audience_of a.aud;
  sub = a.sub;
  manifest_plain = m;
}

set_texts :
    (aud : List Text) (iss sub : Option Text) (i : Issuer) (app : Json) (exp : NumericDate)
    (tid : Option Uuid)
    → (let b = dated_builder i app exp tid in
        set iss with_issuer
          (set sub with_subject (if is_empty aud then b else with_audience b aud)))
      ≡ record (dated_builder i app exp tid) { iss = iss; aud = audience_of aud; sub = sub }
set_texts [] none none i app exp tid = refl
set_texts [] none (some s) i app exp tid = refl
set_texts [] (some r) none i app exp tid = refl
set_texts [] (some r) (some s) i app exp tid = refl
set_texts (u ∷ us) none none i app exp tid = refl
set_texts (u ∷ us) none (some s) i app exp tid = refl
set_texts (u ∷ us) (some r) none i app exp tid = refl
set_texts (u ∷ us) (some r) (some s) i app exp tid = refl

module _ (t : Tools) where
  -- What the arguments of `obsigil mint` are read to, none of them wrong.
  pub record IsRead (clock : Option ℕ) (a : MintArgs) (stdin : Stdin) (i : Issuer) (app : Json)
      (exp : NumericDate) (tid : Option Uuid) (m : Option (Result MintError Bytes)) : Type 0 where
    pub key : mandate_key t a.key ≡ ok i.key
    pub alg : parse_alg a.alg ≡ ok i.mandate_alg
    pub manifest_alg : parse_alg a.manifest_alg ≡ ok i.manifest_alg
    pub encoding : parse_encoding a.encoding ≡ ok i.encoding
    pub fields : Text
    pub later : Stdin
    pub reads : read_input (get_or a.fields (chars "{}")) stdin ≡ ok (fields, later)
    pub parses : t.from_str fields ≡ ok app
    pub dated :
        set_expiry t clock a.exp a.ttl (mint_clauses i app) ≡ ok (dated_builder i app exp none)
    pub named : set_tid t a.tid (dated_builder i app exp none) ≡ ok (dated_builder i app exp tid)
    pub shown :
        set_manifest t a.manifest_iss a.manifest_fields later (builder_of a i app exp tid none)
        ≡ ok (builder_of a i app exp tid m)

  -- The JSON of the clauses of a token.
  abbrev pub shown_clauses : MintArgs → Json → NumericDate → Uuid → Json
  shown_clauses a app exp tid = object (
      member (chars "exp") (number exp) (
        member (chars "tid") (string (t.uuid_text tid)) (
          member (chars "issued_at") (number (tid_issued_at tid)) (
            member (chars "iss") (optional string a.iss) (
              member (chars "aud") (optional (λ ss. array (strings ss)) (audience_of a.aud)) (
                member (chars "sub") (optional string a.sub)
                  (member (chars "app") app no_members)))))))

  -- With its arguments read, `obsigil mint` prints what the builder mints.
  cmd_mint-printed :
      (clock : Option ℕ) (fresh : Uuid) (a : MintArgs) (stdin : Stdin) (i : Issuer) (app : Json)
      (exp : NumericDate) (tid : Option Uuid) (m : Option (Result MintError Bytes)) (token : Text)
      → IsRead clock a stdin i app exp tid m
      → mint t.crates t.json_serde fresh (builder_of a i app exp tid m) ≡ ok token
      → cmd_mint t clock fresh a stdin ≡ ok (printed token)
  unfolding cmd_mint
  cmd_mint-printed clock fresh a stdin i app exp tid m token r h = >>=-ok _ r.key (
      >>=-ok _ r.alg (
        >>=-ok _ r.manifest_alg (
          >>=-ok _ r.encoding (
            >>=-ok _ r.reads (
              >>=-ok _ (ap (map_err _) r.parses) (
                >>=-ok _ r.dated (
                  >>=-ok _ r.named (
                    >>=-ok _
                      (ap (set_manifest t a.manifest_iss a.manifest_fields r.later)
                          (set_texts a.aud a.iss a.sub i app exp tid)
                        ∙ r.shown)
                      (>>=-ok _ (ap (map_err _) h) refl)))))))))

  -- What the second command prints, once its verifier accepts the token.
  cmd_clauses-shown :
      (clock : Option ℕ) (v : VerifyArgs) (keys : List MandateKey) (fresh : Uuid) (a : MintArgs)
      (i : Issuer) (app : Json) (exp : NumericDate) (tid : Option Uuid)
      (m : Option (Result MintError Bytes)) (stdin later : Stdin) (token : Text)
      → read_input v.token stdin ≡ ok (token, later)
      → is_empty v.key ≡ false
      → mandate_keys t v.key ≡ ok keys
      → clauses t.crates t.json_serde clock (verifier_of t v keys) token
        ≡ ok (record {
          inner = minted_fields t.crates t.json_serde fresh (builder_of a i app exp tid m) exp;
        })
      → cmd_clauses t clock v stdin ≡ print_json t (shown_clauses a app exp (get_or tid fresh))
  unfolding cmd_clauses
  cmd_clauses-shown clock v keys fresh a i app exp tid m stdin later token h k ks e = >>=-ok _ h (
      >>=-ok _ (ap (λ b. reject_if b (chars "at least one --key is required")) k)
        (>>=-ok _ ks (rw e)))

  module _ (laws : (e : Encoding) → CodecLaws (codec_of t.crates e))
      (solid : (e : Encoding) (b : Bytes) → IsSolid ((codec_of t.crates e).encode b))
      (aead : AeadLaws t.crates) (cbor : CborLaws t.crates) (clock : Option ℕ) (fresh : Uuid)
      (a : MintArgs) (stdin : Stdin) (i : Issuer) (app : Json) (exp : NumericDate)
      (tid : Option Uuid) (m : Option (Result MintError Bytes)) (es : Entries)
      (r : IsRead clock a stdin i app exp tid m)
      (h : IsMintable t.crates t.json_serde fresh (builder_of a i app exp tid m) exp es)
      (reads : t.crates.from_reader
          (plaintext t.crates t.json_serde fresh (builder_of a i app exp tid m) exp es)
        ≡ some
            (value_of_plaintext t.crates t.json_serde fresh (builder_of a i app exp tid m) exp es))
      (writes : All IsByte
        (plaintext t.crates t.json_serde fresh (builder_of a i app exp tid m) exp es)) where
    -- What `obsigil mint` prints, piped into `obsigil clauses -`, makes it print the JSON of the
    -- clauses that the arguments of the first command ask for, if those arguments are read and make
    -- a builder that has all that a token needs, the second command is given at least one key, all
    -- its keys are read, its verifier has the issuer's key and no key before it that opens what
    -- that key sealed, the half fits its bound, `exp` has not passed and the audience fits; the
    -- crates keep their laws, no text encoding has white space, and the CBOR reader reads back the
    -- plaintext, which consists of bytes.
    pub cmd_clauses-cmd_mint :
        (now : Option ℕ) (v : VerifyArgs) (keys : List MandateKey)
        → v.token ≡ chars "-"
        → is_empty v.key ≡ false
        → mandate_keys t v.key ≡ ok keys
        → IsReceiver t.crates t.json_serde
            (plaintext t.crates t.json_serde fresh (builder_of a i app exp tid m) exp es)
            i
            (verifier_of t v keys)
        → get_or (verifier_of t v keys).now (now_unix now)
          <ℤ saturating_add exp (verifier_of t v keys).leeway
        → InAudience t.crates (verifier_of t v keys) (audience_of a.aud)
        → (o : Output) × (cmd_mint t clock fresh a stdin ≡ ok o)
          × (cmd_clauses t now v (ok o.stdout)
              ≡ print_json t (shown_clauses a app exp (get_or tid fresh)))
    cmd_clauses-cmd_mint now v keys dash given resolves receiver in_time in_aud =
        let b = builder_of a i app exp tid m in
        let (token, hm, hc) =
          clauses-mint t.crates t.json_serde laws aead cbor fresh b exp es h reads writes now
            (verifier_of t v keys) receiver in_time in_aud in
        let made = mint-IsMinted t.crates t.json_serde fresh b token hm in
        let blank =
          subst IsSolid (sym made.token_eq)
            (assemble_token-IsSolid t.crates solid i made.manifest made.sealed) in
        (
          printed token,
          cmd_mint-printed clock fresh a stdin i app exp tid m token r hm,
          cmd_clauses-shown now v keys fresh a i app exp tid m (ok (printed token).stdout) (ok [])
              token (read_input-printed v.token token dash blank) given resolves hc,
        )
