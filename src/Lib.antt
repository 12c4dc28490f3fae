-- ===== src/Lib.antt =====
-- obsigil: mandate tokens. A token is a text `manifest0.0mandate` of one or two sealed halves. The
-- issuer mints it, the verifier opens the mandate under its keys and checks it, and anyone reads the
-- manifest, which is sealed under a public key.
--
-- The parts, in the order in which a token passes through them, and the files that model them:
-- * obsigil/src/mint.rs, Mint: `Issuer`, `MintBuilder` and their builder methods (`with_exp` for
--   `exp` and so on), `mint`. The children are about the form of a minted token (Mint/Shape), the
--   checks of minting (Mint/Refusals, Mint/Expiry), its end (Mint/Total), the way of a token to the
--   verifier (Mint/EndToEnd) and of its manifest to the reader (Mint/Shown).
-- * obsigil/src/serial.rs, Serial: field values to canonical CBOR (Serial/Write) and back
--   (Serial/Read). The loops over map entries are functions on the list of entries with the mutable
--   variables in a record (`MandateScan`, `ManifestScan`). `canonicalize` is one function on a value
--   and two on the vectors inside. The reading of a half is described by Serial/Strict (the map),
--   Serial/Loop (what the loop collects), Serial/Spoils and Serial/FieldTypes (where it stops) and
--   Serial/Reasons (why a half is refused); Serial/Rewritten, Serial/Unique and Serial/Unportable
--   compare it with what Serial/Write writes.
-- * obsigil/src/aead.rs, Aead; obsigil/src/encoding.rs, Encoding; obsigil/src/key.rs, Key:
--   sealing, text, and the secret key.
-- * obsigil/src/token.rs, Token: `parse` with its byte offsets; a slice at an offset that is no
--   boundary panics. Token/Grammar has the grammar as an independent description.
-- * obsigil/src/verify.rs, Verify: `Verifier`, its builder methods and terminals, and the keyless
--   reads `claims`, `manifest`, `mandate`, `manifest_plaintext`, `authorization_header`. Verify/Trial
--   is about the trial of the keys, Verify/Accepts, Verify/Unopened, Verify/Fails and Verify/Reasons
--   about what is accepted and why the rest is not, Verify/Setup about the verifiers that the builder
--   methods make, as a step relation, Verify/Ring about the order of the keys, Verify/Deadline about
--   the passing of time, and Verify/Resealed, Verify/Reissued and Verify/Determined about the one
--   text that a mandate has.
-- * obsigil/src/reserved.rs, Reserved; obsigil/src/error.rs, Errors; obsigil/src/types.rs, Types: the
--   data that these exchange.
-- * obsigil/src/lowlevel.rs, Lowlevel: the byte-level surface of the conformance tests.
-- * obsigil-cli/src/main.rs, Cli: the command-line tool. A command yields its two outputs and its exit
--   code, or the message of a usage error. Cli/Ready to Cli/Total follow every command to its end,
--   Cli/Exits its exit code, and Cli/Pipeline one command into the next.
-- Prelude has what the files share, Sort the sort that serial.rs calls, Cbor the type
-- `ciborium::Value`, Utf8 the bytes of a text, Examples concrete crates and tokens, and Tests the
-- tests of obsigil/src and obsigil/tests, each as a proposition that holds at concrete crates.
--
-- A function that may fail returns `Result E A`: a value, an error, or a panic; `Maybe` is such an
-- `Option`. A text is the list of its characters, a character its scalar value, a byte a number. An
-- i64 is an integer, with the range and the saturation written out (Prelude/Int); `usize` has 64 bits.
-- All recursion is on lists, texts and values: nothing runs on fuel, except the digits of a usize in
-- an error message, of which there are at most twenty, and the sample CBOR reader of Examples.
--
-- The crates that the program calls are parameters (Crates), with the behaviour that is relied on as
-- laws (Crates/Laws): text encodings, AES-SIV, AES-GCM-SIV, HKDF, the CBOR writer and reader, UUID
-- fields, constant-time equality, serde; for the tool, serde_json (Cli/Json). The clock, random
-- bytes and a fresh UUID are arguments.
--
-- Not modelled: wiping of memory on drop, the derived `Debug` of most types, the parsing of the
-- command line by clap, three integration tests (raw CBOR octets, a token of 100 KiB) and the
-- conformance vectors, which are in another repository.
pub mod Prelude
pub mod Types
pub mod Token
pub mod Errors
pub mod Reserved
pub mod Cbor
pub mod Sort
pub mod Crates
pub mod Utf8
pub mod Serial
pub mod Encoding
pub mod Aead
pub mod Key
pub mod Verify
pub mod Mint
pub mod Lowlevel
pub mod Cli
pub mod Examples
pub mod Tests
