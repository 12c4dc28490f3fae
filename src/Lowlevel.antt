-- ===== src/Lowlevel.antt =====
-- obsigil/src/lowlevel.rs: sealing, text and parsing of raw octets, without the CBOR layer.
pub mod RoundTrip
use obsigil_rs.Prelude.{Option, none, some, [], Result, ok, err, panic, ◌>>=◌, Maybe, drop_error}
use mathlib.Core.Option.{map}
use obsigil_rs.Types.{Char, Text, Bytes, Alg, Encoding}
use obsigil_rs.Token as Token
use obsigil_rs.Crates.{Crates}
use obsigil_rs.Encoding.{encode_into}
use obsigil_rs.Encoding as Encoding
use obsigil_rs.Aead as Aead

pub record Half : Type 0 where
  pub alg : Char
  pub text : Text

pub record Parsed : Type 0 where
  pub encoding : Encoding
  pub separator : Char
  pub manifest : Option Half
  pub mandate : Option Half
  pub mandate_part : Text

-- the closure `half`
abbrev pub own_half : Token.Half → Half
own_half h = record { alg = h.alg_code; text = h.text }

unfoldable pub parse : Text → Maybe Parsed
parse token = do
  p ← drop_error (Token.parse token)
  ok (record {
    encoding = p.encoding;
    separator = p.separator;
    manifest = map own_half p.manifest;
    mandate = map own_half p.mandate;
    mandate_part = p.mandate_part;
  })

module _ (x : Crates) where
  unfoldable pub seal : Bytes → Bytes → Alg → Maybe Bytes
  seal octets key alg = drop_error (Aead.seal x octets key alg)

  unfoldable pub opened : Bytes → Bytes → Alg → Maybe Bytes
  opened sealed key alg = Aead.opened x sealed key alg

  unfoldable pub encode : Bytes → Encoding → Text
  encode bs e = encode_into x bs e []

  unfoldable pub decode : Text → Encoding → Option Bytes
  decode text e = Encoding.decode x text e
