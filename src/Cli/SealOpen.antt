-- ===== src/Cli/SealOpen.antt =====
-- What `obsigil seal` prints, `obsigil open` takes back.
use obsigil_rs.Prelude.{
  ◌≡◌, refl, inl, inr, some, All, length, ◌==◌, ==_iff, if◌then◌else◌, bytes_eq, Bool-cases, ok,
  ok_or, >>=-eq-ok, ok_injective,
}
use mathlib.Core.Path.{subst}
use obsigil_rs.Types.{Text, Bytes, Alg, Encoding, hex}
use obsigil_rs.Types.IssuedAt.{IsByte}
use obsigil_rs.Errors.{chars}
use obsigil_rs.Crates.{Crates}
use obsigil_rs.Crates.Laws.{CodecLaws, AeadLaws}
use obsigil_rs.Encoding.{codec_of}
use obsigil_rs.Key.{to_array64}
use obsigil_rs.Aead.Opens.{IsEnabled, seal_of_enabled}
use obsigil_rs.Lowlevel.{seal, opened, encode, decode}
use obsigil_rs.Mint.Shape.{decode-encoded}
use obsigil_rs.Cli.{
  SealArgs, printed, Stdin, read_input, parse_alg, parse_encoding, resolve_key,
  mandate_test_key_hex,
}
use obsigil_rs.Cli.Json.{Tools}
use obsigil_rs.Cli.Commands.{cmd_seal, cmd_open}

to_array64-length : (bs cs : Bytes) (e : Text) → to_array64 bs e ≡ ok cs → length cs ≡ 64
to_array64-length bs cs e h = elim (Bool-cases (length bs == 64)) [
  | inl p ↦ subst (λ b. length b ≡ 64) (ok_injective (rw p at h)) ((==_iff _ _).0 p)
  | inr p ↦ cc (rw p at h)
]

-- A key that an argument names has 64 bytes.
pub resolve_key-length :
    (x : Crates) (s : Text) (key : Bytes) → resolve_key x s ≡ ok key → length key ≡ 64
unfolding resolve_key
resolve_key-length x s key h = elim (Bool-cases (bytes_eq s (chars "manifest"))) [
  | inl e ↦ subst (λ b. length b ≡ 64) (ok_injective (rw e at h)) refl
  | inr e ↦
      let digits = if bytes_eq s (chars "mandate") then mandate_test_key_hex else s in
      let (bs, _, h1) =
        >>=-eq-ok (ok_or (decode x digits hex) (chars "--key must be hex or `manifest`/`mandate`"))
          _ (rw e at h) in
      to_array64-length bs key (chars "--key must be 64 bytes (128 hex chars)") h1
]

module _ (t : Tools) (laws : (e : Encoding) → CodecLaws (codec_of t.crates e))
    (aead : AeadLaws t.crates) where
  -- `obsigil seal` prints a half that `obsigil open`, with the same key, algorithm and encoding,
  -- opens to the octets and prints in hex, if the arguments are read, the octets are bytes, the
  -- algorithm is compiled in and the crates keep their laws.
  pub cmd_open-cmd_seal :
      (a : SealArgs) (stdin later : Stdin) (text : Text) (octets key : Bytes) (alg : Alg)
      (e : Encoding)
      → read_input a.octets stdin ≡ ok (text, later)
      → decode t.crates text hex ≡ some octets
      → All IsByte octets
      → resolve_key t.crates a.key ≡ ok key
      → parse_alg a.alg ≡ ok alg
      → parse_encoding a.encoding ≡ ok e
      → IsEnabled t.crates alg
      → (half : Text) × (cmd_seal t a stdin ≡ ok (printed half))
        × (cmd_open t (record { half = half; key = a.key; alg = a.alg; encoding = a.encoding })
            ≡ ok (printed (encode t.crates octets hex)))
  unfolding cmd_seal cmd_open seal opened
  cmd_open-cmd_seal a stdin later text octets key alg e hr hd hb hk ha he enabled =
      let (sealed, hs, s) =
        seal_of_enabled t.crates octets key alg aead (resolve_key-length t.crates a.key key hk) hb
          enabled in
      let back : decode t.crates (encode t.crates sealed e) e ≡ some sealed =
        (unfold decode encode in decode-encoded t.crates laws sealed e s.octets) in
      (encode t.crates sealed e, rw (hr, hd, hk, ha, hs, he), rw (hk, he, back, ha, s.opens))
