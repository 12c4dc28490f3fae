-- ===== src/Crates/Laws.antt =====
-- The documented behaviour of the crates that properties of the program rest on.
use obsigil_rs.Prelude.{
  ℕ, ◌+◌, ◌*◌, ◌/◌, ◌≤◌, ◌≡◌, ◌≢◌, Bool, true, false, none, some, [], ◌∷◌, ◌==◌, All, length, ℤ,
  pos, negsuc, in_i64,
}
use obsigil_rs.Types.{Bytes}
use obsigil_rs.Types.IssuedAt.{IsByte}
use obsigil_rs.Cbor.{Value, integer}
use obsigil_rs.Token.{is_separator}
use obsigil_rs.Utf8.{IsAscii, as_bytes}
use obsigil_rs.Crates.{Codec, Crates}

-- An encoding reads back what it wrote; its alphabet is ASCII without `.` and `~`; its text is at
-- least as long as the bytes, and at most twice as long.
pub record CodecLaws (c : Codec) : Type 0 where
  pub decode-encode : (b : Bytes) → All IsByte b → c.decode (c.encode b) ≡ some b
  pub ascii : (b : Bytes) → IsAscii (c.encode b)
  pub plain : (b : Bytes) → All (λ ch. is_separator ch ≡ false) (c.encode b)
  pub encode_len_lem : (b : Bytes) → length (c.encode b) ≡ c.encode_len (length b)
  pub not_shorter : (n : ℕ) → n ≤ c.encode_len n
  pub at_most_twice : (n : ℕ) → c.encode_len n ≤ 2 * n

-- The major type of the first item, which the three high bits of the leading byte hold, is 1.
abbrev pub negative_head : Bytes → Bool
negative_head [] = false
negative_head (b ∷ bs) = b / 32 == 1

abbrev pub is_negative : Value → Bool
is_negative (integer (pos n)) = false
is_negative (integer (negsuc n)) = true
is_negative _ = false

-- CBOR (RFC 8949, 3.1): major type 1 is that of the negative integers and of nothing else; an
-- integer in the range of i64 is read back; no item is encoded by no bytes.
pub record CborLaws (x : Crates) : Type 0 where
  pub major_type : (v : Value) → negative_head (x.into_writer v) ≡ is_negative v
  pub reads_integer :
      (i : ℤ) → in_i64 i ≡ true → x.from_reader (x.into_writer (integer i)) ≡ some (integer i)
  pub reads_nothing : x.from_reader [] ≡ none

-- The sealing crates, under keys of the right length: they never fail to seal, seal to bytes that
-- are 16 more than the plaintext's, and open what they sealed. HKDF expands to 32 bytes.
pub record AeadLaws (x : Crates) : Type 0 where
  pub siv_seals :
      (key plain : Bytes)
      → length key ≡ 64
      → All IsByte plain
      → (sealed : Bytes) × (x.siv_encrypt key [] plain ≡ some sealed)
        × (length sealed ≡ 16 + length plain)
        × All IsByte sealed
        × (x.siv_decrypt key [] sealed ≡ some plain)
  pub gcm_seals :
      (key nonce plain : Bytes)
      → length key ≡ 32
      → length nonce ≡ 12
      → All IsByte plain
      → (sealed : Bytes) × (x.gcm_encrypt key nonce plain ≡ some sealed)
        × (length sealed ≡ 16 + length plain)
        × All IsByte sealed
        × (x.gcm_decrypt key nonce sealed ≡ some plain)
  pub hkdf_expands :
      (prk info : Bytes)
      → length prk ≡ 64
      → (okm : Bytes) × (x.hkdf_expand prk info 32 ≡ some okm) × (length okm ≡ 32)

-- The sealing crates refuse only a plaintext beyond their limit of 2 ^ 36 bytes, which is left out.
pub record SealLaws (x : Crates) : Type 0 where
  pub siv_total : (key plain : Bytes) → length key ≡ 64 → x.siv_encrypt key [] plain ≢ none
  pub gcm_total :
      (key nonce plain : Bytes)
      → length key ≡ 32
      → length nonce ≡ 12
      → x.gcm_encrypt key nonce plain ≢ none

-- Strict decoding: a text that decodes is the one that the bytes are encoded to.
pub record StrictCodecLaws (c : Codec) : Type 0 where
  pub encode-decode : (t b : Bytes) → c.decode t ≡ some b → as_bytes (c.encode b) ≡ t

-- Opening recomputes the synthetic IV or the tag from the plaintext (RFC 5297, RFC 8452): what
-- opens is what the plaintext is sealed to, under the same key and nonce.
pub record ResealLaws (x : Crates) : Type 0 where
  pub siv_reseals :
      (key sealed plain : Bytes)
      → length key ≡ 64
      → x.siv_decrypt key [] sealed ≡ some plain
      → x.siv_encrypt key [] plain ≡ some sealed
  pub gcm_reseals :
      (key nonce sealed plain : Bytes)
      → length key ≡ 32
      → length nonce ≡ 12
      → x.gcm_decrypt key nonce sealed ≡ some plain
      → x.gcm_encrypt key nonce plain ≡ some sealed
