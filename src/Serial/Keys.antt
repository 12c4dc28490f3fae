-- ===== src/Serial/Keys.antt =====
-- How serial.rs tells the keys of the protocol from those of the application.
use obsigil_rs.Prelude.{
  ℕ, zero, suc, ◌≡◌, ◌≢◌, refl, sym, ap, ◌∙◌, Bool, true, false, [], ◌∷◌, arith, ℤ, pos, negsuc,
  in_i64, if◌then◌else◌, leb,
}
use obsigil_rs.Types.{Bytes}
use obsigil_rs.Cbor.{Value, integer, text}
use obsigil_rs.Crates.{Crates}
use obsigil_rs.Crates.Laws.{CborLaws, negative_head, is_negative}
use obsigil_rs.Serial.{
  encode, starts_negative, is_negative_int, classify, KeyKind, reserved, unknown_reserved, app,
  invalid,
}

-- The application's keys: texts and integers that are not negative.
abbrev pub is_app_key : Value → Bool
is_app_key (integer (pos n)) = true
is_app_key (text s) = true
is_app_key _ = false

-- The classification in terms of the key itself: -1 to -5 are the reserved fields, every other
-- negative integer is unknown, and the rest is the application's or no key at all.
abbrev pub kind_of : Value → KeyKind
kind_of (integer (negsuc n)) = if leb n 4 then reserved (negsuc n) else unknown_reserved
kind_of (integer (pos n)) = app
kind_of (text s) = app
kind_of _ = invalid

module _ (x : Crates) where
  starts_negative-eq : (b : Bytes) → starts_negative x b ≡ negative_head b
  unfolding starts_negative
  starts_negative-eq [] = refl
  starts_negative-eq (c ∷ b) = refl

  -- The test on the leading byte finds the negative integers.
  pub is_negative_int-eq : CborLaws x → (k : Value) → is_negative_int x k ≡ is_negative k
  unfolding is_negative_int
  is_negative_int-eq l (integer i) =
      starts_negative-eq (encode x (integer i)) ∙ l.major_type (integer i)
  is_negative_int-eq l _ = refl

  -- Encodings of different integers differ.
  pub encode_ne :
      CborLaws x
      → (i j : ℤ) → in_i64 i ≡ true
      → in_i64 j ≡ true
      → i ≢ j
      → encode x (integer i) ≢ encode x (integer j)
  encode_ne l i j hi hj h e =
      let same = sym (l.reads_integer i hi) ∙ ap x.from_reader e ∙ l.reads_integer j hj in
      h (cc same)

  -- The encodings of a negative and of any other key differ.
  pub encode_apart :
      CborLaws x
      → (k : Value) (n : ℕ) → is_negative k ≡ false
      → encode x k ≢ encode x (integer (negsuc n))
  encode_apart l k n h e =
      cc (l.major_type k, l.major_type (integer (negsuc n)), ap negative_head e)

  -- The classification of a key, which reads the first byte of its encoding, is that by its value:
  -- -1 to -5 are reserved, every other negative integer is unknown, other integers and texts are
  -- the application's, and the rest is invalid; CBOR keeps its laws.
  pub classify-eq-kind_of : CborLaws x → (k : Value) → classify x k ≡ kind_of k
  unfolding classify
  classify-eq-kind_of l (integer (pos n)) = rw (is_negative_int-eq l (integer (pos n)))
  classify-eq-kind_of l (integer (negsuc zero)) = refl
  classify-eq-kind_of l (integer (negsuc (suc zero))) = refl
  classify-eq-kind_of l (integer (negsuc (suc (suc zero)))) = refl
  classify-eq-kind_of l (integer (negsuc (suc (suc (suc zero))))) = refl
  classify-eq-kind_of l (integer (negsuc (suc (suc (suc (suc zero)))))) = refl
  classify-eq-kind_of l (integer (negsuc (suc (suc (suc (suc (suc n))))))) =
      ground (arith, is_negative_int-eq l (integer (negsuc (suc (suc (suc (suc (suc n))))))))
  classify-eq-kind_of l (text s) = refl
  classify-eq-kind_of l _ = refl
