-- ===== src/Serial/Reasons.antt =====
-- Why `from_mandate_plaintext` of serial.rs refuses a plaintext.
use obsigil_rs.Prelude.{
  ◌≡◌, refl, sym, ap, ◌∙◌, ◌↔◌, Bool, true, false, not, inl, inr, none, some, [], All, any, keep,
  bytes_eq, Result, ok, err, panic, ok_or, reject_if, ◌>>◌, >>=-eq-err, ok_or-none, ok_or-eq-err,
  ok_or-eq-ok, ok_injective,
}
use mathlib.Core.Path.{subst}
use obsigil_rs.Types.{Bytes}
use obsigil_rs.Errors.{Reason, malformed, non_canonical}
use obsigil_rs.Cbor.{Value, Pairs, map, from_list}
use obsigil_rs.Cbor.Vectors.{to_list-from_list, map_injective}
use obsigil_rs.Crates.{Crates, Serde}
use obsigil_rs.Serial.{encode, canonicalize}
use obsigil_rs.Serial.Checks.{nan_entry, invalid_entry}
use obsigil_rs.Serial.Write.{map_entries}
use obsigil_rs.Serial.Read.{
  MandateScan, no_fields, repeats_key, strict_map, mandate_loop, decode_app, from_mandate_plaintext,
}
use obsigil_rs.Serial.Strict.{IsStrict, strict_map-eq-ok_iff, map_entries-eq-ok}
use obsigil_rs.Serial.Loop.{IsField, is_app_entry, mandate_loop-eq-collect}
use obsigil_rs.Serial.Total.{strict_map-ne-panic}
use obsigil_rs.Serial.Spoils.{All-of_mandate_loop, StopsAt, mandate_loop-eq-err_iff}

four_checks :
    (a b c d : Bool) (ps : Pairs) (r : Reason)
    → (reject_if a non_canonical
        >> (reject_if b non_canonical
            >> (reject_if c non_canonical >> (reject_if d non_canonical >> ok ps))))
      ≡ err r
    → r ≡ non_canonical
four_checks true b c d ps r h = cc
four_checks false true c d ps r h = cc
four_checks false false true d ps r h = cc
four_checks false false false true ps r h = cc
four_checks false false false false ps r h = cc

map_entries-eq-err : (v : Value) (r : Reason) → map_entries v malformed ≡ err r → r ≡ malformed
map_entries-eq-err (map es) r h = cc
map_entries-eq-err _ r h = cc

module _ (x : Crates) where
  -- A plaintext that is not the canonical encoding of a well-formed map: it is no CBOR, no map, or
  -- the map that it decodes to breaks a rule.
  pub data Unstrict (plain : Bytes) (r : Reason) : Type 0 where
    not_cbor : x.from_reader plain ≡ none → r ≡ malformed → Unstrict plain r
    not_map :
        (v : Value)
        → x.from_reader plain ≡ some v
        → map_entries v malformed ≡ err malformed
        → r ≡ malformed
        → Unstrict plain r
    broken :
        (ps : Pairs)
        → x.from_reader plain ≡ some (map (from_list ps))
        → ¬ IsStrict x plain ps
        → r ≡ non_canonical
        → Unstrict plain r

  -- The checks on the entries of a map have one reason.
  checks-eq-err :
      (plain : Bytes) (ps : Pairs) (r : Reason)
      → strict_map x plain ≡ err r
      → x.from_reader plain ≡ some (map (from_list ps))
      → r ≡ non_canonical
  unfolding strict_map
  checks-eq-err plain ps r h e =
      four_checks (any nan_entry ps) (any invalid_entry ps) (repeats_key x [] ps)
        (not (bytes_eq (encode x (canonicalize x (map (from_list ps)))) plain)) ps r
        (rw (e, to_list-from_list ps) at h)

  pub strict_broken :
      (plain : Bytes) (ps : Pairs)
      → x.from_reader plain ≡ some (map (from_list ps))
      → ¬ IsStrict x plain ps
      → strict_map x plain ≡ err non_canonical
  strict_broken plain ps h n = go (strict_map x plain) refl
    where
      go :
          (res : Result Reason Pairs)
          → strict_map x plain ≡ res
          → strict_map x plain ≡ err non_canonical
      go (ok qs) e =
          let t = (strict_map-eq-ok_iff x plain qs).0 e in
          let same : map (from_list qs) ≡ map (from_list ps) = cc (t.decoded, h) in
          absurd (n (subst (IsStrict x plain) (map_injective qs ps same) t))
      go (err f) e = e ∙ ap err (checks-eq-err plain ps f e h)
      go panic e = absurd (strict_map-ne-panic x plain e)

  strict_sound : (plain : Bytes) (r : Reason) → strict_map x plain ≡ err r → Unstrict plain r
  unfolding strict_map
  strict_sound plain r h = elim (>>=-eq-err (ok_or (x.from_reader plain) malformed) _ h) [
    | inl e ↦ not_cbor (ok_or-none _ malformed e) (sym (ok_or-eq-err _ malformed e))
    | inr (v, hv, h1) ↦ elim (>>=-eq-err (map_entries v malformed) _ h1) [
      | inl e ↦
          let same = map_entries-eq-err v r e in
          not_map v (ok_or-eq-ok _ malformed hv) (e ∙ ap err same) same
      | inr (ps, hp, h2) ↦
          let decoded = ok_or-eq-ok _ malformed hv ∙ ap some (map_entries-eq-ok v ps hp) in
          broken ps decoded (λ t. cc ((strict_map-eq-ok_iff x plain ps).1 t, h))
            (checks-eq-err plain ps r h decoded)
    ]
  ]

  pub strict_complete : (plain : Bytes) (r : Reason) → Unstrict plain r → strict_map x plain ≡ err r
  unfolding strict_map
  strict_complete plain r (not_cbor h e) = rw (h, e)
  strict_complete plain r (not_map v h n e) = rw (h, n, e)
  strict_complete plain r (broken ps h n e) = strict_broken plain ps h n ∙ ap err (sym e)

  module _ {T : Type 0} (s : Serde T) where
    -- A plaintext that holds no mandate: it is not canonical, an entry spoils it, or serde reads no
    -- value of the application's type from the application's entries.
    pub data Unreadable (plain : Bytes) (r : Reason) : Type 0 where
      unstrict : Unstrict plain r → Unreadable plain r
      spoilt : (ps : Pairs) → IsStrict x plain ps → StopsAt x ps r → Unreadable plain r
      no_app :
          (ps : Pairs)
          → IsStrict x plain ps
          → All (IsField x) ps
          → s.deserialized (map (from_list (keep (is_app_entry x) ps))) ≡ none
          → r ≡ malformed
          → Unreadable plain r

    pub Unreadable-sound :
        (plain : Bytes) (r : Reason) → from_mandate_plaintext x s plain ≡ err r → Unreadable plain r
    unfolding from_mandate_plaintext decode_app
    Unreadable-sound plain r h = elim (>>=-eq-err (strict_map x plain) _ h) [
      | inl e ↦ unstrict (strict_sound plain r e)
      | inr (ps, hs, h1) ↦
          let strict = (strict_map-eq-ok_iff x plain ps).0 hs in
          elim (>>=-eq-err (mandate_loop x ps no_fields) _ h1) [
            | inl e ↦ spoilt ps strict ((mandate_loop-eq-err_iff x ps no_fields r).0 e)
            | inr (m, hm, h2) ↦
                elim (>>=-eq-err (ok_or (s.deserialized (map (from_list m.rest))) malformed) _ h2) [
                  | inl e ↦
                      let fields = All-of_mandate_loop x ps no_fields m hm in
                      let same =
                        ok_injective (sym (mandate_loop-eq-collect x ps no_fields fields) ∙ hm) in
                      no_app ps strict fields
                        (ap (λ (n : MandateScan). s.deserialized (map (from_list n.rest))) same
                          ∙ ok_or-none _ malformed e)
                        (sym (ok_or-eq-err _ malformed e))
                  | inr (a, _, h3) ↦ cc
                ]
          ]
    ]

    Unreadable-complete :
        (plain : Bytes) (r : Reason) → Unreadable plain r → from_mandate_plaintext x s plain ≡ err r
    unfolding from_mandate_plaintext decode_app
    Unreadable-complete plain r (unstrict u) = rw (strict_complete plain r u)
    Unreadable-complete plain r (spoilt ps t w) =
        rw ((strict_map-eq-ok_iff x plain ps).1 t, (mandate_loop-eq-err_iff x ps no_fields r).1 w)
    Unreadable-complete plain r (no_app ps t f n e) =
        rw ((strict_map-eq-ok_iff x plain ps).1 t, mandate_loop-eq-collect x ps no_fields f, n, e)

    -- A plaintext is refused with a given reason exactly when it is no CBOR or no map (malformed),
    -- or its map breaks a rule of `strict_map` (not canonical), or its first entry that is neither
    -- the application's nor a reserved field of its type has that reason (an unknown negative key,
    -- a wrong type, a key of another kind), or every entry is one of these and serde reads no
    -- application value from the application's entries (malformed).
    pub from_mandate_plaintext-eq-err_iff :
        (plain : Bytes) (r : Reason)
        → (from_mandate_plaintext x s plain ≡ err r) ↔ Unreadable plain r
    from_mandate_plaintext-eq-err_iff plain r =
        (Unreadable-sound plain r, Unreadable-complete plain r)
