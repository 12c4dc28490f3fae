-- ===== src/Serial/Unportable.antt =====
-- Where minting in serial.rs checks less than reading does: the keys of the application.
use obsigil_rs.Prelude.{
  ◌≡◌, ◌↔◌, sym, ap, ◌∙◌, true, false, Option, some, List, [], ◌∷◌, ◌++◌, arith, any, ok, err,
}
use obsigil_rs.Types.{Text, Bytes, NumericDate}
use obsigil_rs.Errors.{non_canonical}
use obsigil_rs.Cbor.{Value, Entries, Pairs, map, to_list}
use obsigil_rs.Sort.Laws.{any-sort}
use obsigil_rs.Sort.Unique.{Distinct-of_sort}
use obsigil_rs.Crates.{Crates, Serde}
use obsigil_rs.Reserved.{Uuid}
use obsigil_rs.Serial.{
  contains_nan, is_negative_int, is_integer_or_text, entry_key, classify, invalid,
}
use obsigil_rs.Serial.Checks.{nan_entry, invalid_entry}
use obsigil_rs.Serial.Write.{app_entries, assemble, to_mandate_plaintext, mandate_entries}
use obsigil_rs.Serial.Read.{strict_map, from_mandate_plaintext}
use obsigil_rs.Serial.Strict.{IsStrict, strict_map-eq-ok_iff}
use obsigil_rs.Serial.Assemble.{
  canonical_pairs, sorted_pairs, canonicalize-map, nan_pairs, invalid_pairs, IsPayload,
  strict_map-assemble,
}
use obsigil_rs.Serial.Spoils.{Spoils, StopsAt, unknown, mistyped, foreign}
use obsigil_rs.Serial.Reasons.{
  strict_broken, strict_complete, Unreadable, unstrict, spoilt, no_app, Unreadable-sound,
}
use obsigil_rs.Serial.Unique.{ReadsBack}

module _ (x : Crates) where
  -- What the strict reading of a written map finds, its entries had.
  IsPayload-of_strict :
      (plain : Bytes) (ps : Pairs) → IsStrict x plain (sorted_pairs x ps) → IsPayload x ps
  IsPayload-of_strict plain ps t = record {
    no_nan =
        sym (any-sort (entry_key x) nan_entry (canonical_pairs x ps) ∙ nan_pairs x ps) ∙ t.no_nan;
    portable =
        sym (any-sort (entry_key x) invalid_entry (canonical_pairs x ps) ∙ invalid_pairs x ps)
        ∙ t.portable;
    distinct = Distinct-of_sort (entry_key x) (canonical_pairs x ps) t.distinct;
  }

  classify_invalid : (k : Value) → classify x k ≡ invalid → is_integer_or_text k ≡ false
  unfolding classify
  classify_invalid k h = ground arith

  -- An entry with a foreign key does not pass the strict reading.
  not_foreign :
      (k v : Value) (ps qs : Pairs)
      → classify x k ≡ invalid
      → any invalid_entry (ps ++ (k, v) ∷ qs) ≡ true
  not_foreign k v [] qs h = rw (classify_invalid k h)
  not_foreign k v (p ∷ ps) qs h = ground (arith, not_foreign k v ps qs h)

  spoilt_reason :
      (plain : Bytes) (ps : Pairs) → IsStrict x plain ps → StopsAt x ps non_canonical → ⊥
  spoilt_reason plain ps t w = go w.spoilt (w.split) w.spoils
    where
      go : (p : Value × Value) → ps ≡ w.before ++ p ∷ w.after → Spoils x p non_canonical → ⊥
      go (k, v) e (unknown h q) = cc
      go (k, v) e (mistyped n h b q) = cc
      go (k, v) e (foreign h q) =
          cc (not_foreign k v w.before w.after h, ap (any invalid_entry) e, t.portable)

  module _ {T : Type 0} (s : Serde T) where
    -- A written map that passes the strict reading is not refused as not canonical.
    refusal-strict :
        (plain : Bytes) (ps : Pairs)
        → IsStrict x plain ps
        → strict_map x plain ≡ ok ps
        → from_mandate_plaintext x s plain ≡ err non_canonical
        → ⊥
    refusal-strict plain ps t e h = go (Unreadable-sound x s plain non_canonical h)
      where
        go : Unreadable x s plain non_canonical → ⊥
        go (unstrict u) = cc (strict_complete x plain non_canonical u, e)
        go (spoilt qs u w) = spoilt_reason plain qs u w
        go (no_app qs u f n q) = cc

    -- The entries are refused as not canonical when they are read exactly when they are no payload.
    pub assemble-refused_iff :
        (ps : Pairs)
        → ReadsBack x ps
        → (from_mandate_plaintext x s (assemble x ps) ≡ err non_canonical) ↔ (¬ IsPayload x ps)
    unfolding from_mandate_plaintext
    assemble-refused_iff ps reads = (
      λ h p.
          let e = strict_map-assemble x ps p reads in
          refusal-strict (assemble x ps) (sorted_pairs x ps)
            ((strict_map-eq-ok_iff x (assemble x ps) (sorted_pairs x ps)).0 e) e h,
      λ n. rw (
          strict_broken x (assemble x ps) (sorted_pairs x ps)
            (reads ∙ ap some (canonicalize-map x ps))
            (λ t. n (IsPayload-of_strict (assemble x ps) ps t))),
    )

    module _ (a : T) (es : Entries) (exp : NumericDate) (tid : Uuid) (iss : Option Text)
        (aud : Option (List Text)) (sub : Option Text) where
      -- The entries of the application, then those of the reserved fields.
      abbrev pub mandate_pairs : Pairs
      mandate_pairs = to_list es ++ mandate_entries exp tid iss aud sub

      -- An application value with no negative key and no NaN among its values is written as a
      -- mandate without an error; reading the bytes refuses them as not canonical exactly when two
      -- of its entries have the same encoded key, a key at some depth is neither an integer nor a
      -- text, or a NaN is left (in a key), if the CBOR reader reads the written map back.
      pub to_mandate_plaintext-unreadable_iff :
          s.serialized a ≡ ok (map es)
          → any (λ p. is_negative_int x p.0) (to_list es) ≡ false
          → any (λ p. contains_nan p.1) (to_list es) ≡ false
          → ReadsBack x mandate_pairs
          → (to_mandate_plaintext x s exp tid iss aud sub a ≡ ok (assemble x mandate_pairs))
            × ((from_mandate_plaintext x s (assemble x mandate_pairs) ≡ err non_canonical)
                ↔ (¬ IsPayload x mandate_pairs))
      unfolding to_mandate_plaintext app_entries
      to_mandate_plaintext-unreadable_iff hs hn hv reads =
          (rw (hs, hn, hv), assemble-refused_iff mandate_pairs reads)
