-- ===== src/Serial/Manifest.antt =====
-- What `to_manifest_plaintext` of serial.rs writes, `from_manifest_plaintext` reads back.
use obsigil_rs.Prelude.{
  ◌≡◌, ◌≢◌, refl, sym, ap, ◌∙◌, Bool, false, ◌||◌, none, some, [], ◌∷◌, ◌++◌, append_assoc,
  append-nil, any-append, All, All-append, keep, keep-append, keep-All, keep_none, ok,
}
use mathlib.Core.Path.{subst}
use obsigil_rs.Types.{Text, NumericDate}
use obsigil_rs.Cbor.{Value, Entries, Pairs, text, map, to_list, from_list}
use obsigil_rs.Cbor.Vectors.{from_list-to_list}
use obsigil_rs.Sort.{insert, sort_by_cached_key}
use obsigil_rs.Sort.Laws.{All-sort}
use obsigil_rs.Sort.Kept.{keep-sort}
use obsigil_rs.Sort.Unique.{Distinct, Distinct-append}
use obsigil_rs.Crates.{Crates, Serde}
use obsigil_rs.Crates.Laws.{CborLaws}
use obsigil_rs.Serial.{
  ikey, key_exp, key_iss, entry_key, canonicalize, classify, app, contains_nan, has_invalid_map_key,
}
use obsigil_rs.Serial.Checks.{nan_entry, invalid_entry}
use obsigil_rs.Serial.Keys.{encode_apart}
use obsigil_rs.Serial.Write.{assemble, to_manifest_plaintext}
use obsigil_rs.Serial.Read.{
  read_text, read_int, ManifestScan, manifest_step, manifest_loop, from_manifest_plaintext,
}
use obsigil_rs.Serial.Loop.{last_read, has_key, is_app_entry, not_reserved, is_app_entry_of}
use obsigil_rs.Serial.Assemble.{
  canonical_pairs, sorted_pairs, canonicalize-map, IsPayload, strict_map-assemble,
}
use obsigil_rs.Serial.App.{
  AppKeys, app_key_not_negative, IsAppValue, app_entries_of, nan_app, AppKeys-canonical,
  Distinct-canonical, app-is_app_entry, app-not_reserved, classify_app_key,
}
use obsigil_rs.Serial.RoundTrip.{canonical_pairs-append}

module _ (x : Crates) where
  -- An entry that the loop over a manifest accepts.
  pub data IsClaim : Value × Value → Type 0 where
    iss_claim : {v : Value} (t : Text) → read_text v ≡ ok t → IsClaim (ikey key_iss, v)
    exp_claim : {v : Value} (t : NumericDate) → read_int v ≡ ok t → IsClaim (ikey key_exp, v)
    app_claim : {k v : Value} → classify x k ≡ app → IsClaim (k, v)

  abbrev pub collected : Pairs → ManifestScan → ManifestScan
  collected ps m = record {
    iss = last_read read_text (keep (has_key key_iss) ps) m.iss;
    exp = last_read read_int (keep (has_key key_exp) ps) m.exp;
    rest = m.rest ++ keep (is_app_entry x) ps;
  }

  claim_step :
      (p : Value × Value) (ps : Pairs) (m : ManifestScan)
      → IsClaim p
      → (m' : ManifestScan) × (manifest_step x p m ≡ ok m')
        × (collected ps m' ≡ collected (p ∷ ps) m)
  unfolding manifest_step classify
  claim_step _ ps m (iss_claim t h) = (record m { iss = some t }, rw h, rw h)
  claim_step _ ps m (exp_claim t h) = (record m { exp = some t }, rw h, rw h)
  claim_step _ ps m (app_claim {k} {v} h) =
      let (n1, n2, n3, n4, n5) = not_reserved x k h in
      let a = is_app_entry_of x k v h in
      (
        record m { rest = m.rest ++ (k, v) ∷ [] },
        rw (h, manifest_step),
        rw (n2, n5, a, append_assoc m.rest ((k, v) ∷ []) (keep (is_app_entry x) ps)),
      )

  pub manifest_loop-eq-collected :
      (ps : Pairs) (m : ManifestScan) → All IsClaim ps → manifest_loop x ps m ≡ ok (collected ps m)
  unfolding manifest_loop
  manifest_loop-eq-collected [] m h = rw append-nil
  manifest_loop-eq-collected (p ∷ ps) m (h, hs) =
      let (m', hm, same) = claim_step p ps m h in
      rw hm (manifest_loop-eq-collected ps m' hs ∙ ap ok same)

  module _ {T : Type 0} (s : Serde T) (a : T) (es : Entries) (iss : Text) where
    -- The one reserved claim, and all that is encoded.
    abbrev issued : Pairs
    issued = (ikey key_iss, text iss) ∷ []

    abbrev pub claim_entries : Pairs
    claim_entries = to_list es ++ issued

    canonical_claims : canonical_pairs x claim_entries ≡ canonical_pairs x (to_list es) ++ issued
    unfolding canonicalize
    canonical_claims = canonical_pairs-append x (to_list es) issued

    apart :
        CborLaws x
        → (ps : Pairs) → AppKeys ps
        → All (λ p. All (λ q. entry_key x p ≢ entry_key x q) issued) ps
    apart l [] h = tt
    apart l ((k, v) ∷ ps) (h, hs) =
        ((encode_apart x l k 4 (app_key_not_negative k h), tt), apart l ps hs)

    claims-IsPayload : CborLaws x → IsAppValue x s a es → IsPayload x claim_entries
    unfolding contains_nan has_invalid_map_key
    claims-IsPayload l h =
        let own = canonical_pairs x (to_list es) in
        let keys = AppKeys-canonical x (to_list es) h.keys in
        record {
          no_nan =
              any-append nan_entry (to_list es) issued
              ∙ ap (λ (b : Bool). b || false) (nan_app x (to_list es) h.keys h.no_nan);
          portable =
              any-append invalid_entry (to_list es) issued
              ∙ ap (λ (b : Bool). b || false) h.portable;
          distinct = subst (Distinct (entry_key x)) (sym canonical_claims) (
              Distinct-append (entry_key x) own issued
                (Distinct-canonical x (to_list es) h.keys h.distinct) (tt, tt) (apart l own keys));
        }

    -- Of the sorted entries, those that a test holds on and that the application has none of.
    kept_of_sorted :
        (p : Value × Value → Bool)
        → All (λ q. p q ≡ false) (canonical_pairs x (to_list es))
        → keep p (sorted_pairs x claim_entries) ≡ sort_by_cached_key (entry_key x) (keep p issued)
    kept_of_sorted p none_of =
        let own = canonical_pairs x (to_list es) in
        keep-sort (entry_key x) p (canonical_pairs x claim_entries)
        ∙ ap (sort_by_cached_key (entry_key x)) (
            ap (keep p) canonical_claims
            ∙ keep-append p own issued
            ∙ ap (λ (t : Pairs). t ++ keep p issued) (keep_none p own none_of))

    app_of_sorted_claims :
        CborLaws x
        → AppKeys (to_list es)
        → keep (is_app_entry x) (sorted_pairs x claim_entries) ≡ sorted_pairs x (to_list es)
    unfolding classify
    app_of_sorted_claims l h =
        let own = canonical_pairs x (to_list es) in
        let keys = AppKeys-canonical x (to_list es) h in
        keep-sort (entry_key x) (is_app_entry x) (canonical_pairs x claim_entries)
        ∙ ap (sort_by_cached_key (entry_key x)) (
            ap (keep (is_app_entry x)) canonical_claims
            ∙ keep-append (is_app_entry x) own issued
            ∙ ap (λ (t : Pairs). t ++ [])
                (keep-All (is_app_entry x) own (app-is_app_entry x l own keys))
            ∙ append-nil own)

    app-IsClaim : CborLaws x → (ps : Pairs) → AppKeys ps → All IsClaim ps
    app-IsClaim l [] h = tt
    app-IsClaim l ((k, v) ∷ ps) (h, hs) =
        (app_claim (classify_app_key x l k h), app-IsClaim l ps hs)

    sorted-IsClaim : CborLaws x → AppKeys (to_list es) → All IsClaim (sorted_pairs x claim_entries)
    unfolding read_text
    sorted-IsClaim l h =
        let own = canonical_pairs x (to_list es) in
        let keys = AppKeys-canonical x (to_list es) h in
        All-sort (entry_key x) IsClaim (canonical_pairs x claim_entries) (
          subst (All IsClaim) (sym canonical_claims)
            (All-append IsClaim own issued (app-IsClaim l own keys) (iss_claim iss refl, tt)))

    kept_iss :
        AppKeys (to_list es)
        → last_read read_text (keep (has_key key_iss) (sorted_pairs x claim_entries)) none
          ≡ some iss
    unfolding sort_by_cached_key insert read_text
    kept_iss h =
        let keys = AppKeys-canonical x (to_list es) h in
        ap (λ (ps : Pairs). last_read read_text ps none)
          (kept_of_sorted (has_key key_iss)
            (app-not_reserved x (canonical_pairs x (to_list es)) 4 keys))

    kept_exp :
        AppKeys (to_list es)
        → last_read read_int (keep (has_key key_exp) (sorted_pairs x claim_entries)) none ≡ none
    unfolding sort_by_cached_key
    kept_exp h =
        let keys = AppKeys-canonical x (to_list es) h in
        ap (λ (ps : Pairs). last_read read_int ps none)
          (kept_of_sorted (has_key key_exp)
            (app-not_reserved x (canonical_pairs x (to_list es)) 1 keys))

    -- An application value that serde maps to entries with distinct application keys, without NaN
    -- and without forbidden keys, and that serde reads back from those entries in canonical order,
    -- is written with the issuer of a manifest and read back, both unchanged and without an `exp`,
    -- if CBOR keeps its laws and the reader reads the written map back.
    pub from_manifest_plaintext-to_manifest_plaintext :
        CborLaws x
        → IsAppValue x s a es
        → x.from_reader (assemble x claim_entries)
          ≡ some (canonicalize x (map (from_list claim_entries)))
        → (to_manifest_plaintext x s iss a ≡ ok (assemble x claim_entries))
          × (from_manifest_plaintext x s (assemble x claim_entries)
              ≡ ok (record { iss = iss; exp = none; app = a }))
    unfolding to_manifest_plaintext from_manifest_plaintext
    from_manifest_plaintext-to_manifest_plaintext l h reads =
        let start : ManifestScan = record { iss = none; exp = none; rest = [] } in
        let same : s.deserialized (map (from_list (sorted_pairs x (to_list es)))) ≡ some a =
          (ap s.deserialized (
              sym (canonicalize-map x (to_list es))
              ∙ ap (λ (e : Entries). canonicalize x (map e)) (from_list-to_list es))
            ∙ h.deserialized) in
        (
          rw (app_entries_of x s a es l h),
          rw (
            strict_map-assemble x claim_entries (claims-IsPayload l h) reads,
            manifest_loop-eq-collected (sorted_pairs x claim_entries) start
                (sorted-IsClaim l h.keys),
            kept_iss h.keys,
            kept_exp h.keys,
            app_of_sorted_claims l h.keys,
            same,
          ),
        )
