-- ===== src/Serial/Canonical.antt =====
-- `canonicalize` of serial.rs reaches the canonical form, and leaves a canonical value alone.
use obsigil_rs.Prelude.{◌≡◌, refl, sym, ap, [], ◌∷◌, All}
use mathlib.Core.Path.{subst, ap₂}
use obsigil_rs.Cbor.{
  Value, Items, Entries, Pairs, tag, array, map, no_items, item, no_entries, entry, to_list,
  from_list,
}
use obsigil_rs.Cbor.Vectors.{to_list-from_list, from_list-to_list}
use obsigil_rs.Sort.{sort_by_cached_key}
use obsigil_rs.Sort.Laws.{IsSorted, sort-IsSorted, sort_of_IsSorted, All-sort}
use obsigil_rs.Crates.{Crates}
use obsigil_rs.Serial.{entry_key, canonicalize, canonicalize_items, canonicalize_entries}

module _ (x : Crates) where
  -- Every map, at every depth, has its entries in the order of their encoded keys.
  abbrev mutual
    pub IsCanonical : Value → Type 0
    IsCanonical (map es) = IsSorted (entry_key x) (to_list es) × CanonicalEntries es
    IsCanonical (array xs) = CanonicalItems xs
    IsCanonical (tag n v) = IsCanonical v
    IsCanonical _ = Unit {0}

    pub CanonicalItems : Items → Type 0
    CanonicalItems no_items = Unit {0}
    CanonicalItems (item v xs) = IsCanonical v × CanonicalItems xs

    pub CanonicalEntries : Entries → Type 0
    CanonicalEntries no_entries = Unit {0}
    CanonicalEntries (entry k v es) = IsCanonical k × IsCanonical v × CanonicalEntries es

  abbrev CanonicalPair : Value × Value → Type 0
  CanonicalPair (k, v) = IsCanonical k × IsCanonical v

  to_pairs : (es : Entries) → CanonicalEntries es → All CanonicalPair (to_list es)
  to_pairs no_entries h = tt
  to_pairs (entry k v es) (hk, hv, hs) = ((hk, hv), to_pairs es hs)

  of_pairs : (ps : Pairs) → All CanonicalPair ps → CanonicalEntries (from_list ps)
  of_pairs [] h = tt
  of_pairs ((k, v) ∷ ps) (h, hs) = (h.0, h.1, of_pairs ps hs)

  sorted_entries :
      (es : Entries)
      → CanonicalEntries es
      → IsCanonical (map (from_list (sort_by_cached_key (entry_key x) (to_list es))))
  sorted_entries es h =
      let sorted = sort_by_cached_key (entry_key x) (to_list es) in
      (
        subst (IsSorted (entry_key x)) (sym (to_list-from_list sorted))
            (sort-IsSorted (entry_key x) (to_list es)),
        of_pairs sorted (All-sort (entry_key x) CanonicalPair (to_list es) (to_pairs es h)),
      )

  mutual
    unfolding canonicalize

    reach : (v : Value) → IsCanonical (canonicalize x v)
    reach (map es) = sorted_entries (canonicalize_entries x es) (reach_entries es)
    reach (array xs) = reach_items xs
    reach (tag n v) = reach v
    reach _ = tt

    reach_items : (xs : Items) → CanonicalItems (canonicalize_items x xs)
    reach_items no_items = tt
    reach_items (item v xs) = (reach v, reach_items xs)

    reach_entries : (es : Entries) → CanonicalEntries (canonicalize_entries x es)
    reach_entries no_entries = tt
    reach_entries (entry k v es) = (reach k, reach v, reach_entries es)

  mutual
    unfolding canonicalize

    stay : (v : Value) → IsCanonical v → canonicalize x v ≡ v
    stay (map es) (hs, he) =
        rw
          (stay_entries es he, sort_of_IsSorted (entry_key x) (to_list es) hs, from_list-to_list es)
    stay (array xs) h = ap array (stay_items xs h)
    stay (tag n v) h = ap (tag n) (stay v h)
    stay _ h = refl

    stay_items : (xs : Items) → CanonicalItems xs → canonicalize_items x xs ≡ xs
    stay_items no_items h = refl
    stay_items (item v xs) (hv, hs) = ap₂ item (stay v hv) (stay_items xs hs)

    stay_entries : (es : Entries) → CanonicalEntries es → canonicalize_entries x es ≡ es
    stay_entries no_entries h = refl
    stay_entries (entry k v es) (hk, hv, hs) = cc (stay k hk, stay v hv, stay_entries es hs)

  -- The result of `canonicalize` has the entries of every map, at every depth, in the order of
  -- their encoded keys.
  pub canonicalize-IsCanonical : (v : Value) → IsCanonical (canonicalize x v)
  canonicalize-IsCanonical v = reach v

  -- `canonicalize` changes no value whose maps, at every depth, are in order.
  pub canonicalize_of_IsCanonical : (v : Value) → IsCanonical v → canonicalize x v ≡ v
  canonicalize_of_IsCanonical v = stay v

  pub canonicalize_idem : (v : Value) → canonicalize x (canonicalize x v) ≡ canonicalize x v
  canonicalize_idem v = stay (canonicalize x v) (reach v)
