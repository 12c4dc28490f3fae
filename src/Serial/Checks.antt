-- ===== src/Serial/Checks.antt =====
-- Canonicalizing a value neither adds nor removes a NaN or a forbidden map key.
use obsigil_rs.Prelude.{◌≡◌, refl, ◌∙◌, Bool, not, ◌||◌, [], ◌∷◌, arith, any}
use obsigil_rs.Cbor.{
  Value, Items, Entries, Pairs, integer, tag, array, map, no_items, item, no_entries, entry,
  to_list, from_list,
}
use obsigil_rs.Sort.{sort_by_cached_key}
use obsigil_rs.Sort.Laws.{any-sort}
use obsigil_rs.Crates.{Crates}
use obsigil_rs.Serial.{
  contains_nan, any_nan, any_nan_entry, has_invalid_map_key, any_invalid_item, any_invalid_entry,
  is_integer_or_text, entry_key, canonicalize, canonicalize_items, canonicalize_entries,
}

-- The tests that `strict_map` makes on one entry.
abbrev pub nan_entry : Value × Value → Bool
nan_entry (k, v) = contains_nan k || contains_nan v

abbrev pub invalid_entry : Value × Value → Bool
invalid_entry (k, v) = not (is_integer_or_text k) || has_invalid_map_key v

any_nan_entry-from_list : (ps : Pairs) → any_nan_entry (from_list ps) ≡ any nan_entry ps
unfolding contains_nan
any_nan_entry-from_list [] = refl
any_nan_entry-from_list ((k, v) ∷ ps) = ground (arith, any_nan_entry-from_list ps)

any-to_list_nan : (es : Entries) → any nan_entry (to_list es) ≡ any_nan_entry es
unfolding contains_nan
any-to_list_nan no_entries = refl
any-to_list_nan (entry k v es) = ground (arith, any-to_list_nan es)

any_invalid_entry-from_list : (ps : Pairs) → any_invalid_entry (from_list ps) ≡ any invalid_entry ps
unfolding has_invalid_map_key
any_invalid_entry-from_list [] = refl
any_invalid_entry-from_list ((k, v) ∷ ps) = ground (arith, any_invalid_entry-from_list ps)

any-to_list_invalid : (es : Entries) → any invalid_entry (to_list es) ≡ any_invalid_entry es
unfolding has_invalid_map_key
any-to_list_invalid no_entries = refl
any-to_list_invalid (entry k v es) = ground (arith, any-to_list_invalid es)

module _ (x : Crates) where
  nan_sorted :
      (es : Entries)
      → any_nan_entry (from_list (sort_by_cached_key (entry_key x) (to_list es))) ≡ any_nan_entry es
  nan_sorted es =
      any_nan_entry-from_list (sort_by_cached_key (entry_key x) (to_list es))
      ∙ any-sort (entry_key x) nan_entry (to_list es)
      ∙ any-to_list_nan es

  invalid_sorted :
      (es : Entries)
      → any_invalid_entry (from_list (sort_by_cached_key (entry_key x) (to_list es)))
        ≡ any_invalid_entry es
  invalid_sorted es =
      any_invalid_entry-from_list (sort_by_cached_key (entry_key x) (to_list es))
      ∙ any-sort (entry_key x) invalid_entry (to_list es)
      ∙ any-to_list_invalid es

  mutual
    unfolding canonicalize contains_nan

    nan_value : (v : Value) → contains_nan (canonicalize x v) ≡ contains_nan v
    nan_value (map es) = nan_sorted (canonicalize_entries x es) ∙ nan_entries es
    nan_value (array xs) = nan_items xs
    nan_value (tag n v) = nan_value v
    nan_value _ = refl

    nan_items : (xs : Items) → any_nan (canonicalize_items x xs) ≡ any_nan xs
    nan_items no_items = refl
    nan_items (item v xs) = cc (nan_value v, nan_items xs)

    nan_entries : (es : Entries) → any_nan_entry (canonicalize_entries x es) ≡ any_nan_entry es
    nan_entries no_entries = refl
    nan_entries (entry k v es) = cc (nan_value k, nan_value v, nan_entries es)

  pub is_integer_or_text-canonicalize :
      (v : Value) → is_integer_or_text (canonicalize x v) ≡ is_integer_or_text v
  unfolding canonicalize
  is_integer_or_text-canonicalize (integer i) = refl
  is_integer_or_text-canonicalize _ = refl

  mutual
    unfolding canonicalize has_invalid_map_key

    invalid_value : (v : Value) → has_invalid_map_key (canonicalize x v) ≡ has_invalid_map_key v
    invalid_value (map es) = invalid_sorted (canonicalize_entries x es) ∙ invalid_entries es
    invalid_value (array xs) = invalid_items xs
    invalid_value (tag n v) = invalid_value v
    invalid_value _ = refl

    invalid_items : (xs : Items) → any_invalid_item (canonicalize_items x xs) ≡ any_invalid_item xs
    invalid_items no_items = refl
    invalid_items (item v xs) = cc (invalid_value v, invalid_items xs)

    invalid_entries :
        (es : Entries) → any_invalid_entry (canonicalize_entries x es) ≡ any_invalid_entry es
    invalid_entries no_entries = refl
    invalid_entries (entry k v es) =
        cc (is_integer_or_text-canonicalize k, invalid_value v, invalid_entries es)

  pub contains_nan-canonicalize : (v : Value) → contains_nan (canonicalize x v) ≡ contains_nan v
  contains_nan-canonicalize v = nan_value v

  pub has_invalid_map_key-canonicalize :
      (v : Value) → has_invalid_map_key (canonicalize x v) ≡ has_invalid_map_key v
  has_invalid_map_key-canonicalize v = invalid_value v
