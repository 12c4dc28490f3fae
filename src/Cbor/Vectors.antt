-- ===== src/Cbor/Vectors.antt =====
-- The vector of a map, and the list that stands for it.
use obsigil_rs.Prelude.{◌≡◌, refl, sym, ap, ◌∙◌, [], ◌∷◌, List}
use obsigil_rs.Cbor.{
  Value, Entries, Pairs, map, no_entries, entry, to_list, from_list, items_to_list, items_from_list,
}

pub to_list-from_list : (ps : Pairs) → to_list (from_list ps) ≡ ps
to_list-from_list [] = refl
to_list-from_list ((k, v) ∷ ps) = ap (λ (t : Pairs). (k, v) ∷ t) (to_list-from_list ps)

pub from_list-to_list : (es : Entries) → from_list (to_list es) ≡ es
from_list-to_list no_entries = refl
from_list-to_list (entry k v es) = ap (entry k v) (from_list-to_list es)

pub items_to_list-from_list : (vs : List Value) → items_to_list (items_from_list vs) ≡ vs
items_to_list-from_list [] = refl
items_to_list-from_list (v ∷ vs) = ap (λ (t : List Value). v ∷ t) (items_to_list-from_list vs)

pub map_injective : (ps qs : Pairs) → map (from_list ps) ≡ map (from_list qs) → ps ≡ qs
map_injective ps qs h =
    let same : from_list ps ≡ from_list qs = cc in
    sym (to_list-from_list ps) ∙ ap to_list same ∙ to_list-from_list qs
