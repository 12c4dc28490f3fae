-- ===== src/Sort/Kept.antt =====
-- Sorting, then keeping some of the elements, is keeping them, then sorting.
use obsigil_rs.Prelude.{
  ◌≡◌, refl, Bool, inl, inr, List, [], ◌∷◌, arith, if◌then◌else◌, keep, Bool-cases,
}
use obsigil_rs.Types.{Bytes}
use obsigil_rs.Sort.{leb_bytes, insert, sort_by_cached_key}
use obsigil_rs.Sort.Laws.{Below, IsSorted, sort-IsSorted, Below-trans, insert-Below}

module _ {A : Type 0} (key : A → Bytes) (p : A → Bool) where
  Below-keep : (x : A) (xs : List A) → Below key x xs → Below key x (keep p xs)
  Below-keep x [] h = tt
  Below-keep x (y ∷ ys) (h, hs) = elim (Bool-cases (p y)) [
    | inl e ↦ rw e (h, Below-keep x ys hs)
    | inr e ↦ rw e (Below-keep x ys hs)
  ]

  keep-insert :
      (x : A) (xs : List A)
      → IsSorted key xs
      → keep p (insert key x xs) ≡ (if p x then insert key x (keep p xs) else keep p xs)
  unfolding insert
  keep-insert x [] h = refl
  keep-insert x (y ∷ ys) (hy, hs) = elim (Bool-cases (leb_bytes (key x) (key y))) [
    | inl e ↦
        let b = Below-keep x (y ∷ ys) (e, Below-trans key x y ys e hy) in
        rw e (rw (insert-Below key x (keep p (y ∷ ys)) b))
    | inr e ↦ rw (e, keep-insert x ys hs) (ground arith)
  ]

  pub keep-sort :
      (xs : List A) → keep p (sort_by_cached_key key xs) ≡ sort_by_cached_key key (keep p xs)
  unfolding sort_by_cached_key
  keep-sort [] = refl
  keep-sort (x ∷ xs) =
      rw (keep-insert x (sort_by_cached_key key xs) (sort-IsSorted key xs), keep-sort xs)
        (ground arith)
