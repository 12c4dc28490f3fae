-- ===== src/Sort/Laws.antt =====
-- The sort puts the keys in order, moves elements without changing them, and leaves a sorted list.
use mathlib.Core.List.{Perm}
use mathlib.Core.List.Perm
use obsigil_rs.Prelude.{
  ◌≡◌, refl, ap, ◌∙◌, Bool, true, ◌||◌, inl, inr, List, [], ◌∷◌, arith, All, All-map, any,
  Bool-cases,
}
use obsigil_rs.Types.{Bytes}
use obsigil_rs.Sort.{leb_bytes, insert, sort_by_cached_key}
use obsigil_rs.Sort.Order.{leb_bytes-total, leb_bytes_trans}

module _ {A : Type 0} (key : A → Bytes) where
  abbrev pub Below : A → List A → Type 0
  Below x = All (λ y. leb_bytes (key x) (key y) ≡ true)

  -- Each key is at most every later one.
  abbrev pub IsSorted : List A → Type 0
  IsSorted [] = Unit {0}
  IsSorted (x ∷ xs) = Below x xs × IsSorted xs

  pub All-insert {κ} :
      (P : A → Type κ) (x : A) (xs : List A) → P x → All P xs → All P (insert key x xs)
  unfolding insert
  All-insert P x [] h hs = (h, tt)
  All-insert P x (y ∷ ys) h (hy, hs) = elim (Bool-cases (leb_bytes (key x) (key y))) [
    | inl e ↦ rw e (h, (hy, hs))
    | inr e ↦ rw e (hy, All-insert P x ys h hs)
  ]

  pub All-sort {κ} : (P : A → Type κ) (xs : List A) → All P xs → All P (sort_by_cached_key key xs)
  unfolding sort_by_cached_key
  All-sort P [] h = tt
  All-sort P (x ∷ xs) (h, hs) = All-insert P x (sort_by_cached_key key xs) h (All-sort P xs hs)

  any-insert : (p : A → Bool) (x : A) (xs : List A) → any p (insert key x xs) ≡ (p x || any p xs)
  unfolding insert
  any-insert p x [] = refl
  any-insert p x (y ∷ ys) = ground (arith, any-insert p x ys)

  pub any-sort : (p : A → Bool) (xs : List A) → any p (sort_by_cached_key key xs) ≡ any p xs
  unfolding sort_by_cached_key
  any-sort p [] = refl
  any-sort p (x ∷ xs) =
      any-insert p x (sort_by_cached_key key xs) ∙ ap (λ (b : Bool). p x || b) (any-sort p xs)

  pub Below-trans :
      (x y : A) (ys : List A) → leb_bytes (key x) (key y) ≡ true → Below y ys → Below x ys
  Below-trans x y ys h = All-map ys (λ z k. leb_bytes_trans (key x) (key y) (key z) h k)

  insert-IsSorted : (x : A) (xs : List A) → IsSorted xs → IsSorted (insert key x xs)
  unfolding insert
  insert-IsSorted x [] h = (tt, tt)
  insert-IsSorted x (y ∷ ys) (hy, hs) = elim (Bool-cases (leb_bytes (key x) (key y))) [
    | inl e ↦ rw e ((e, Below-trans x y ys e hy), (hy, hs))
    | inr e ↦
        rw e (All-insert _ x ys (leb_bytes-total (key x) (key y) e) hy, insert-IsSorted x ys hs)
  ]

  pub sort-IsSorted : (xs : List A) → IsSorted (sort_by_cached_key key xs)
  unfolding sort_by_cached_key
  sort-IsSorted [] = tt
  sort-IsSorted (x ∷ xs) = insert-IsSorted x (sort_by_cached_key key xs) (sort-IsSorted xs)

  pub insert-Below : (x : A) (xs : List A) → Below x xs → insert key x xs ≡ x ∷ xs
  unfolding insert
  insert-Below x [] h = refl
  insert-Below x (y ∷ ys) (e, h) = rw e

  pub sort_of_IsSorted : (xs : List A) → IsSorted xs → sort_by_cached_key key xs ≡ xs
  unfolding sort_by_cached_key
  sort_of_IsSorted [] h = refl
  sort_of_IsSorted (x ∷ xs) (hx, hs) = rw (sort_of_IsSorted xs hs) (insert-Below x xs hx)

  insert-perm : (x : A) (xs : List A) → Perm (insert key x xs) (x ∷ xs)
  unfolding insert
  insert-perm x [] = Perm.refl (x ∷ [])
  insert-perm x (y ∷ ys) = elim (Bool-cases (leb_bytes (key x) (key y))) [
    | inl e ↦ rw e (Perm.refl (x ∷ y ∷ ys))
    | inr e ↦ rw e (Perm.trans (Perm.cons y (insert-perm x ys)) (Perm.swap x y ys))
  ]

  pub sort-perm : (xs : List A) → Perm (sort_by_cached_key key xs) xs
  unfolding sort_by_cached_key
  sort-perm [] = Perm.refl []
  sort-perm (x ∷ xs) =
      Perm.trans (insert-perm x (sort_by_cached_key key xs)) (Perm.cons x (sort-perm xs))
