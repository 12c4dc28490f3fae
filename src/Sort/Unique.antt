-- ===== src/Sort/Unique.antt =====
-- Where no key repeats, the order before the sort does not show after it.
use mathlib.Core.List.{Permᴰ}
use obsigil_rs.Prelude.{
  ◌≡◌, ◌≢◌, refl, sym, ap, ◌∙◌, List, [], ◌∷◌, arith, All, All-append, All-perm, ◌++◌, inl, inr,
  Bool-cases,
}
use mathlib.Core.Path.{subst, ap₂}
use obsigil_rs.Types.{Bytes}
use obsigil_rs.Sort.{leb_bytes, insert, sort_by_cached_key}
use obsigil_rs.Sort.Laws.{All-insert, All-sort}
use obsigil_rs.Sort.Order.{leb_bytes-total, leb_bytes_trans, leb_bytes_antisymm}

module _ {A : Type 0} (key : A → Bytes) where
  -- No key occurs twice.
  abbrev pub Distinct : List A → Type 0
  Distinct [] = Unit {0}
  Distinct (x ∷ xs) = All (λ y. key x ≢ key y) xs × Distinct xs

  insert_comm :
      (a b : A) (xs : List A)
      → key a ≢ key b
      → insert key a (insert key b xs) ≡ insert key b (insert key a xs)
  unfolding insert
  insert_comm a b [] h =
      ground (arith, leb_bytes-total (key a) (key b), leb_bytes_antisymm (key a) (key b))
  insert_comm a b (y ∷ ys) h = ground (
    arith,
    insert_comm a b ys h,
    leb_bytes-total (key a) (key b),
    leb_bytes-total (key a) (key y),
    leb_bytes-total (key b) (key y),
    leb_bytes_antisymm (key a) (key b),
    leb_bytes_trans (key a) (key b) (key y),
    leb_bytes_trans (key b) (key a) (key y),
  )

  Apart_of :
      (xs : List A) {a b : A} → a ≡ b → All (λ y. key a ≢ key y) xs → All (λ y. key b ≢ key y) xs
  Apart_of xs = subst (λ z. All (λ y. key z ≢ key y) xs)

  Distinct-perm : {xs ys : List A} → Permᴰ xs ys → Distinct xs → Distinct ys
  Distinct-perm Permᴰ.nil h = tt
  Distinct-perm (Permᴰ.cons {a} {l₂ = l} e d) (h, hs) =
      (Apart_of l e (All-perm (λ y. key a ≢ key y) d h), Distinct-perm d hs)
  Distinct-perm (Permᴰ.swap {l = l} e f) ((hab, ha), (hb, hs)) =
      ((λ q. hab (ap key e ∙ sym q ∙ sym (ap key f)), Apart_of l f hb), (Apart_of l e ha, hs))
  Distinct-perm (Permᴰ.trans d e) h = Distinct-perm e (Distinct-perm d h)

  pub sort_unique :
      {xs ys : List A}
      → Permᴰ xs ys
      → Distinct xs
      → sort_by_cached_key key xs ≡ sort_by_cached_key key ys
  unfolding sort_by_cached_key
  sort_unique Permᴰ.nil h = refl
  sort_unique (Permᴰ.cons e d) (h, hs) = ap₂ (insert key) e (sort_unique d hs)
  sort_unique (Permᴰ.swap {a} {b} {l = l} e f) ((hab, ha), (hb, hs)) =
      insert_comm a b (sort_by_cached_key key l) hab
      ∙ ap₂ (insert key) f (ap (λ (z : A). insert key z (sort_by_cached_key key l)) e)
  sort_unique (Permᴰ.trans d e) h = sort_unique d h ∙ sort_unique e (Distinct-perm d h)

  Distinct-insert :
      (x : A) (xs : List A) → All (λ y. key x ≢ key y) xs → Distinct xs → Distinct (insert key x xs)
  unfolding insert
  Distinct-insert x [] h d = (tt, tt)
  Distinct-insert x (y ∷ ys) (h, hs) (dy, ds) = elim (Bool-cases (leb_bytes (key x) (key y))) [
    | inl e ↦ rw e ((h, hs), (dy, ds))
    | inr e ↦
        rw e
          (All-insert key (λ z. key y ≢ key z) x ys (λ q. h (sym q)) dy, Distinct-insert x ys hs ds)
  ]

  pub Distinct-sort : (xs : List A) → Distinct xs → Distinct (sort_by_cached_key key xs)
  unfolding sort_by_cached_key
  Distinct-sort [] d = tt
  Distinct-sort (x ∷ xs) (dx, ds) =
      Distinct-insert x (sort_by_cached_key key xs) (All-sort key (λ y. key x ≢ key y) xs dx)
        (Distinct-sort xs ds)

  pub Distinct-append :
      (xs ys : List A)
      → Distinct xs
      → Distinct ys
      → All (λ a. All (λ b. key a ≢ key b) ys) xs
      → Distinct (xs ++ ys)
  Distinct-append [] ys d e h = e
  Distinct-append (x ∷ xs) ys (dx, ds) e (h, hs) =
      (All-append (λ b. key x ≢ key b) xs ys dx h, Distinct-append xs ys ds e hs)

  All-of_insert {κ} :
      (P : A → Type κ) (x : A) (xs : List A) → All P (insert key x xs) → P x × All P xs
  unfolding insert
  All-of_insert P x [] h = h
  All-of_insert P x (y ∷ ys) h = elim (Bool-cases (leb_bytes (key x) (key y))) [
    | inl e ↦ (rw e at h)
    | inr e ↦
        let h' : P y × All P (insert key x ys) = (rw e at h) in
        let (a, b) = All-of_insert P x ys h'.1 in (a, (h'.0, b))
  ]

  All-of_sort {κ} : (P : A → Type κ) (xs : List A) → All P (sort_by_cached_key key xs) → All P xs
  unfolding sort_by_cached_key
  All-of_sort P [] h = tt
  All-of_sort P (x ∷ xs) h =
      let (a, b) = All-of_insert P x (sort_by_cached_key key xs) h in (a, All-of_sort P xs b)

  Distinct-of_insert :
      (x : A) (xs : List A) → Distinct (insert key x xs) → All (λ y. key x ≢ key y) xs × Distinct xs
  unfolding insert
  Distinct-of_insert x [] h = h
  Distinct-of_insert x (y ∷ ys) h = elim (Bool-cases (leb_bytes (key x) (key y))) [
    | inl e ↦ (rw e at h)
    | inr e ↦
        let h' : All (λ z. key y ≢ key z) (insert key x ys) × Distinct (insert key x ys) =
          (rw e at h) in
        let (a, b) = All-of_insert (λ z. key y ≢ key z) x ys h'.0 in
        let (c, d) = Distinct-of_insert x ys h'.1 in (((λ q. a (sym q)), c), (b, d))
  ]

  -- Sorting hides no repeated key.
  pub Distinct-of_sort : (xs : List A) → Distinct (sort_by_cached_key key xs) → Distinct xs
  unfolding sort_by_cached_key
  Distinct-of_sort [] h = tt
  Distinct-of_sort (x ∷ xs) h =
      let (a, b) = Distinct-of_insert x (sort_by_cached_key key xs) h in
      (All-of_sort (λ y. key x ≢ key y) xs a, Distinct-of_sort xs b)
