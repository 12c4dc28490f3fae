-- ===== src/Prelude/Outcome.antt =====
-- What a Rust function does: it returns a value, returns an error, or panics.
use mathlib.Core.Path.{◌≡◌, refl, ap, ◌∙◌}
use mathlib.Core.Logic.{◌≢◌, ◌⊎◌, inl, inr}
use mathlib.Core.Option.{Option, none, some}
use mathlib.Core.Bool.{Bool, true, false}

pub data Result {ℓ κ} (E : Type ℓ) (A : Type κ) : Type (ℓ ⊔ κ) where
  ok : A → Result E A
  err : E → Result E A
  panic : Result E A

-- the operator `?`
infixl 5 ◌>>=◌ ◌>>◌
abbrev pub ◌>>=◌ {ℓ κ μ} :
    {E : Type ℓ} {A : Type κ} {B : Type μ} → Result E A → (A → Result E B) → Result E B
ok a >>= f = f a
err e >>= f = err e
panic >>= f = panic

abbrev pub ◌>>◌ {ℓ κ} : {E : Type ℓ} {B : Type κ} → Result E (Unit {0}) → Result E B → Result E B
m >> k = m >>= λ _. k

-- `if test { return Err(e) }`
abbrev pub reject_if {ℓ} : {E : Type ℓ} → Bool → E → Result E (Unit {0})
reject_if true e = err e
reject_if false e = ok tt

module _ {ℓ κ} {E : Type ℓ} {A : Type κ} where
  -- `ok_or`
  abbrev pub ok_or : Option A → E → Result E A
  ok_or none e = err e
  ok_or (some a) e = ok a

  -- `expect` on an option
  abbrev pub expect : Option A → Result E A
  expect none = panic
  expect (some a) = ok a

-- An `Option` that code returns which may also panic: `err tt` is `None`.
abbrev pub Maybe {ℓ} : Type ℓ → Type ℓ
Maybe A = Result (Unit {0}) A

abbrev pub nothing {ℓ} : {A : Type ℓ} → Maybe A
nothing = err tt

-- An `Option` that is at hand, as the value of such code.
abbrev pub lift_option {ℓ} : {A : Type ℓ} → Option A → Maybe A
lift_option o = ok_or o tt

abbrev pub is_none {ℓ} : {A : Type ℓ} → Option A → Bool
is_none none = true
is_none (some a) = false

-- `map_err`
abbrev pub map_err {ℓ κ μ} :
    {E : Type ℓ} {F : Type κ} {A : Type μ} → (E → F) → Result E A → Result F A
map_err f (ok a) = ok a
map_err f (err e) = err (f e)
map_err f panic = panic

-- `ok()`: the error is dropped.
abbrev pub drop_error {ℓ κ} : {E : Type ℓ} {A : Type κ} → Result E A → Maybe A
drop_error r = map_err (λ _. tt) r

-- Inversion of a successful `?`.
pub >>=-eq-ok {ℓ κ μ} :
    {E : Type ℓ} {X : Type κ} {Y : Type μ} (r : Result E X) (k : X → Result E Y) {y : Y}
    → r >>= k ≡ ok y
    → (v : X) × (r ≡ ok v) × (k v ≡ ok y)
>>=-eq-ok panic k q = cc
>>=-eq-ok (err e) k q = cc
>>=-eq-ok (ok v) k q = (v, refl, q)

-- What a passed check, a value that was there and a changed error say.
module _ {ℓ} {E : Type ℓ} where
  pub reject_if-eq-ok : (b : Bool) (e : E) {u : Unit {0}} → reject_if b e ≡ ok u → b ≡ false
  reject_if-eq-ok true e h = cc
  reject_if-eq-ok false e h = refl

  pub ok_or-eq-ok {κ} : {A : Type κ} (o : Option A) (e : E) {a : A} → ok_or o e ≡ ok a → o ≡ some a
  ok_or-eq-ok none e h = cc
  ok_or-eq-ok (some a) e h = cc

  pub expect-eq-ok {κ} :
      {A : Type κ} (o : Option A) {a : A} → ◌≡◌ {A = Result E A} (expect o) (ok a) → o ≡ some a
  expect-eq-ok none h = cc
  expect-eq-ok (some a) h = cc

  pub ok_injective {κ} : {A : Type κ} {a b : A} → ◌≡◌ {A = Result E A} (ok a) (ok b) → a ≡ b
  ok_injective h = cc

pub map_err-eq-ok {ℓ κ μ} :
    {E : Type ℓ} {F : Type κ} {A : Type μ} (f : E → F) (r : Result E A) {a : A}
    → map_err f r ≡ ok a
    → r ≡ ok a
map_err-eq-ok f (ok d) h = cc
map_err-eq-ok f (err e) h = cc
map_err-eq-ok f panic h = cc

-- Code that does not panic.
module _ {ℓ} {E : Type ℓ} where
  pub >>=-ne-panic {κ μ} :
      {A : Type κ} {B : Type μ} (m : Result E A) (f : A → Result E B)
      → m ≢ panic
      → ((a : A) → m ≡ ok a → f a ≢ panic)
      → (m >>= f) ≢ panic
  >>=-ne-panic (ok a) f h k = k a refl
  >>=-ne-panic (err e) f h k = λ q. cc
  >>=-ne-panic panic f h k = λ q. h refl

  pub reject_if-ne-panic : (b : Bool) (e : E) → reject_if b e ≢ panic
  reject_if-ne-panic true e = λ q. cc
  reject_if-ne-panic false e = λ q. cc

  pub ok_or-ne-panic {κ} : {A : Type κ} (o : Option A) (e : E) → ok_or o e ≢ panic
  ok_or-ne-panic none e = λ q. cc
  ok_or-ne-panic (some a) e = λ q. cc

  pub map_err-ne-panic {κ μ} :
      {F : Type κ} {A : Type μ} (f : E → F) (r : Result E A) → r ≢ panic → map_err f r ≢ panic
  map_err-ne-panic f (ok a) h = λ q. cc
  map_err-ne-panic f (err e) h = λ q. cc
  map_err-ne-panic f panic h = λ q. h refl

-- Inversion of a `?` that failed.
pub >>=-eq-err {ℓ κ μ} :
    {E : Type ℓ} {X : Type κ} {Y : Type μ} (r : Result E X) (k : X → Result E Y) {e : E}
    → r >>= k ≡ err e
    → (r ≡ err e) ⊎ ((v : X) × (r ≡ ok v) × (k v ≡ err e))
>>=-eq-err panic k q = cc
>>=-eq-err (err e) k q = inl cc
>>=-eq-err (ok v) k q = inr (v, refl, q)

-- The error of a check, of a value that was not there, and of a changed error.
module _ {ℓ} {E : Type ℓ} where
  pub reject_if-eq-err : (b : Bool) (e : E) {f : E} → reject_if b e ≡ err f → e ≡ f
  reject_if-eq-err true e h = cc
  reject_if-eq-err false e h = cc

  pub ok_or-eq-err {κ} : {A : Type κ} (o : Option A) (e : E) {f : E} → ok_or o e ≡ err f → e ≡ f
  ok_or-eq-err none e h = cc
  ok_or-eq-err (some a) e h = cc

  pub reject_if-fails : (b : Bool) (e : E) {f : E} → reject_if b e ≡ err f → b ≡ true
  reject_if-fails true e h = refl
  reject_if-fails false e h = cc

  pub ok_or-none {κ} : {A : Type κ} (o : Option A) (e : E) {f : E} → ok_or o e ≡ err f → o ≡ none
  ok_or-none none e h = refl
  ok_or-none (some a) e h = cc

  pub map_err-eq-err {κ μ} :
      {F : Type κ} {A : Type μ} (g : F → E) (r : Result F A) {f : E}
      → map_err g r ≡ err f
      → (d : F) × (r ≡ err d) × (g d ≡ f)
  map_err-eq-err g (ok a) h = cc
  map_err-eq-err g (err d) h = (d, refl, cc)
  map_err-eq-err g panic h = cc

-- A `?` on a value that is at hand.
pub >>=-ok {ℓ κ μ} :
    {E : Type ℓ} {A : Type κ} {B : Type μ} {m : Result E A} (f : A → Result E B) {a : A}
    {r : Result E B}
    → m ≡ ok a
    → f a ≡ r
    → (m >>= f) ≡ r
>>=-ok f h k = ap (λ n. n >>= f) h ∙ k

-- What follows of a value decides.
pub >>=-congr {ℓ κ μ} :
    {E : Type ℓ} {A : Type κ} {B : Type μ} (m : Result E A) {f g : A → Result E B}
    → ((a : A) → f a ≡ g a)
    → (m >>= f) ≡ (m >>= g)
>>=-congr (ok a) h = h a
>>=-congr (err e) h = refl
>>=-congr panic h = refl
