-- ===== src/Prelude/Results.antt =====
-- Fallible code: a value, an error, or a panic. A panic passes through `?` like an error, but is
-- no value of the error type.
use mathlib.Core.Path.{◌≡◌, refl}
use mathlib.Core.Bool.{Bool, true, false}
use mathlib.Core.Logic.{◌⊎◌, inl, inr}
use mathlib.Core.Option.{Option, none, some}

pub data Result {ℓ κ} (E : Type ℓ) (A : Type κ) : Type (ℓ ⊔ κ) where
  ok : A → Result E A
  err : E → Result E A
  panic : Result E A

-- `?`, and `?` on a result without a value.
infixl 5 ◌>>=◌ ◌>>◌
abbrev pub ◌>>=◌ {κ ℓ μ} :
    {T : Type κ} {E : Type ℓ} {U : Type μ} → Result E T → (T → Result E U) → Result E U
panic >>= second = panic
err reason >>= second = err reason
ok t >>= second = second t

abbrev pub ◌>>◌ {κ ℓ} : {E : Type κ} {U : Type ℓ} → Result E (Unit {0}) → Result E U → Result E U
first >> second = first >>= λ done. second

-- `Result::map_err`, and the conversion by `From` that `?` makes.
abbrev pub map_err {ℓ κ μ} :
    {E : Type ℓ} {F : Type κ} {A : Type μ} → (E → F) → Result E A → Result F A
map_err f (ok a) = ok a
map_err f (err e) = err (f e)
map_err f panic = panic

-- `Option::ok_or`
abbrev pub ok_or {ℓ κ} : {E : Type ℓ} {A : Type κ} → Option A → E → Result E A
ok_or none e = err e
ok_or (some a) e = ok a

-- The call returned `Ok`.
abbrev pub is_ok {ℓ κ} : {E : Type ℓ} {A : Type κ} → Result E A → Bool
is_ok (ok a) = true
is_ok (err e) = false
is_ok panic = false

pub Result-cases {ℓ κ} :
    {E : Type ℓ} {A : Type κ} (r : Result E A)
    → ((a : A) × (r ≡ ok a)) ⊎ ((e : E) × (r ≡ err e)) ⊎ (r ≡ panic)
Result-cases (ok a) = inl (a, refl)
Result-cases (err e) = inr (inl (e, refl))
Result-cases panic = inr (inr refl)

pub ok-injective {ℓ κ} :
    {E : Type ℓ} {A : Type κ} {a b : A} → ◌≡◌ {A = Result E A} (ok a) (ok b) → a ≡ b
ok-injective h = cc

-- The steps of a chain that succeeds: the value of the first, and what the second makes of it.
pub >>=-eq-ok {κ ℓ μ} :
    {T : Type κ} {E : Type ℓ} {U : Type μ} (first : Result E T) (second : T → Result E U) {u : U}
    → first >>= second ≡ ok u
    → (t : T) × (first ≡ ok t) × (second t ≡ ok u)
>>=-eq-ok panic second q = cc
>>=-eq-ok (err reason) second q = cc
>>=-eq-ok (ok t) second q = (t, refl, q)

pub map_err-eq-ok {ℓ κ μ} :
    {E : Type ℓ} {F : Type κ} {A : Type μ} (f : E → F) (m : Result E A) {a : A}
    → map_err f m ≡ ok a
    → m ≡ ok a
map_err-eq-ok f (ok a) h = cc
map_err-eq-ok f (err e) h = cc
map_err-eq-ok f panic h = cc

-- The steps of `r?`, with a conversion of the error, that succeed.
pub map_err->>=-eq-ok {κ ℓ μ ν} :
    {T : Type κ} {E : Type ℓ} {F : Type μ} {U : Type ν} (from : E → F) (first : Result E T)
    (second : T → Result F U) {u : U}
    → map_err from first >>= second ≡ ok u
    → (t : T) × (first ≡ ok t) × (second t ≡ ok u)
map_err->>=-eq-ok from panic second q = cc
map_err->>=-eq-ok from (err reason) second q = cc
map_err->>=-eq-ok from (ok t) second q = (t, refl, q)
