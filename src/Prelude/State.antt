-- ===== src/Prelude/State.antt =====
-- Code that changes a state and may fail: the state is there after a failure too.
use mathlib.Core.Path.{◌≡◌, refl}
use rust_native_tls.Prelude.Results.{Result, ok, err, panic}

abbrev pub M : Type 0 → Type 0 → Type 0 → Type 0
M S E A = S → S × Result E A

abbrev pub continue : {S E A B : Type 0} → S × Result E A → (A → M S E B) → S × Result E B
continue (s, ok a) f = f a s
continue (s, err e) f = (s, err e)
continue (s, panic) f = (s, panic)

infixl 5 ◌>>=◌ ◌>>◌
abbrev pub ◌>>=◌ : {S E A B : Type 0} → M S E A → (A → M S E B) → M S E B
◌>>=◌ m f s = continue (m s) f

abbrev pub ◌>>◌ : {S E B : Type 0} → M S E (Unit {0}) → M S E B → M S E B
m >> k = m >>= λ _. k

-- Code that leaves the state alone.
abbrev pub lift : {S E A : Type 0} → Result E A → M S E A
lift r s = (s, r)

abbrev pub pure : {S E A : Type 0} → A → M S E A
pure a s = (s, ok a)

abbrev pub fail : {S E A : Type 0} → E → M S E A
fail e s = (s, err e)

abbrev pub panics : {S E A : Type 0} → M S E A
panics s = (s, panic)

-- Inversion of a successful bind.
pub continue-eq-ok :
    {S E A B : Type 0} (r : S × Result E A) (f : A → M S E B) {s' : S} {b : B}
    → continue r f ≡ (s', ok b)
    → (s : S) × (a : A) × (r ≡ (s, ok a)) × (f a s ≡ (s', ok b))
continue-eq-ok (s, ok a) f h = (s, a, refl, h)
continue-eq-ok (s, err e) f h = cc
continue-eq-ok (s, panic) f h = cc
