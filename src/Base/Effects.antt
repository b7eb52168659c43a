-- ===== src/Base/Effects.antt =====
-- A state monad with exceptions: what a method did before it throws stays done.
use mathlib.Core.Path.{◌≡◌, refl, ap}
use mathlib.Core.Bool.{Bool, true, false}
use mathlib.Core.Option.{Option, none, some}

pub data Result {ℓ} (E : Type ℓ) (A : Type ℓ) : Type ℓ where
  ok : A → Result E A
  err : E → Result E A

abbrev pub Exec : Type 0 → Type 0 → Type 0 → Type 0
Exec S E A = S → Result E A × S

-- How a chain goes on after a step that returns, or throws.
abbrev pub after_step : {S E A B : Type 0} → (A → Exec S E B) → Result E A × S → Result E B × S
after_step f (ok a, t) = f a t
after_step f (err e, t) = (err e, t)

infixl 5 ◌>>=◌ ◌>>◌
abbrev pub ◌>>=◌ : {S E A B : Type 0} → Exec S E A → (A → Exec S E B) → Exec S E B
◌>>=◌ m f s = after_step f (m s)

abbrev pub ◌>>◌ : {S E B : Type 0} → Exec S E (Unit {0}) → Exec S E B → Exec S E B
m >> k = m >>= λ _. k

abbrev pub pure : {S E A : Type 0} → A → Exec S E A
pure a s = (ok a, s)

abbrev pub raise : {S E A : Type 0} → E → Exec S E A
raise e s = (err e, s)

-- `if (condition) throw error`.
abbrev pub throw_if : {S E : Type 0} → Bool → E → Exec S E (Unit {0})
throw_if true e s = (err e, s)
throw_if false e s = (ok tt, s)

abbrev pub modify : {S E : Type 0} → (S → S) → Exec S E (Unit {0})
modify f s = (ok tt, f s)

abbrev pub gets : {S E A : Type 0} → (S → A) → Exec S E A
gets f s = (ok (f s), s)

abbrev pub or_throw : {S E A : Type 0} → Option A → E → Exec S E A
or_throw none e s = (err e, s)
or_throw (some a) e s = (ok a, s)

-- A step that reads no state.
abbrev pub from_result : {S E A : Type 0} → Result E A → Exec S E A
from_result r s = (r, s)

pub bind-ok :
    {S E A B : Type 0} (m : Exec S E A) (f : A → Exec S E B) (s : S) {a : A} {t : S}
    → m s ≡ (ok a, t)
    → (m >>= f) s ≡ f a t
bind-ok m f s h = ap (after_step f) h

pub bind-err :
    {S E A B : Type 0} (m : Exec S E A) (f : A → Exec S E B) (s : S) {e : E} {t : S}
    → m s ≡ (err e, t)
    → (m >>= f) s ≡ (err e, t)
bind-err m f s h = ap (after_step f) h

after_step-eq-ok :
    {S E A B : Type 0} (f : A → Exec S E B) (x : Result E A × S) (t : S) {b : B}
    → after_step f x ≡ (ok b, t)
    → (a : A) × (u : S) × (x ≡ (ok a, u)) × (f a u ≡ (ok b, t))
after_step-eq-ok f (ok a, u) t h = (a, u, refl, h)
after_step-eq-ok f (err e, u) t h = cc

-- A chain that returns went through its first step.
pub bind-eq-ok :
    {S E A B : Type 0} (m : Exec S E A) (f : A → Exec S E B) (s t : S) {b : B}
    → (m >>= f) s ≡ (ok b, t)
    → (a : A) × (u : S) × (m s ≡ (ok a, u)) × (f a u ≡ (ok b, t))
bind-eq-ok m f s t h = after_step-eq-ok f (m s) t h

pub throw_if-eq-ok :
    {S E : Type 0} (b : Bool) (e : E) (s t : S) {u : Unit {0}}
    → throw_if b e s ≡ (ok u, t)
    → (b ≡ false) × (s ≡ t)
throw_if-eq-ok true e s t h = cc
throw_if-eq-ok false e s t h = (refl, cc)
