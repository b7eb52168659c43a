-- ===== src/Base/Results.antt =====
-- Chains of steps that may throw, without a state.
use mathlib.Core.Path.{◌≡◌, refl}
use mathlib.Core.Bool.{Bool, true, false, not}
use mathlib.Core.Option.{Option, none, some}
use mathlib.Core.List.{List, [], ◌∷◌}
use locus_browser.Base.Effects.{Result, ok, err}
use locus_browser.Base.Lists.{All}

infixl 5 ◌>>=◌ ◌>>◌
abbrev pub ◌>>=◌ : {E A B : Type 0} → Result E A → (A → Result E B) → Result E B
ok a >>= f = f a
err e >>= f = err e

abbrev pub ◌>>◌ : {E B : Type 0} → Result E (Unit {0}) → Result E B → Result E B
m >> k = m >>= λ _. k

-- `if (condition) throw error`.
abbrev pub fail_if : {E : Type 0} → Bool → E → Result E (Unit {0})
fail_if true e = err e
fail_if false e = ok tt

abbrev pub or_fail : {E A : Type 0} → Option A → E → Result E A
or_fail none e = err e
or_fail (some a) e = ok a

-- `for (const x of xs) check(x)`.
unfoldable pub check_each :
    {E A : Type 0} → (A → Result E (Unit {0})) → List A → Result E (Unit {0})
check_each f [] = ok tt
check_each f (x ∷ xs) = do f x; check_each f xs

pub >>=-eq-ok :
    {E A B : Type 0} (m : Result E A) (f : A → Result E B) (b : B)
    → (m >>= f) ≡ ok b
    → (a : A) × (m ≡ ok a) × (f a ≡ ok b)
>>=-eq-ok (ok a) f b h = (a, refl, h)
>>=-eq-ok (err e) f b h = cc

pub fail_if-eq-ok :
    {E B : Type 0} (test : Bool) (e : E) (k : Result E B) (b : B)
    → (fail_if test e >> k) ≡ ok b
    → (test ≡ false) × (k ≡ ok b)
fail_if-eq-ok true e k b h = cc
fail_if-eq-ok false e k b h = (refl, h)

pub or_fail-eq-ok :
    {E A B : Type 0} (o : Option A) (e : E) (f : A → Result E B) (b : B)
    → (or_fail o e >>= f) ≡ ok b
    → (a : A) × (o ≡ some a) × (f a ≡ ok b)
or_fail-eq-ok none e f b h = cc
or_fail-eq-ok (some a) e f b h = (a, refl, h)

-- A loop that passes has passed at every element.
pub check_each-All :
    {E A : Type 0} (f : A → Result E (Unit {0})) (xs : List A) (u : Unit {0})
    → check_each f xs ≡ ok u
    → All (λ x. f x ≡ ok tt) xs
unfolding check_each
check_each-All f [] u h = tt
check_each-All f (x ∷ xs) u h =
    let (a, first, rest) = >>=-eq-ok (f x) _ u h in (first, check_each-All f xs u rest)

-- A last check.
pub fail_if-ok :
    {E : Type 0} (test : Bool) (e : E) (u : Unit {0}) → fail_if test e ≡ ok u → test ≡ false
fail_if-ok true e u h = cc
fail_if-ok false e u h = refl

pub of_not : (b : Bool) → not b ≡ false → b ≡ true
of_not true h = refl
of_not false h = cc
