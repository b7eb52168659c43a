-- ===== src/Base/Keeps.antt =====
-- Invariants of methods that may throw: what holds before holds after, returned or thrown, and what is
-- returned satisfies a condition.
use mathlib.Core.Path.{◌≡◌, refl}
use mathlib.Core.Bool.{Bool, true, false}
use mathlib.Core.Option.{Option, none, some}
use locus_browser.Base.Tests.{if◌then◌else◌}
use locus_browser.Base.Effects.{
  Result, ok, err, Exec, after_step, ◌>>=◌, ◌>>◌, pure, modify, gets, or_throw, from_result,
}

abbrev pub Ends : {S E A : Type 0} → (S → Type 0) → (A → Type 0) → Result E A × S → Type 0
Ends I Q (ok a, s) = I s × Q a
Ends I Q (err e, s) = I s

pub record Keeps {S E A : Type 0} (I : S → Type 0) (Q : A → Type 0) (m : Exec S E A) : Type 0 where
  pub at : (s : S) → I s → Ends I Q (m s)

-- No condition on what is returned.
abbrev pub Any : {A : Type 0} → A → Type 0
Any a = Unit {0}

pub Ends-after_step :
    {S E A B : Type 0} (I : S → Type 0) (R : A → Type 0) (Q : B → Type 0) (f : A → Exec S E B)
    (x : Result E A × S)
    → Ends I R x
    → ((a : A) → R a → Keeps I Q (f a))
    → Ends I Q (after_step f x)
Ends-after_step I R Q f (ok a, s) h k = (k a h.1).at s h.0
Ends-after_step I R Q f (err e, s) h k = h

pub Ends-if :
    {S E A : Type 0} (I : S → Type 0) (Q : A → Type 0) (b : Bool) (x y : Exec S E A) (s : S)
    → Ends I Q (x s)
    → Ends I Q (y s)
    → Ends I Q ((if b then x else y) s)
Ends-if I Q true x y s h k = h
Ends-if I Q false x y s h k = k

module _ {S E : Type 0} (I : S → Type 0) where
  pub Keeps-bind :
      {A B : Type 0} {R : A → Type 0} {Q : B → Type 0} {m : Exec S E A} {f : A → Exec S E B}
      → Keeps I R m
      → ((a : A) → R a → Keeps I Q (f a))
      → Keeps I Q (m >>= f)
  Keeps-bind {R} {Q} {m} {f} h k = record { at = λ s i. Ends-after_step I R Q f (m s) (h.at s i) k }

  pub Keeps-then :
      {B : Type 0} {R : Unit {0} → Type 0} {Q : B → Type 0} {m : Exec S E (Unit {0})}
      {k : Exec S E B}
      → Keeps I R m
      → Keeps I Q k
      → Keeps I Q (m >> k)
  Keeps-then h k = Keeps-bind h (λ _ _. k)

  pub Keeps-pure : {A : Type 0} {Q : A → Type 0} {a : A} → Q a → Keeps I Q (pure {E = E} a)
  Keeps-pure q = record { at = λ s i. (i, q) }

  pub Keeps-if :
      {A : Type 0} {Q : A → Type 0} (b : Bool) {x y : Exec S E A}
      → Keeps I Q x
      → Keeps I Q y
      → Keeps I Q (if b then x else y)
  Keeps-if true h k = h
  Keeps-if false h k = k

  pub Keeps-modify : {f : S → S} → ((s : S) → I s → I (f s)) → Keeps I Any (modify {E = E} f)
  Keeps-modify h = record { at = λ s i. (h s i, tt) }

  pub Keeps-gets :
      {A : Type 0} {Q : A → Type 0} {f : S → A}
      → ((s : S) → I s → Q (f s))
      → Keeps I Q (gets {E = E} f)
  Keeps-gets h = record { at = λ s i. (i, h s i) }

  pub Keeps-or_throw :
      {A : Type 0} {Q : A → Type 0} (o : Option A) (e : E)
      → ((a : A) → o ≡ some a → Q a)
      → Keeps I Q (or_throw {S = S} o e)
  Keeps-or_throw none e h = record { at = λ s i. i }
  Keeps-or_throw (some a) e h = record { at = λ s i. (i, h a refl) }

  pub Keeps-from_result :
      {A : Type 0} {Q : A → Type 0} (r : Result E A)
      → ((a : A) → r ≡ ok a → Q a)
      → Keeps I Q (from_result {S = S} r)
  Keeps-from_result (ok a) h = record { at = λ s i. (i, h a refl) }
  Keeps-from_result (err e) h = record { at = λ s i. i }
