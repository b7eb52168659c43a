-- ===== src/Base/Sets.antt =====
-- JavaScript's `Set` of texts, as the list of what was put in: `has`, `size`, and their laws.
use Prim.Native.Nat.{ℕ, ◌+◌, ◌≤◌}
use Prim.Native.String.{String}
use mathlib.Core.Path.{◌≡◌, refl, ap}
use mathlib.Core.Logic.{◌≢◌, ◌⊎◌, inl, inr}
use mathlib.Core.Bool.{Bool, true, false, not, ◌||◌, ◌&&◌}
use mathlib.Core.List.{List, [], ◌∷◌}
use native.Mathlib.Omega.{arith}
use text.Mathlib.TextEquality.{eq_iff}
use text.Mathlib.TextPositions.{eq_refl}
use locus_browser.Base.Tests.{str_eq, if◌then◌else◌, Bool-cases}
use locus_browser.Base.Lists.{All, All-map, length, keep}

-- `set.has(value)`.
unfoldable pub has : List String → String → Bool
has [] a = false
has (b ∷ bs) a = str_eq b a || has bs a

-- `new Set(values).size`.
unfoldable pub set_size : List String → ℕ
unfolding has
set_size [] = 0
set_size (a ∷ rest) = let n = set_size rest in if has rest a then n else n + 1

abbrev pub IsSubset : List String → List String → Type 0
IsSubset xs ys = All (λ x. has ys x ≡ true) xs

-- The values other than `a`.
abbrev without : String → List String → List String
without a = keep (λ b. not (str_eq b a))

has-without : (a b : String) (ys : List String) → b ≢ a → has (without a ys) b ≡ has ys b
unfolding has
has-without a b [] h = refl
has-without a b (y ∷ ys) h = ground (arith, has-without a b ys h, eq_iff y a, eq_iff y b)

set_size-without :
    (a : String) (ys : List String)
    → set_size (without a ys) + (if has ys a then 1 else 0) ≡ set_size ys
unfolding set_size has
set_size-without a [] = refl
set_size-without a (y ∷ ys) = elim (Bool-cases (str_eq y a)) [
  | inl e ↦ ground (arith, set_size-without a ys, eq_iff y a)
  | inr e ↦
      ground
        (arith, set_size-without a ys, eq_iff y a, has-without a y ys (λ p. cc ((eq_iff y a).1 p)))
]

ne_of_has : (x : String) (xs : List String) → has xs x ≡ false → All (λ y. y ≢ x) xs
unfolding has
ne_of_has x [] h = tt
ne_of_has x (y ∷ xs) h = ((λ e. cc ((eq_iff y x).1 e)), ne_of_has x xs (ground arith))

has_of_ne :
    (x : String) (xs ys : List String)
    → All (λ y. y ≢ x) xs
    → IsSubset xs ys
    → IsSubset xs (without x ys)
has_of_ne x [] ys n h = tt
has_of_ne x (y ∷ xs) ys n h = (rw (has-without x y ys n.0) h.0, has_of_ne x xs ys n.1 h.1)

-- A subset is not larger.
set_size_mono : (xs ys : List String) → IsSubset xs ys → set_size xs ≤ set_size ys
unfolding set_size
set_size_mono [] ys h = omega arith
set_size_mono (x ∷ xs) ys h = elim (Bool-cases (has xs x)) [
  | inl e ↦ rw e (set_size_mono xs ys h.1)
  | inr e ↦ ground (
    arith,
    h.0,
    set_size-without x ys,
    set_size_mono xs (without x ys) (has_of_ne x xs ys (ne_of_has x xs e) h.1),
  )
]

has_self : (ys : List String) → IsSubset ys ys
unfolding has
has_self [] = tt
has_self (y ∷ ys) = (
  ground (arith, eq_refl y),
  All-map (λ x. has ys x ≡ true) _ (λ x m. ground arith) ys (has_self ys),
)

-- A value of a set is in every subset of the same size.
has_of_size :
    (xs ys : List String) (y : String)
    → IsSubset xs ys
    → set_size xs ≡ set_size ys
    → has ys y ≡ true
    → has xs y ≡ true
unfolding set_size
has_of_size xs ys y h e m = elim (Bool-cases (has xs y)) [
  | inl found ↦ found
  | inr missing ↦
      let larger : set_size (y ∷ xs) ≤ set_size ys = set_size_mono (y ∷ xs) ys (m, h) in
      absurd (ground arith)
]

-- A subset of the same size is the whole set.
pub IsSubset-set_size :
    (xs ys : List String) → IsSubset xs ys → set_size xs ≡ set_size ys → IsSubset ys xs
IsSubset-set_size xs ys h e = All-map _ _ (λ y m. has_of_size xs ys y h e m) ys (has_self ys)

-- No value stands twice.
abbrev pub IsDistinct : List String → Type 0
IsDistinct [] = Unit
IsDistinct (x ∷ xs) = (has xs x ≡ false) × IsDistinct xs

set_size-le : (xs : List String) → set_size xs ≤ length xs
unfolding set_size
set_size-le [] = omega arith
set_size-le (x ∷ xs) = ground (arith, set_size-le xs)

-- A list is as long as its set is large only if no value stands twice.
pub IsDistinct-set_size : (xs : List String) → set_size xs ≡ length xs → IsDistinct xs
unfolding set_size
IsDistinct-set_size [] h = tt
IsDistinct-set_size (x ∷ xs) h =
    let once : has xs x ≡ false = ground (arith, set_size-le xs) in
    (once, IsDistinct-set_size xs (ground arith))

-- `[...new Set(values)]`, the values in the order in which they first stand, without those seen.
unfoldable pub unique_from : List String → List String → List String
unique_from seen [] = []
unique_from seen (x ∷ xs) =
    let later = unique_from seen xs in
    let rest = unique_from (x ∷ seen) xs in if has seen x then later else x ∷ rest

unfoldable pub unique : List String → List String
unique xs = unique_from [] xs

has-unique_from :
    (seen xs : List String) (a : String)
    → has (unique_from seen xs) a ≡ (has xs a && not (has seen a))
unfolding has unique_from
has-unique_from seen [] a = refl
has-unique_from seen (x ∷ xs) a = elim (Bool-cases (has seen x)) [
  | inl e ↦ rw e (ground (arith, eq_iff x a, has-unique_from seen xs a, has_same seen x a))
  | inr e ↦ rw e (ground (arith, eq_iff x a, has-unique_from (x ∷ seen) xs a, has_same seen x a))
]
  where
    has_same : (s : List String) (b c : String) → (b ≢ c) ⊎ (has s b ≡ has s c)
    has_same s b c = elim (Bool-cases (str_eq b c)) [
      | inl e ↦ inr (ap (has s) ((eq_iff b c).0 e))
      | inr e ↦ inl (λ p. cc ((eq_iff b c).1 p))
    ]

-- A set has what was put in, each value once.
pub has-unique : (xs : List String) (a : String) → has (unique xs) a ≡ has xs a
unfolding unique has
has-unique xs a = ground (arith, has-unique_from [] xs a)

has_itself : (x : String) (xs : List String) → has (x ∷ xs) x ≡ true
unfolding has
has_itself x xs = ground (arith, eq_refl x)

unique_from-IsDistinct : (seen xs : List String) → IsDistinct (unique_from seen xs)
unfolding unique_from
unique_from-IsDistinct seen [] = tt
unique_from-IsDistinct seen (x ∷ xs) = elim (Bool-cases (has seen x)) [
  | inl e ↦ rw e (unique_from-IsDistinct seen xs)
  | inr e ↦ rw e (not_again, unique_from-IsDistinct (x ∷ seen) xs)
]
  where
    not_again : has (unique_from (x ∷ seen) xs) x ≡ false
    not_again = ground (arith, has-unique_from (x ∷ seen) xs x, has_itself x seen)

pub unique-IsDistinct : (xs : List String) → IsDistinct (unique xs)
unfolding unique
unique-IsDistinct xs = unique_from-IsDistinct [] xs
