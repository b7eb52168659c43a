-- ===== src/Base/Sorting.antt =====
-- `array.sort(comparator)`, which is stable: `before a b` tells that the comparator of `a` and `b`
-- is not positive.
use mathlib.Core.Path.{◌≡◌, refl, ◌∙◌}
use mathlib.Core.Logic.{◌⊎◌, inl, inr}
use mathlib.Core.Bool.{Bool, true, false}
use mathlib.Core.List.{List, [], ◌∷◌}
use native.Mathlib.Omega.{arith}
use locus_browser.Base.Tests.{if◌then◌else◌, Bool-cases}
use locus_browser.Base.Lists.{All, All-map, All-keep, AllPairs, Any, keep}

insert_by {ℓ} : {A : Type ℓ} → (A → A → Bool) → A → List A → List A
insert_by before a [] = a ∷ []
insert_by before a (b ∷ bs) =
    let rest = insert_by before a bs in if before a b then a ∷ b ∷ bs else b ∷ rest

unfoldable pub sort_by {ℓ} : {A : Type ℓ} → (A → A → Bool) → List A → List A
unfolding insert_by
sort_by before [] = []
sort_by before (a ∷ rest) = insert_by before a (sort_by before rest)

module _ {ℓ κ} {A : Type ℓ} (P : A → Type κ) (before : A → A → Bool) where
  All-insert_by : (a : A) (xs : List A) → P a → All P xs → All P (insert_by before a xs)
  unfolding insert_by
  All-insert_by a [] p h = (p, tt)
  All-insert_by a (b ∷ bs) p h = elim (Bool-cases (before a b)) [
    | inl e ↦ rw e (p, h)
    | inr e ↦ rw e (h.0, All-insert_by a bs p h.1)
  ]

  pub All-sort_by : (xs : List A) → All P xs → All P (sort_by before xs)
  unfolding sort_by
  All-sort_by [] h = tt
  All-sort_by (a ∷ rest) h = All-insert_by a (sort_by before rest) h.0 (All-sort_by rest h.1)

module _ {ℓ κ} {A : Type ℓ} (R : A → A → Type κ) (symm : (a b : A) → R a b → R b a)
    (before : A → A → Bool) where
  AllPairs-insert_by :
      (a : A) (xs : List A) → All (R a) xs → AllPairs R xs → AllPairs R (insert_by before a xs)
  unfolding insert_by
  AllPairs-insert_by a [] h k = (tt, tt)
  AllPairs-insert_by a (b ∷ bs) h k = elim (Bool-cases (before a b)) [
    | inl e ↦ rw e (h, k)
    | inr e ↦
        rw e (All-insert_by (R b) before a bs (symm a b h.0) k.0, AllPairs-insert_by a bs h.1 k.1)
  ]

  -- A symmetric relation between all members is kept by sorting.
  pub AllPairs-sort_by : (xs : List A) → AllPairs R xs → AllPairs R (sort_by before xs)
  unfolding sort_by
  AllPairs-sort_by [] h = tt
  AllPairs-sort_by (a ∷ rest) h =
      AllPairs-insert_by a (sort_by before rest) (All-sort_by (R a) before rest h.0)
        (AllPairs-sort_by rest h.1)

module _ {ℓ} {A : Type ℓ} (P : A → Type 0) (before : A → A → Bool) where
  Any-insert_by : (a : A) (xs : List A) → P a ⊎ Any P xs → Any P (insert_by before a xs)
  unfolding insert_by
  Any-insert_by a [] h = h
  Any-insert_by a (b ∷ bs) (inl p) = elim (Bool-cases (before a b)) [
    | inl e ↦ rw e (inl p)
    | inr e ↦ rw e (inr (Any-insert_by a bs (inl p)))
  ]
  Any-insert_by a (b ∷ bs) (inr (inl q)) = elim (Bool-cases (before a b)) [
    | inl e ↦ rw e (inr (inl q))
    | inr e ↦ rw e (inl q)
  ]
  Any-insert_by a (b ∷ bs) (inr (inr q)) = elim (Bool-cases (before a b)) [
    | inl e ↦ rw e (inr (inr q))
    | inr e ↦ rw e (inr (Any-insert_by a bs (inr q)))
  ]

  pub Any-sort_by : (xs : List A) → Any P xs → Any P (sort_by before xs)
  unfolding sort_by
  Any-sort_by [] h = h
  Any-sort_by (a ∷ rest) (inl p) = Any-insert_by a (sort_by before rest) (inl p)
  Any-sort_by (a ∷ rest) (inr q) = Any-insert_by a (sort_by before rest) (inr (Any-sort_by rest q))

-- Each member is before all that follow it.
abbrev pub IsSorted {ℓ} : {A : Type ℓ} → (A → A → Bool) → List A → Type 0
IsSorted before = AllPairs (λ a b. before a b ≡ true)

module _ {ℓ} {A : Type ℓ} (before : A → A → Bool)
    (trans : (a b c : A) → before a b ≡ true → before b c ≡ true → before a c ≡ true)
    (total : (a b : A) → before a b ≡ false → before b a ≡ true) where
  insert_by-IsSorted :
      (a : A) (xs : List A) → IsSorted before xs → IsSorted before (insert_by before a xs)
  unfolding insert_by
  insert_by-IsSorted a [] h = (tt, tt)
  insert_by-IsSorted a (b ∷ bs) h = elim (Bool-cases (before a b)) [
    | inl e ↦ rw e ((e, All-map _ _ (λ c. trans a b c e) bs h.0), h)
    | inr e ↦ rw e (
      All-insert_by (λ c. before b c ≡ true) before a bs (total a b e) h.0,
      insert_by-IsSorted a bs h.1,
    )
  ]

  pub sort_by-IsSorted : (xs : List A) → IsSorted before (sort_by before xs)
  unfolding sort_by
  sort_by-IsSorted [] = tt
  sort_by-IsSorted (a ∷ rest) = insert_by-IsSorted a (sort_by before rest) (sort_by-IsSorted rest)

  insert_by_first :
      (a : A) (xs : List A) → All (λ b. before a b ≡ true) xs → insert_by before a xs ≡ a ∷ xs
  unfolding insert_by
  insert_by_first a [] h = refl
  insert_by_first a (b ∷ bs) h = rw (h.0)

  keep-insert_by :
      (p : A → Bool) (a : A) (xs : List A)
      → IsSorted before xs
      → keep p (insert_by before a xs) ≡ (if p a then insert_by before a (keep p xs) else keep p xs)
  unfolding insert_by
  keep-insert_by p a [] h = refl
  keep-insert_by p a (b ∷ bs) h = elim (Bool-cases (before a b)) [
    | inl e ↦
        let later : All (λ c. before a c ≡ true) bs = All-map _ _ (λ c. trans a b c e) bs h.0 in
        ground (arith, insert_by_first a (keep p bs) (All-keep (λ c. before a c ≡ true) p bs later))
    | inr e ↦ ground (arith, keep-insert_by p a bs h.1)
  ]

  -- Sorting and filtering commute.
  pub keep-sort_by :
      (p : A → Bool) (xs : List A) → keep p (sort_by before xs) ≡ sort_by before (keep p xs)
  unfolding sort_by
  keep-sort_by p [] = refl
  keep-sort_by p (a ∷ rest) = elim (Bool-cases (p a)) [
    | inl e ↦
        keep-insert_by p a (sort_by before rest) (sort_by-IsSorted rest)
        ∙ rw (e, keep-sort_by p rest) refl
    | inr e ↦
        keep-insert_by p a (sort_by before rest) (sort_by-IsSorted rest)
        ∙ rw (e, keep-sort_by p rest) refl
  ]
