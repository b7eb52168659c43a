-- ===== src/Sync/Clock/Merge.antt =====
-- What `mergePerField` of packages/sync-crypto/src/clock.ts takes from each side.
use locus_browser.Base.{
  ◌≡◌, ◌⊎◌, ◌∙◌, refl, sym, ap, String, Bool, true, false, Option, none, some, [], ◌∷◌, arith, Dict,
  get, set, get-set, get_absent, str_eq, eq_iff, HasUniqueKeys, Bool-cases, inl, inr, if◌then◌else◌,
}
use locus_browser.Sync.Clock.{Field, wins, merge_per_field}

module _ {V : Type 0} (is_later : String → String → Bool) where
  -- The field of the side that wins.
  abbrev pub pick : Option (Field V) → Option (Field V) → Option (Field V)
  pick old none = old
  pick old (some new) = if wins is_later new old then some new else old

  step_get :
      (left : Dict (Field V)) (field : String) (candidate : Field V) (f : String)
      → get (if wins is_later candidate (get left field) then set left field candidate else left) f
        ≡ (if str_eq field f then pick (get left f) (some candidate) else get left f)
  step_get left field candidate f = elim (Bool-cases (str_eq field f)) [
    | inl e ↦
        let same : field ≡ f = (eq_iff field f).0 e in
        ground (arith, same, get-set left field f candidate, eq_iff field f)
    | inr e ↦ ground (arith, get-set left field f candidate)
  ]

  -- A merge takes each field from the right side if the left one has none or an older one there, and
  -- otherwise from the left side. No field stands twice on the right side.
  pub get-merge_per_field :
      (left right : Dict (Field V)) (f : String)
      → HasUniqueKeys right
      → get (merge_per_field is_later left right) f ≡ pick (get left f) (get right f)
  unfolding merge_per_field get
  get-merge_per_field left [] f once = refl
  get-merge_per_field left ((field, candidate) ∷ rest) f once =
      let merged =
        if wins is_later candidate (get left field) then set left field candidate else left in
      get-merge_per_field merged rest f once.1 ∙ elim (Bool-cases (str_eq field f)) [
        | inl e ↦
            let gone : get rest f ≡ none =
              ap (get rest) (sym ((eq_iff field f).0 e)) ∙ get_absent rest field once.0 in
            rw (e, gone) (step_get left field candidate f ∙ rw e refl)
        | inr e ↦ rw e (ap (λ x. pick x (get rest f)) (step_get left field candidate f ∙ rw e refl))
      ]

  -- Merging a record with itself changes no field, if no clock is later than itself.
  pub merge_per_field_idem :
      (left : Dict (Field V)) (f : String)
      → HasUniqueKeys left
      → ((a : String) → is_later a a ≡ false)
      → get (merge_per_field is_later left left) f ≡ get left f
  merge_per_field_idem left f once never =
      get-merge_per_field left left f once ∙ pick_same (get left f)
    where
      pick_same : (o : Option (Field V)) → pick o o ≡ o
      pick_same none = refl
      pick_same (some x) = rw (never x.clock) refl

  -- Merging in either order gives the same fields, if of two clocks that differ exactly one is later,
  -- and fields with the same clock are the same; no field stands twice on either side.
  pub merge_per_field_comm :
      (left right : Dict (Field V)) (f : String)
      → HasUniqueKeys left
      → HasUniqueKeys right
      → ((a b : String)
          → ((is_later a b ≡ true) × (is_later b a ≡ false))
            ⊎ ((is_later a b ≡ false) × (is_later b a ≡ true))
            ⊎ (a ≡ b))
      → ((x y : Field V) → get left f ≡ some x → get right f ≡ some y → x.clock ≡ y.clock → x ≡ y)
      → get (merge_per_field is_later left right) f ≡ get (merge_per_field is_later right left) f
  merge_per_field_comm left right f once once' total same =
      get-merge_per_field left right f once'
      ∙ either (get left f) (get right f) same
      ∙ sym (get-merge_per_field right left f once)
    where
      either :
          (o p : Option (Field V))
          → ((x y : Field V) → o ≡ some x → p ≡ some y → x.clock ≡ y.clock → x ≡ y)
          → pick o p ≡ pick p o
      either none none h = refl
      either none (some y) h = refl
      either (some x) none h = refl
      either (some x) (some y) h = elim (total x.clock y.clock) [
        | inl (a, b) ↦ rw (a, b) refl
        | inr (inl (a, b)) ↦ rw (a, b) refl
        | inr (inr e) ↦ rw (h x y refl refl e) refl
      ]
