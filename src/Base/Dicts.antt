-- ===== src/Base/Dicts.antt =====
-- JavaScript's `Map` with text keys: the entries in the order in which their keys were first set.
use Prim.Native.String.{String}
use mathlib.Core.Path.{◌≡◌, refl, sym, subst, ap}
use mathlib.Core.Logic.{◌≢◌, inl, inr}
use mathlib.Core.Bool.{Bool, false}
use mathlib.Core.Option.{Option, none, some}
use mathlib.Core.List.{List, [], ◌∷◌}
use native.Mathlib.Omega.{arith}
use text.Mathlib.TextEquality.{eq_iff}
use text.Mathlib.TextPositions.{eq_refl}
use locus_browser.Base.Tests.{str_eq, if◌then◌else◌, Bool-cases}
use locus_browser.Base.Lists.{All}

abbrev pub Dict {ℓ} : Type ℓ → Type ℓ
Dict V = List (String × V)

module _ {ℓ} {V : Type ℓ} where
  unfoldable pub get : Dict V → String → Option V
  get [] k = none
  get ((j, v) ∷ m) k = if str_eq j k then some v else get m k

  -- An entry that is there keeps its place.
  unfoldable pub set : Dict V → String → V → Dict V
  set [] k v = (k, v) ∷ []
  set ((j, w) ∷ m) k v = if str_eq j k then (k, v) ∷ m else (j, w) ∷ set m k v

  unfoldable pub delete : Dict V → String → Dict V
  delete [] k = []
  delete ((j, w) ∷ m) k = let rest = delete m k in if str_eq j k then rest else (j, w) ∷ rest

  -- `for (const [key, value] of map) if (test) map.delete(key)`.
  unfoldable pub delete_where : (String → V → Bool) → Dict V → Dict V
  delete_where p [] = []
  delete_where p ((k, v) ∷ m) = let rest = delete_where p m in if p k v then rest else (k, v) ∷ rest

  abbrev pub values : Dict V → List V
  values [] = []
  values ((k, v) ∷ m) = v ∷ values m

  abbrev pub keys : Dict V → List String
  keys [] = []
  keys ((k, v) ∷ m) = k ∷ keys m

  pub get-set :
      (m : Dict V) (k j : String) (v : V)
      → get (set m k v) j ≡ (if str_eq k j then some v else get m j)
  unfolding get set
  get-set [] k j v = refl
  get-set ((i, w) ∷ m) k j v = ground (arith, eq_iff k j, eq_iff i k, eq_iff i j, get-set m k j v)

  pub get-delete :
      (m : Dict V) (k j : String) → get (delete m k) j ≡ (if str_eq k j then none else get m j)
  unfolding get delete
  get-delete [] k j = ground arith
  get-delete ((i, w) ∷ m) k j = ground (arith, eq_iff k j, eq_iff i k, eq_iff i j, get-delete m k j)

  pub get-set_self : (m : Dict V) (k : String) (v : V) → get (set m k v) k ≡ some v
  get-set_self m k v = ground (arith, get-set m k k v, eq_refl k)

  pub get-set_ne : (m : Dict V) (k j : String) (v : V) → k ≢ j → get (set m k v) j ≡ get m j
  get-set_ne m k j v h = ground (arith, get-set m k j v, eq_iff k j)

  pub get-delete_self : (m : Dict V) (k : String) → get (delete m k) k ≡ none
  get-delete_self m k = ground (arith, get-delete m k k, eq_refl k)

  -- What is found and does not pass the test stays.
  pub get-delete_where_keeps :
      (p : String → V → Bool) (m : Dict V) (k : String) (v : V)
      → get m k ≡ some v
      → p k v ≡ false
      → get (delete_where p m) k ≡ some v
  unfolding get delete_where
  get-delete_where_keeps p [] k v h q = h
  get-delete_where_keeps p ((j, w) ∷ m) k v h q = elim (Bool-cases (str_eq j k)) [
    | inl e ↦
        let same : j ≡ k = (eq_iff j k).0 e in
        let found : w ≡ v = ground arith in let kept : p j w ≡ false = cc in rw kept (ground arith)
    | inr e ↦ ground (arith, get-delete_where_keeps p m k v (rw e at h) q)
  ]

  pub get-delete_where-none :
      (p : String → V → Bool) (m : Dict V) (k : String)
      → get m k ≡ none
      → get (delete_where p m) k ≡ none
  unfolding get delete_where
  get-delete_where-none p [] k h = refl
  get-delete_where-none p ((j, w) ∷ m) k h = ground (arith, get-delete_where-none p m k)

  -- What holds of every entry holds of what `get` finds.
  pub get-All {κ} :
      (P : String → V → Type κ) (m : Dict V) (k : String) (v : V)
      → All (λ e. P e.0 e.1) m
      → get m k ≡ some v
      → P k v
  unfolding get
  get-All P [] k v a h = cc
  get-All P ((j, w) ∷ m) k v a h = elim (Bool-cases (str_eq j k)) [
    | inl e ↦
        let same : j ≡ k = (eq_iff j k).0 e in
        let found : w ≡ v = ground arith in rw (← same, ← found) (a.0)
    | inr e ↦ get-All P m k v a.1 (rw e at h)
  ]

  pub All-set {κ} :
      (P : String → V → Type κ) (m : Dict V) (k : String) (v : V)
      → All (λ e. P e.0 e.1) m
      → P k v
      → All (λ e. P e.0 e.1) (set m k v)
  unfolding set
  All-set P [] k v a p = (p, tt)
  All-set P ((j, w) ∷ m) k v a p = elim (Bool-cases (str_eq j k)) [
    | inl e ↦ rw e (p, a.1)
    | inr e ↦ rw e (a.0, All-set P m k v a.1 p)
  ]

  pub All-delete {κ} :
      (P : String × V → Type κ) (m : Dict V) (k : String) → All P m → All P (delete m k)
  unfolding delete
  All-delete P [] k a = tt
  All-delete P ((j, w) ∷ m) k a = elim (Bool-cases (str_eq j k)) [
    | inl e ↦ rw e (All-delete P m k a.1)
    | inr e ↦ rw e (a.0, All-delete P m k a.1)
  ]

  pub All-delete_where {κ} :
      (P : String × V → Type κ) (p : String → V → Bool) (m : Dict V)
      → All P m
      → All P (delete_where p m)
  unfolding delete_where
  All-delete_where P p [] a = tt
  All-delete_where P p ((j, w) ∷ m) a = elim (Bool-cases (p j w)) [
    | inl e ↦ rw e (All-delete_where P p m a.1)
    | inr e ↦ rw e (a.0, All-delete_where P p m a.1)
  ]

  -- Whatever is left after a deleting loop fails its test.
  pub delete_where_sound :
      (p : String → V → Bool) (m : Dict V) → All (λ e. p e.0 e.1 ≡ false) (delete_where p m)
  unfolding delete_where
  delete_where_sound p [] = tt
  delete_where_sound p ((j, w) ∷ m) = elim (Bool-cases (p j w)) [
    | inl e ↦ rw e (delete_where_sound p m)
    | inr e ↦ rw e (e, delete_where_sound p m)
  ]

-- No key stands twice.
abbrev pub HasUniqueKeys {ℓ} : {V : Type ℓ} → Dict V → Type 0
HasUniqueKeys [] = Unit
HasUniqueKeys ((k, v) ∷ m) = All (λ e. k ≢ e.0) m × HasUniqueKeys m

module _ {ℓ} {V : Type ℓ} where
  All-keys-set :
      (P : String → Type 0) (m : Dict V) (k : String) (v : V)
      → All (λ e. P e.0) m
      → P k
      → All (λ e. P e.0) (set m k v)
  All-keys-set P m k v h p = All-set (λ j _. P j) m k v h p

  pub HasUniqueKeys-set :
      (m : Dict V) (k : String) (v : V) → HasUniqueKeys m → HasUniqueKeys (set m k v)
  unfolding set
  HasUniqueKeys-set [] k v h = (tt, tt)
  HasUniqueKeys-set ((j, w) ∷ m) k v h = elim (Bool-cases (str_eq j k)) [
    | inl e ↦ rw e (subst (λ i. All (λ x. i ≢ x.0) m) ((eq_iff j k).0 e) h.0, h.1)
    | inr e ↦
        let apart : j ≢ k = λ p. cc ((eq_iff j k).1 p) in
        rw e (All-keys-set (λ i. j ≢ i) m k v h.0 apart, HasUniqueKeys-set m k v h.1)
  ]

  pub HasUniqueKeys-delete :
      (m : Dict V) (k : String) → HasUniqueKeys m → HasUniqueKeys (delete m k)
  unfolding delete
  HasUniqueKeys-delete [] k h = tt
  HasUniqueKeys-delete ((j, w) ∷ m) k h = elim (Bool-cases (str_eq j k)) [
    | inl e ↦ rw e (HasUniqueKeys-delete m k h.1)
    | inr e ↦ rw e (All-delete (λ x. j ≢ x.0) m k h.0, HasUniqueKeys-delete m k h.1)
  ]

  pub HasUniqueKeys-delete_where :
      (p : String → V → Bool) (m : Dict V) → HasUniqueKeys m → HasUniqueKeys (delete_where p m)
  unfolding delete_where
  HasUniqueKeys-delete_where p [] h = tt
  HasUniqueKeys-delete_where p ((j, w) ∷ m) h = elim (Bool-cases (p j w)) [
    | inl e ↦ rw e (HasUniqueKeys-delete_where p m h.1)
    | inr e ↦ rw e (All-delete_where (λ x. j ≢ x.0) p m h.0, HasUniqueKeys-delete_where p m h.1)
  ]

  pub get_absent : (m : Dict V) (k : String) → All (λ e. k ≢ e.0) m → get m k ≡ none
  unfolding get
  get_absent [] k h = refl
  get_absent ((j, w) ∷ m) k h =
      ground (arith, eq_iff j k, get_absent m k h.1, λ (e : j ≡ k). h.0 (sym e))

  abbrev pub unless : (String → V → Bool) → String → Option V → Option V
  unless p k none = none
  unless p k (some v) = if p k v then none else some v

  -- A deleting loop takes out exactly what passes its test.
  pub get-delete_where :
      (p : String → V → Bool) (m : Dict V) (k : String)
      → HasUniqueKeys m
      → get (delete_where p m) k ≡ unless p k (get m k)
  unfolding get delete_where
  get-delete_where p [] k h = refl
  get-delete_where p ((j, w) ∷ m) k h = elim (Bool-cases (str_eq j k)) [
    | inl e ↦
        let same : j ≡ k = (eq_iff j k).0 e in
        let gone : get m k ≡ none = get_absent m k (subst (λ i. All (λ x. i ≢ x.0) m) same h.0) in
        ground (arith, get-delete_where-none p m k gone, ap (λ i. p i w) same)
    | inr e ↦ ground (arith, get-delete_where p m k h.1)
  ]

pub ruleset dict_laws = (get-set, get-delete, get-set_self, get-delete_self)
