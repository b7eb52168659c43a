-- ===== src/Gallery/RateLimit/Capacity.antt =====
-- The size of the table of the rate limiter.
use locus_browser.Base.{
  ℕ, ◌+◌, ◌≤◌, ◌≡◌, refl, ap, String, Bool, some, List, [], ◌∷◌, Dict, get, set, delete_where,
  length, arith, Bool-cases, inl, inr, str_eq, suc, ltb, Option-cases,
}
use locus_browser.Gallery.RateLimit.{
  GalleryAppOptions, Limiter, Arrival, prune_limits, count_request, on_request, on_requests,
  minute_of, limit_of,
}

length-set {ℓ} :
    {V : Type ℓ} (m : Dict V) (k : String) (v : V)
    → (length (set m k v) ≤ length m + 1)
      × ((w : V) → get m k ≡ some w → length (set m k v) ≡ length m)
unfolding set get
length-set [] k v = (omega arith, λ w h. absurd (cc h))
length-set ((j, w) ∷ m) k v = elim (Bool-cases (str_eq j k)) [
  | inl e ↦ rw e (omega arith, λ u h. refl)
  | inr e ↦ rw e (omega (arith, (length-set m k v).0), λ u h. ap suc ((length-set m k v).1 u h))
]

length-delete_where {ℓ} :
    {V : Type ℓ} (p : String → V → Bool) (m : Dict V) → length (delete_where p m) ≤ length m
unfolding delete_where
length-delete_where p [] = omega arith
length-delete_where p ((k, v) ∷ m) = ground (arith, length-delete_where p m)

abbrev pub IsBounded : Limiter → Type 0
IsBounded s = length s.limits ≤ 10000

count_request-IsBounded :
    (limit minute : ℕ) (address : String) (s : Limiter)
    → IsBounded s
    → IsBounded (count_request limit minute address s).1
unfolding count_request
count_request-IsBounded limit minute address s h = elim (Option-cases (get s.limits address)) [
  | inl e ↦
      rw e (ground (arith, (length-set s.limits address (record { minute = minute; count = 1 })).0))
  | inr (c, e) ↦ rw e (le_of_eq _ _ h ((length-set s.limits address _).1 c e))
]
  where
    le_of_eq : (a b : ℕ) → b ≤ 10000 → a ≡ b → a ≤ 10000
    le_of_eq a b l e = omega arith

-- However many addresses send requests, and at whatever times, the table of the rate limiter never holds more
-- than 10,000 of them.
pub on_requests-IsBounded :
    (options : GalleryAppOptions) (arrivals : List Arrival) (s : Limiter)
    → IsBounded s
    → IsBounded (on_requests options arrivals s).1
unfolding on_requests on_request prune_limits
on_requests-IsBounded options [] s h = h
on_requests-IsBounded options ((now, address) ∷ arrivals) s h =
    on_requests-IsBounded options arrivals _ (
      count_request-IsBounded (limit_of options) (minute_of now) address _ (
        ground (
          arith,
          length-delete_where (λ address counter. ltb counter.minute (minute_of now)) s.limits,
        )))
