-- ===== src/Gallery/RateLimit/Limit.antt =====
-- How many requests of an address the rate limiter admits in a minute.
use locus_browser.Base.{
  ℕ, ◌+◌, ◌≤◌, ◌<◌, ◌≡◌, refl, String, Bool, ◌&&◌, ◌==◌, ltb, List, [], ◌∷◌, get, All, arith,
  Bool-cases, inl, inr, str_eq, eq_iff, Option-cases, ==_refl, get-All, subst, sym, str_ne,
  if◌then◌else◌,
}
use locus_browser.Gallery.RateLimit.{
  GalleryAppOptions, Counter, Limiter, Arrival, LimitDecision, on_request, on_requests, minute_of,
  limit_of, is_admitted, fresh_limiter,
}
use locus_browser.Gallery.RateLimit.Counted.{
  used, max_count, IsPast, Counted, let_through, no_room, beyond, on_request-Counted,
  on_request-others, on_request-IsPast,
}

-- The requests of an address in a minute that the hook let through.
abbrev pub admissions : ℕ → String → List (Arrival × LimitDecision) → ℕ
admissions minute address [] = 0
admissions minute address (((now, from), decision) ∷ answers) =
    (if minute_of now == minute && str_eq from address && is_admitted decision then 1 else 0)
    + admissions minute address answers

-- The clock does not run backwards.
abbrev pub IsOrdered : ℕ → List Arrival → Type 0
IsOrdered now [] = Unit
IsOrdered now ((later, address) ∷ arrivals) = (now ≤ later) × IsOrdered later arrivals

later-IsPast : (m n : ℕ) (s : Limiter) → m ≤ n → IsPast m s → IsPast n s
later-IsPast m n s le (h, g) = (h, later_all s.limits g)
  where
    later_all :
        (entries : List (String × Counter))
        → All (λ e. e.1.minute ≤ m) entries
        → All (λ e. e.1.minute ≤ n) entries
    later_all [] a = tt
    later_all (e ∷ entries) (a, b) = (omega arith, later_all entries b)

-- After its minute has passed, nothing more is counted for it.
admissions_past :
    (options : GalleryAppOptions) (minute : ℕ) (address : String) (now : ℕ)
    (arrivals : List Arrival) (s : Limiter)
    → minute < minute_of now
    → IsOrdered now arrivals
    → admissions minute address (on_requests options arrivals s).0 ≡ 0
unfolding on_requests
admissions_past options minute address now [] s h o = refl
admissions_past options minute address now ((later, from) ∷ arrivals) s h (le, o) =
    let passed : minute < minute_of later = omega arith in
    ground (
      arith,
      admissions_past options minute address later arrivals (on_request options later from s).1
          passed o,
    )

-- A counter of a past minute does not count.
used_ahead :
    (minute n : ℕ) (address : String) (s : Limiter)
    → n < minute
    → IsPast n s
    → used minute address s ≡ 0
used_ahead minute n address s h past = elim (Option-cases (get s.limits address)) [
  | inl e ↦ rw e refl
  | inr (c, e) ↦
      let old = get-All (λ address c. c.minute ≤ n) s.limits address c past.1 e in
      rw e (ground arith)
]

-- One more answer before the rest.
count_one :
    (limit before after rest : ℕ) (b : Bool)
    → Counted limit before after b
    → rest + after ≤ max_count limit after
    → (if b then 1 else 0) + rest + before ≤ max_count limit before
count_one limit before after rest b (let_through e u l) h = rw e (ground arith)
count_one limit before after rest b (no_room e u) h = rw e (ground arith)
count_one limit before after rest b (beyond e u l) h = rw e (ground arith)

abbrev Bound : GalleryAppOptions → ℕ → String → List Arrival → Limiter → Type 0
Bound options minute address arrivals s =
    admissions minute address (on_requests options arrivals s).0 + used minute address s
    ≤ max_count (limit_of options) (used minute address s)

module _ (options : GalleryAppOptions) (address from : String) (now : ℕ) (arrivals : List Arrival)
    (s : Limiter) (past : IsPast (minute_of now) s) (o : IsOrdered now arrivals) where
  abbrev next_state : Limiter
  next_state = (on_request options now from s).1

  Bound-now :
      Bound options (minute_of now) address arrivals next_state
      → Bound options (minute_of now) address ((now, from) ∷ arrivals) s
  unfolding on_requests
  Bound-now rest = elim (Bool-cases (str_eq from address)) [
    | inl e ↦
        let counted = on_request-Counted options now from s past in
        rw (==_refl (minute_of now), e)
          (count_one (limit_of options) _ _ _ _
            (subst
              (λ a.
                Counted (limit_of options) (used (minute_of now) a s)
                  (used (minute_of now) a next_state)
                  (is_admitted (on_request options now from s).0))
              ((eq_iff from address).0 e) counted)
            rest)
    | inr e ↦
        let same = on_request-others options now from s past address (str_ne from address e) in
        let bound =
          subst
            (λ n.
              admissions (minute_of now) address (on_requests options arrivals next_state).0 + n
              ≤ max_count (limit_of options) n)
            same rest in
        rw (==_refl (minute_of now), e) (omega (arith, bound))
  ]

  Bound-earlier :
      (minute : ℕ)
      → minute < minute_of now
      → Bound options minute address ((now, from) ∷ arrivals) s
  unfolding on_requests
  Bound-earlier minute h =
      ground (arith, admissions_past options minute address now arrivals next_state h o)

  Bound-later :
      (minute : ℕ)
      → minute_of now < minute
      → Bound options minute address arrivals next_state
      → Bound options minute address ((now, from) ∷ arrivals) s
  unfolding on_requests
  Bound-later minute h rest = ground (
    arith,
    used_ahead minute (minute_of now) address s h past,
    used_ahead minute (minute_of now) address next_state h
        (on_request-IsPast options now from s past),
  )

admissions-used :
    (options : GalleryAppOptions) (minute : ℕ) (address : String) (now : ℕ)
    (arrivals : List Arrival) (s : Limiter)
    → IsPast (minute_of now) s
    → IsOrdered now arrivals
    → Bound options minute address arrivals s
unfolding on_requests
admissions-used options minute address now [] s past o = ground arith
admissions-used options minute address now ((later, from) ∷ arrivals) s past (le, o) =
    let now_past = later-IsPast (minute_of now) (minute_of later) s (omega arith) past in
    let rest =
      admissions-used options minute address later arrivals (on_request options later from s).1
        (on_request-IsPast options later from s now_past) o in
    elim (Bool-cases (minute_of later == minute)) [
      | inl e ↦
          let now_same : minute_of later ≡ minute = ground arith in
          subst (λ m. Bound options m address ((later, from) ∷ arrivals) s) now_same
            (Bound-now options address from later arrivals s now_past o (
              subst (λ m. Bound options m address arrivals (on_request options later from s).1)
                (sym now_same) rest))
      | inr e ↦ elim (Bool-cases (ltb minute (minute_of later))) [
        | inl h ↦
            Bound-earlier options address from later arrivals s now_past o minute (ground arith)
        | inr h ↦
            Bound-later options address from later arrivals s now_past o minute (ground arith) rest
      ]
    ]

-- In the run of a fresh server whose clock does not run backwards, the requests of one address within one
-- minute that the hook lets through are at most as many as the configured limit, whatever the other
-- requests are.
pub on_requests-limit :
    (options : GalleryAppOptions) (minute : ℕ) (address : String) (arrivals : List Arrival)
    → IsOrdered 0 arrivals
    → admissions minute address (on_requests options arrivals fresh_limiter).0 ≤ limit_of options
unfolding get
on_requests-limit options minute address arrivals o =
    let bound = admissions-used options minute address 0 arrivals fresh_limiter (tt, tt) o in
    ground (arith, bound)
