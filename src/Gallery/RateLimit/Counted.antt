-- ===== src/Gallery/RateLimit/Counted.antt =====
-- What one request changes in the rate limiter.
use locus_browser.Base.{
  ℕ, ◌+◌, ◌≤◌, ◌<◌, ◌≡◌, ◌≢◌, refl, String, Bool, true, false, ◌&&◌, ◌==◌, ltb, Option, none, some,
  get, All, arith, Bool-cases, inl, inr, HasUniqueKeys, Option-cases, opt_eq, unless, leb, length,
  get-set_self, get-set_ne, ==_refl, ◌-◌, subst, ◌∙◌, get-delete_where, HasUniqueKeys-delete_where,
  All-delete_where, HasUniqueKeys-set, All-set, if◌then◌else◌,
}
use locus_browser.Gallery.RateLimit.{
  GalleryAppOptions, Counter, Limiter, prune_limits, count_request, on_request, minute_of, limit_of,
  is_admitted, limit_exceeded, admitted, is_absent, next_count,
}

-- The count of an address in a minute.
abbrev pub count_in : ℕ → Option Counter → ℕ
count_in minute none = 0
count_in minute (some c) = if c.minute == minute then c.count else 0

abbrev pub used : ℕ → String → Limiter → ℕ
used minute address s = count_in minute (get s.limits address)

abbrev pub max_count : ℕ → ℕ → ℕ
max_count a b = if ltb a b then b else a

-- No address stands twice, and no counter is of a minute to come.
abbrev pub IsPast : ℕ → Limiter → Type 0
IsPast minute s = HasUniqueKeys s.limits × All (λ e. e.1.minute ≤ minute) s.limits

prune_limits-used :
    (minute : ℕ) (address : String) (s : Limiter)
    → HasUniqueKeys s.limits
    → used minute address (prune_limits minute s) ≡ used minute address s
unfolding prune_limits
prune_limits-used minute address s h =
    elim (Bool-cases (opt_eq s.last_pruned_minute (some minute))) [
      | inl e ↦ rw e refl
      | inr e ↦
          rw (e, get-delete_where (λ address counter. ltb counter.minute minute) s.limits address h)
            (unless-count (get s.limits address))
    ]
  where
    unless-count :
        (o : Option Counter)
        → count_in minute (unless (λ address counter. ltb counter.minute minute) address o)
          ≡ count_in minute o
    unless-count none = refl
    unless-count (some c) = ground arith

prune_limits-IsPast :
    (minute : ℕ) (s : Limiter) → IsPast minute s → IsPast minute (prune_limits minute s)
unfolding prune_limits
prune_limits-IsPast minute s (h, g) =
    elim (Bool-cases (opt_eq s.last_pruned_minute (some minute))) [
      | inl e ↦ rw e (h, g)
      | inr e ↦ rw e (HasUniqueKeys-delete_where _ s.limits h, All-delete_where _ _ s.limits g)
    ]

-- A request of the address is admitted with one more use, which the limit allows; or the table is full; or
-- its use is beyond the limit.
pub data Counted (limit before after : ℕ) (b : Bool) : Type 0 where
  let_through : b ≡ true → after ≡ before + 1 → after ≤ limit → Counted limit before after b
  no_room : b ≡ false → after ≡ before → Counted limit before after b
  beyond : b ≡ false → after ≡ before + 1 → limit < after → Counted limit before after b

module _ (limit minute : ℕ) (address : String) (s : Limiter) where
  count_request-Counted :
      Counted limit
        (used minute address s)
        (used minute address (count_request limit minute address s).1)
        (is_admitted (count_request limit minute address s).0)
  unfolding count_request
  count_request-Counted = elim (Option-cases (get s.limits address)) [
    | inl e ↦ elim (Bool-cases (leb 10000 (length s.limits))) [
      | inl full ↦ rw (e, full, e) (no_room refl refl)
      | inr room ↦
          rw
            (
              e,
              room,
              get-set_self s.limits address (record { minute = minute; count = 1 }),
              ==_refl minute,
            )
            (decided 0 1 refl)
    ]
    | inr (c, e) ↦ elim (Bool-cases (c.minute == minute)) [
      | inl same ↦
          rw
            (
              e,
              same,
              get-set_self s.limits address (record { minute = minute; count = c.count + 1 }),
              ==_refl minute,
            )
            (decided c.count (c.count + 1) refl)
      | inr old ↦
          rw
            (
              e,
              old,
              get-set_self s.limits address (record { minute = minute; count = 1 }),
              ==_refl minute,
            )
            (decided 0 1 refl)
    ]
  ]
    where
      decided :
          (before after : ℕ)
          → after ≡ before + 1
          → Counted limit before after (
              is_admitted (
                if ltb limit after
                then limit_exceeded limit (limit - after)
                else admitted limit (limit - after)))
      decided before after h = elim (Bool-cases (ltb limit after)) [
        | inl over ↦ rw over (beyond refl h (ground arith))
        | inr within ↦ rw within (let_through refl h (ground arith))
      ]

  count_request-others :
      (other : String)
      → address ≢ other
      → used minute other (count_request limit minute address s).1 ≡ used minute other s
  unfolding count_request
  count_request-others other ne =
      elim (Bool-cases (is_absent (get s.limits address) && leb 10000 (length s.limits))) [
        | inl e ↦ rw e refl
        | inr e ↦
            rw
              (
                e,
                get-set_ne s.limits address other
                    (record { minute = minute; count = next_count minute (get s.limits address) })
                    ne,
              )
              refl
      ]

  count_request-IsPast : IsPast minute s → IsPast minute (count_request limit minute address s).1
  unfolding count_request
  count_request-IsPast (h, g) =
      elim (Bool-cases (is_absent (get s.limits address) && leb 10000 (length s.limits))) [
        | inl e ↦ rw e (h, g)
        | inr e ↦ rw e (
          HasUniqueKeys-set s.limits address _ h,
          All-set (λ address c. c.minute ≤ minute) s.limits address _ g (omega arith),
        )
      ]

-- The same of the whole hook.
module _ (options : GalleryAppOptions) (now : ℕ) (address : String) (s : Limiter)
    (past : IsPast (minute_of now) s) where
  pub on_request-Counted :
      Counted
        (limit_of options)
        (used (minute_of now) address s)
        (used (minute_of now) address (on_request options now address s).1)
        (is_admitted (on_request options now address s).0)
  unfolding on_request
  on_request-Counted =
      subst
        (λ n.
          Counted (limit_of options) n
            (used (minute_of now) address (on_request options now address s).1)
            (is_admitted (on_request options now address s).0))
        (prune_limits-used (minute_of now) address s past.0)
        (count_request-Counted (limit_of options) (minute_of now) address
          (prune_limits (minute_of now) s))

  pub on_request-others :
      (other : String)
      → address ≢ other
      → used (minute_of now) other (on_request options now address s).1
        ≡ used (minute_of now) other s
  unfolding on_request
  on_request-others other ne =
      count_request-others (limit_of options) (minute_of now) address
        (prune_limits (minute_of now) s) other ne
      ∙ prune_limits-used (minute_of now) other s past.0

  pub on_request-IsPast : IsPast (minute_of now) (on_request options now address s).1
  unfolding on_request
  on_request-IsPast =
      count_request-IsPast (limit_of options) (minute_of now) address _
        (prune_limits-IsPast (minute_of now) s past)
