-- ===== src/Gallery/RateLimit.antt =====
-- services/gallery/src/app.ts: the `onRequest` hook of `createExtensionGalleryApp`. Times are milliseconds.
use locus_browser.Base.{
  ℕ, ◌+◌, ◌-◌, ◌/◌, ◌<◌, String, Bool, true, false, not, ◌&&◌, ◌==◌, leb, ltb, Option, none, some,
  List, [], ◌∷◌, Dict, get, set, delete_where, length, opt_eq, if◌then◌else◌, str_eq,
}
mod Counted
pub mod Limit
pub mod Capacity
mod Tests

pub record GalleryAppOptions : Type 0 where
  pub production : Bool
  pub requests_per_minute : Option ℕ

pub record Counter : Type 0 where
  pub minute : ℕ
  pub count : ℕ

-- `none` is the -1 that `lastPrunedMinute` starts with.
pub record Limiter : Type 0 where
  pub limits : Dict Counter
  pub last_pruned_minute : Option ℕ

abbrev pub fresh_limiter : Limiter
fresh_limiter = record { limits = []; last_pruned_minute = none }

-- What the hook answers: 429 in the first two cases, else the request goes on to its route. The second and
-- the third carry the rate headers, the limit and what remains of it.
pub data LimitDecision : Type 0 where
  capacity_exceeded : LimitDecision
  limit_exceeded : ℕ → ℕ → LimitDecision
  admitted : ℕ → ℕ → LimitDecision

abbrev pub minute_of : ℕ → ℕ
minute_of now = now / 60000

abbrev pub limit_of : GalleryAppOptions → ℕ
limit_of options = elim (options.requests_per_minute) [
  | some limit ↦ limit
  | none ↦ if options.production then 120 else 10000
]

-- The loop that runs when a new minute starts.
unfoldable pub prune_limits : ℕ → Limiter → Limiter
prune_limits minute s = if opt_eq s.last_pruned_minute (some minute) then s else (record {
  limits = delete_where (λ address counter. ltb counter.minute minute) s.limits;
  last_pruned_minute = some minute;
})

-- `current?.minute === minute ? current : { minute, count: 0 }`, with its `count += 1`: the new count.
abbrev pub next_count : ℕ → Option Counter → ℕ
next_count minute none = 1
next_count minute (some current) = if current.minute == minute then current.count + 1 else 1

abbrev pub is_absent : Option Counter → Bool
is_absent none = true
is_absent (some current) = false

unfoldable pub count_request : ℕ → ℕ → String → Limiter → LimitDecision × Limiter
count_request limit minute address s =
    let current = get s.limits address in
    let count = next_count minute current in
    let counted = record s {
      limits = set s.limits address (record { minute = minute; count = count });
    } in
    if is_absent current && leb 10000 (length s.limits) then (capacity_exceeded, s) else (
      (if ltb limit count
          then limit_exceeded limit (limit - count)
          else admitted limit (limit - count)),
      counted,
    )

unfoldable pub on_request : GalleryAppOptions → ℕ → String → Limiter → LimitDecision × Limiter
on_request options now address s =
    count_request (limit_of options) (minute_of now) address (prune_limits (minute_of now) s)

abbrev pub is_admitted : LimitDecision → Bool
is_admitted (admitted limit remaining) = true
is_admitted decision = false

-- A request is its time and its address.
abbrev pub Arrival : Type 0
Arrival = ℕ × String

-- The state after a sequence of requests, and what each was answered.
unfoldable pub on_requests :
    GalleryAppOptions → List Arrival → Limiter → List (Arrival × LimitDecision) × Limiter
on_requests options [] s = ([], s)
on_requests options ((now, address) ∷ arrivals) s =
    let (decision, s') = on_request options now address s in
    let (answers, end) = on_requests options arrivals s' in
    (((now, address), decision) ∷ answers, end)
