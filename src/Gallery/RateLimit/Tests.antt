-- ===== src/Gallery/RateLimit/Tests.antt =====
-- The rate limiter on a few requests.
use locus_browser.Base.{◌≤◌, ◌≡◌, refl, false, some, List, [], ◌∷◌, get, set, delete_where, arith}
use locus_browser.Gallery.RateLimit.{
  GalleryAppOptions, Arrival, limit_exceeded, admitted, fresh_limiter, prune_limits, count_request,
  on_request, on_requests, limit_of,
}
use locus_browser.Gallery.RateLimit.Limit.{admissions, on_requests-limit}
use locus_browser.Gallery.RateLimit.Capacity.{IsBounded, on_requests-IsBounded}

abbrev two_a_minute : GalleryAppOptions
two_a_minute = record { production = false; requests_per_minute = some 2 }

abbrev burst : List Arrival
burst = (1, "a") ∷ (2, "a") ∷ (3, "b") ∷ (59999, "a") ∷ (60000, "a") ∷ []

burst_answers :
    (on_requests two_a_minute burst fresh_limiter).0
    ≡ ((1, "a"), admitted 2 1)
      ∷ ((2, "a"), admitted 2 0)
      ∷ ((3, "b"), admitted 2 1)
      ∷ ((59999, "a"), limit_exceeded 2 0)
      ∷ ((60000, "a"), admitted 2 1)
      ∷ []
unfolding on_requests on_request prune_limits count_request get set delete_where
burst_answers = refl

on_requests-limit_example :
    admissions 0 "a" (on_requests two_a_minute burst fresh_limiter).0 ≤ limit_of two_a_minute
on_requests-limit_example = on_requests-limit two_a_minute 0 "a" burst (omega arith)

on_requests-IsBounded_example : IsBounded (on_requests two_a_minute burst fresh_limiter).1
on_requests-IsBounded_example = on_requests-IsBounded two_a_minute burst fresh_limiter (omega arith)
