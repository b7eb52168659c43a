-- ===== src/Sync/Requests/Gate.antt =====
-- Who gets past the gate of services/sync/src/requestHandler.ts.
use locus_browser.Base.{
  ℕ, ◌≡◌, ◌⊎◌, refl, ap, String, true, false, none, some, [], ok, get, str_eq, Bool-cases, inl, inr,
  arith, eq_iff, if◌then◌else◌,
}
use locus_browser.Sync.Models.{AuthenticatedDevice}
use locus_browser.Sync.Memory.State.{Repository, device_key}
use locus_browser.Sync.Memory.Devices.{authenticate, touch}
use locus_browser.Sync.Requests.Values.{Request, Platform, Draws, error, json}
use locus_browser.Sync.Requests.Support.{bearer_token, is_public_route}
use locus_browser.Sync.Requests.Effects.{call, rethrow}
use locus_browser.Sync.Requests.Handler.{
  caught, routes, is_at, admit, with_token, gate, handle, fetch,
}

-- No page that needs no repository stands on a protected route.
not_page :
    {Json : Type 0} (request : Request Json) (path : String)
    → is_public_route request.method request.path ≡ false
    → is_public_route request.method path ≡ true
    → is_at request "GET" path ≡ false
not_page request path closed public = elim (Bool-cases (str_eq request.path path)) [
  | inl same ↦
      let e : request.path ≡ path = (eq_iff request.path path).0 same in
      absurd (cc (closed, ap (is_public_route request.method) e, public))
  | inr other ↦ ground arith
]

health_public : (method : String) → is_public_route method "/health" ≡ true
unfolding is_public_route
health_public method = ground arith

script_public : (method : String) → is_public_route method "/v1/auth/passkeys/client.js" ≡ true
unfolding is_public_route
script_public method = ground arith

style_public : (method : String) → is_public_route method "/v1/auth/passkeys/client.css" ≡ true
unfolding is_public_route
style_public method = ground arith

-- A protected route goes to the gate.
pub fetch_protected :
    {Json : Type 0} (p : Platform Json) (request : Request Json) (draws : Draws) (s : Repository)
    → is_public_route request.method request.path ≡ false
    → handle p request draws s ≡ with_token p request draws (bearer_token request.authorization) s
unfolding handle gate
fetch_protected p request draws s closed =
    rw
      (
        not_page request "/health" closed (health_public request.method),
        not_page request "/v1/auth/passkeys/client.js" closed (script_public request.method),
        not_page request "/v1/auth/passkeys/client.css" closed (style_public request.method),
        closed,
      )
      refl

authenticate_unknown :
    (hash : String) (now : ℕ) (s : Repository)
    → get s.tokens hash ≡ none
    → authenticate hash now s ≡ (ok none, s)
unfolding authenticate
authenticate_unknown hash now s h = rw h refl

authenticate_known :
    (hash : String) (now : ℕ) (s : Repository) (d : AuthenticatedDevice)
    → get s.tokens hash ≡ some d
    → authenticate hash now s ≡ (ok (some d), touch (device_key d.account_id d.device_id) now s)
unfolding authenticate
authenticate_known hash now s d h = rw h refl

abbrev pub refusal : String → String
refusal token =
    if str_eq token "" then "Device authentication required" else "Unknown or revoked device"

module _ {Json : Type 0} (p : Platform Json) (request : Request Json) (draws : Draws)
    (s : Repository) (closed : is_public_route request.method request.path ≡ false) where
  -- A request to a route that is not public, without a well-formed bearer token or with one that no
  -- device has, is answered with 401, and the repository is left as it was.
  pub fetch_unauthorized :
      (str_eq (bearer_token request.authorization) "" ≡ true)
        ⊎ (get s.tokens (p.hash_token (bearer_token request.authorization)) ≡ none)
      → fetch p request draws s
        ≡ (json (error (refusal (bearer_token request.authorization))) 401 [], s)
  unfolding fetch with_token call rethrow admit
  fetch_unauthorized (inl missing) = rw (fetch_protected p request draws s closed, missing) refl
  fetch_unauthorized (inr unknown) =
      elim (Bool-cases (str_eq (bearer_token request.authorization) "")) [
        | inl missing ↦ rw (fetch_protected p request draws s closed, missing) refl
        | inr given ↦
            rw
              (
                fetch_protected p request draws s closed,
                given,
                authenticate_unknown (p.hash_token (bearer_token request.authorization))
                    (draws.now 0) s unknown,
              )
              refl
      ]

  -- With the token of a device, the routes run for that device.
  pub fetch_admitted :
      (d : AuthenticatedDevice)
      → str_eq (bearer_token request.authorization) "" ≡ false
      → get s.tokens (p.hash_token (bearer_token request.authorization)) ≡ some d
      → fetch p request draws s
        ≡ caught (
            routes p request draws
              (some d)
              (touch (device_key d.account_id d.device_id) (draws.now 0) s))
  unfolding fetch with_token call rethrow admit
  fetch_admitted d given known =
      rw
        (
          fetch_protected p request draws s closed,
          given,
          authenticate_known (p.hash_token (bearer_token request.authorization)) (draws.now 0) s d
              known,
        )
        refl
