-- ===== src/Sync/Requests/Revoked.antt =====
-- After DELETE /v1/devices/self and DELETE /v1/account of services/sync/src/requestHandler.ts the tokens
-- concerned get no further.
use locus_browser.Base.{
  ℕ, ◌≡◌, ◌∙◌, refl, ap, String, true, false, none, some, [], get, Dict, get-delete_where, str_eq,
  inr, arith, eq_iff, eq_refl, unless, HasUniqueKeys,
}
use locus_browser.Base.Patterns.{segment_between}
use locus_browser.Sync.Models.{AuthenticatedDevice}
use locus_browser.Sync.Memory.State.{Repository, device_key}
use locus_browser.Sync.Memory.Invariant.{Inv}
use locus_browser.Sync.Memory.Devices.{touch, revoke_device, is_of_device}
use locus_browser.Sync.Memory.Records.{delete_cloud_data, delete_records}
use locus_browser.Sync.Memory.Account.{delete_account}
use locus_browser.Sync.Requests.Values.{Request, Platform, Draws, error, revoked, deleted, json}
use locus_browser.Sync.Requests.Support.{bearer_token, is_public_route, required_device}
use locus_browser.Sync.Requests.Keys.{self_revocation_route, account_route}
use locus_browser.Sync.Requests.Handler.{
  routes, passkey_routes, enrollment_routes, device_routes, fetch,
}
use locus_browser.Sync.Requests.Gate.{fetch_unauthorized, fetch_admitted, refusal}

-- The request, sent to a route.
abbrev pub sent_to : {Json : Type 0} → Request Json → String → String → Request Json
sent_to request method path = record request { method = method; path = path }

-- No request with the token gets past the gate.
abbrev pub IsShutOut : {Json : Type 0} → Platform Json → String → Repository → Type 0
IsShutOut {Json} p token t =
    (later : Request Json) (draws : Draws)
    → bearer_token later.authorization ≡ token
    → is_public_route later.method later.path ≡ false
    → fetch p later draws t ≡ (json (error (refusal token)) 401 [], t)

unknown-IsShutOut :
    {Json : Type 0} (p : Platform Json) (token : String) (t : Repository)
    → get t.tokens (p.hash_token token) ≡ none
    → IsShutOut p token t
unknown-IsShutOut p token t unknown later draws same closed =
    fetch_unauthorized p later draws t closed (inr (rw same unknown))
    ∙ ap (λ (x : String). (json (error (refusal x)) 401 [], t)) same

touch-tokens : (key : String) (now : ℕ) (s : Repository) → (touch key now s).tokens ≡ s.tokens
unfolding touch
touch-tokens key now s = ground arith

closed_self : is_public_route "DELETE" "/v1/devices/self" ≡ false
unfolding is_public_route
closed_self = refl

closed_account : is_public_route "DELETE" "/v1/account" ≡ false
unfolding is_public_route
closed_account = refl

own_device :
    (d : AuthenticatedDevice) (hash : String) → is_of_device d.account_id d.device_id hash d ≡ true
own_device d hash = rw (eq_refl d.account_id, eq_refl d.device_id) refl

module _ {Json : Type 0} (p : Platform Json) (request : Request Json) (draws : Draws)
    (s : Repository) (d : AuthenticatedDevice) (v : Inv s)
    (given : str_eq (bearer_token request.authorization) "" ≡ false)
    (known : get s.tokens (p.hash_token (bearer_token request.authorization)) ≡ some d) where
  abbrev touched : Repository
  touched = touch (device_key d.account_id d.device_id) (draws.now 0) s

  self_revocation :
      fetch p (sent_to request "DELETE" "/v1/devices/self") draws s
      ≡ (json revoked 200 [], revoke_device d.account_id d.device_id touched)
  unfolding routes passkey_routes enrollment_routes device_routes self_revocation_route
      required_device
  self_revocation =
      fetch_admitted p (sent_to request "DELETE" "/v1/devices/self") draws s closed_self d given
        known

  account_deletion :
      fetch p (sent_to request "DELETE" "/v1/account") draws s
      ≡ (json deleted 200 [], delete_account d.account_id touched)
  unfolding routes passkey_routes enrollment_routes device_routes account_route required_device
      segment_between
  account_deletion =
      fetch_admitted p (sent_to request "DELETE" "/v1/account") draws s closed_account d given known

  touched_unique : HasUniqueKeys touched.tokens
  touched_unique = rw (touch-tokens (device_key d.account_id d.device_id) (draws.now 0) s) v.unique

  -- The tokens after the revocation: those of the device are gone, all others answer as before.
  revoked_tokens :
      (hash : String)
      → get (revoke_device d.account_id d.device_id touched).tokens hash
        ≡ unless (is_of_device d.account_id d.device_id) hash (get s.tokens hash)
  unfolding revoke_device
  revoked_tokens hash =
      get-delete_where (is_of_device d.account_id d.device_id) touched.tokens hash touched_unique
      ∙ ap
          (λ (m : Dict AuthenticatedDevice).
            unless (is_of_device d.account_id d.device_id) hash (get m hash))
          (touch-tokens (device_key d.account_id d.device_id) (draws.now 0) s)

  deleted_tokens :
      (hash : String)
      → get (delete_account d.account_id touched).tokens hash
        ≡ unless (λ _ a. str_eq a.account_id d.account_id) hash (get s.tokens hash)
  unfolding delete_account delete_cloud_data delete_records
  deleted_tokens hash =
      get-delete_where (λ _ a. str_eq a.account_id d.account_id) touched.tokens hash touched_unique
      ∙ ap
          (λ (m : Dict AuthenticatedDevice).
            unless (λ _ a. str_eq a.account_id d.account_id) hash (get m hash))
          (touch-tokens (device_key d.account_id d.device_id) (draws.now 0) s)

  -- A device that disconnects itself is told so; from then on its token is refused on every route
  -- that is not public, and the tokens of all other devices answer as before.
  pub fetch_self_revocation :
      let (answer, t) = fetch p (sent_to request "DELETE" "/v1/devices/self") draws s in
      (answer ≡ json revoked 200 [])
      × IsShutOut p (bearer_token request.authorization) t
      × ((hash : String)
          → get t.tokens hash
            ≡ unless (is_of_device d.account_id d.device_id) hash (get s.tokens hash))
  fetch_self_revocation =
      let gone : get (revoke_device d.account_id d.device_id touched).tokens
            (p.hash_token (bearer_token request.authorization))
          ≡ none =
        revoked_tokens (p.hash_token (bearer_token request.authorization))
        ∙ rw (known, own_device d (p.hash_token (bearer_token request.authorization))) refl in
      rw self_revocation
        (refl, unknown-IsShutOut p (bearer_token request.authorization) _ gone, revoked_tokens)

  -- An account that is deleted is reported so; from then on the token of each of its devices is
  -- refused on every route that is not public, and the tokens of other accounts answer as before.
  pub fetch_account_deletion :
      let (answer, t) = fetch p (sent_to request "DELETE" "/v1/account") draws s in
      (answer ≡ json deleted 200 [])
      × ((token : String) (a : AuthenticatedDevice)
          → get s.tokens (p.hash_token token) ≡ some a
          → a.account_id ≡ d.account_id
          → IsShutOut p token t)
      × ((hash : String)
          → get t.tokens hash
            ≡ unless (λ _ a. str_eq a.account_id d.account_id) hash (get s.tokens hash))
  fetch_account_deletion = rw account_deletion (
    refl,
    λ token a found own. unknown-IsShutOut p token _ (
        deleted_tokens (p.hash_token token)
        ∙ rw (found, (eq_iff a.account_id d.account_id).1 own) refl),
    deleted_tokens,
  )
