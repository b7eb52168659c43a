-- ===== src/Sync/Requests/Keeping/Requests.antt =====
-- A request, answered by services/sync/src/requestHandler.ts, keeps what satisfies `Rules`.
use locus_browser.Base.{
  ℕ, String, Bool, true, false, Option, none, some, Result, ok, err, pure, str_eq, NoColon,
}
use locus_browser.Base.Patterns.{segment_between}
use locus_browser.Base.Keeps.{Keeps, Ends, Any, Ends-if, Ends-after_step, Keeps-pure, Keeps-if}
use locus_browser.Sync.Models.{AuthenticatedDevice}
use locus_browser.Sync.Memory.State.{Repository}
use locus_browser.Sync.Memory.Devices.{authenticate}
use locus_browser.Sync.Requests.Values.{Request, Platform, Draws, Response, Failure}
use locus_browser.Sync.Requests.Support.{bearer_token, is_public_route}
use locus_browser.Sync.Requests.Effects.{Handler, call}
use locus_browser.Sync.Requests.Handler.{
  health, script, style, on_match, is_at, is_method, device_routes, enrollment_routes,
  passkey_routes, routes, admit, with_token, gate, handle, caught, fetch,
}
use locus_browser.Sync.Requests.Rules.{Rules, IfSome}
use locus_browser.Sync.Requests.Keeping.Routes.{
  Ends-rethrow, push_route-Keeps, pull_route-Keeps, first_key_route-Keeps, wrapped_key_route-Keeps,
  rotation_route-Keeps, revocation_route-Keeps, approval_route-Keeps, cloud_data_route-Keeps,
  devices_route-Keeps, key_state_route-Keeps, self_revocation_route-Keeps, account_route-Keeps,
}
use locus_browser.Sync.Requests.Keeping.Sessions.{
  verification_route-Keeps, registration_route-Keeps, authentication_route-Keeps,
  ceremony_page_route-Keeps, ceremony_options_route-Keeps, claim_route-Keeps,
  enrollment_route-Keeps, details_route-Keeps, enrollment_claim_route-Keeps,
}

Keeps-on_match :
    (I : Repository → Type 0) (b : Bool) (o : Option String) (here : String → Handler Response)
    (later : Handler Response)
    → ((segment : String) → Keeps I Any (here segment))
    → Keeps I Any later
    → Keeps I Any (on_match b o here later)
Keeps-on_match I true (some segment) here later h l = h segment
Keeps-on_match I true none here later h l = l
Keeps-on_match I false o here later h l = l

Ends-caught :
    (I : Repository → Type 0) (r : Result Failure Response) (s : Repository)
    → Ends I Any (r, s)
    → I (caught (r, s)).1
Ends-caught I (ok response) s h = h.0
Ends-caught I (err failure) s h = h

module _ {Json : Type 0} (p : Platform Json) (request : Request Json) (draws : Draws)
    (uuids : (i : ℕ) → NoColon (draws.uuid i)) {I : Repository → Type 0}
    {Owner : AuthenticatedDevice → Type 0} (rules : Rules I Owner) where
  device_routes-Keeps :
      (device : Option AuthenticatedDevice)
      → IfSome Owner device
      → Keeps I Any (device_routes p request draws device)
  unfolding device_routes
  device_routes-Keeps device o = Keeps-if I _ (devices_route-Keeps rules device o) (
      Keeps-if I _ (key_state_route-Keeps rules device o) (
        Keeps-if I _ (first_key_route-Keeps p request draws rules device o) (
          Keeps-if I _ (wrapped_key_route-Keeps p request draws rules device o) (
            Keeps-if I _ (rotation_route-Keeps p request draws rules device o) (
              Keeps-if I _ (self_revocation_route-Keeps rules device o) (
                Keeps-on_match I (is_method request "DELETE")
                  (segment_between "/v1/devices/" "" request.path) _ _
                  (revocation_route-Keeps p request draws rules device o)
                  (Keeps-if I (is_at request "DELETE" "/v1/sync/cloud-data")
                    (cloud_data_route-Keeps rules device o)
                    (Keeps-if I (is_at request "DELETE" "/v1/account")
                      (account_route-Keeps rules device o) (Keeps-pure I tt)))))))))

  enrollment_routes-Keeps :
      (device : Option AuthenticatedDevice)
      → IfSome Owner device
      → Keeps I Any (enrollment_routes p request draws device)
  unfolding enrollment_routes
  enrollment_routes-Keeps device o =
      Keeps-if I _ (enrollment_route-Keeps p draws uuids rules request) (
        Keeps-on_match I (is_method request "POST")
          (segment_between "/v1/devices/enrollments/" "/details" request.path) _ _
          (details_route-Keeps p draws uuids rules request)
          (Keeps-on_match I (is_method request "POST")
            (segment_between "/v1/devices/enrollments/" "/approve" request.path) _ _
            (approval_route-Keeps p request draws rules device o)
            (Keeps-if I (is_at request "POST" "/v1/devices/enrollments/claim")
              (enrollment_claim_route-Keeps p draws uuids rules request)
              (device_routes-Keeps device o))))

  passkey_routes-Keeps :
      (device : Option AuthenticatedDevice)
      → IfSome Owner device
      → Keeps I Any (passkey_routes p request draws device)
  unfolding passkey_routes
  passkey_routes-Keeps device o =
      Keeps-if I _ (registration_route-Keeps p draws uuids rules request) (
        Keeps-if I _ (authentication_route-Keeps p draws uuids rules request) (
          Keeps-on_match I (is_method request "GET")
            (segment_between "/v1/auth/passkeys/ceremonies/" "" request.path) _ _
            (ceremony_page_route-Keeps p draws uuids rules request)
            (Keeps-on_match I (is_method request "GET")
              (segment_between "/v1/auth/passkeys/ceremonies/" "/options" request.path) _ _
              (ceremony_options_route-Keeps p draws uuids rules request)
              (Keeps-on_match I (is_method request "POST")
                (segment_between "/v1/auth/passkeys/ceremonies/" "/verify" request.path) _ _
                (verification_route-Keeps p draws uuids rules request)
                (Keeps-if I (is_at request "POST" "/v1/auth/passkeys/claims")
                  (claim_route-Keeps p draws uuids rules request)
                  (enrollment_routes-Keeps device o))))))

  routes-Keeps :
      (device : Option AuthenticatedDevice)
      → IfSome Owner device
      → Keeps I Any (routes p request draws device)
  unfolding routes
  routes-Keeps device o = Keeps-if I _ (push_route-Keeps p request draws rules device o) (
      Keeps-if I _ (pull_route-Keeps p request draws rules device o)
        (passkey_routes-Keeps device o))

  admit-Keeps :
      (device : Option AuthenticatedDevice)
      → IfSome Owner device
      → Keeps I Any (admit p request draws device)
  unfolding admit
  admit-Keeps none o = Keeps-pure I tt
  admit-Keeps (some device) o = routes-Keeps (some device) o

  -- What is known once the request's token has been looked up.
  abbrev pub Admits : Repository → Type 0
  Admits s =
      Ends I (IfSome Owner)
        (authenticate (p.hash_token (bearer_token request.authorization)) (draws.now 0) s)

  with_token-Ends :
      (s : Repository)
      → I s
      → Admits s
      → Ends I Any (with_token p request draws (bearer_token request.authorization) s)
  unfolding with_token call
  with_token-Ends s i a =
      Ends-if I Any (str_eq (bearer_token request.authorization) "") _ _ s (i, tt)
        (Ends-after_step I (IfSome Owner) Any (admit p request draws)
          (call (authenticate (p.hash_token (bearer_token request.authorization)) (draws.now 0)) s)
          (Ends-rethrow I (IfSome Owner) _ _ a) admit-Keeps)

  gate-Ends : (s : Repository) → I s → Admits s → Ends I Any (gate p request draws s)
  unfolding gate
  gate-Ends s i a =
      Ends-if I Any (is_public_route request.method request.path) (routes p request draws none) _ s
        ((routes-Keeps none tt).at s i) (with_token-Ends s i a)

  handle-Ends : (s : Repository) → I s → Admits s → Ends I Any (handle p request draws s)
  unfolding handle
  handle-Ends s i a =
      Ends-if I Any (is_at request "GET" "/health") (pure health) _ s (i, tt)
        (Ends-if I Any (is_at request "GET" "/v1/auth/passkeys/client.js") (pure script) _ s (i, tt)
          (Ends-if I Any (is_at request "GET" "/v1/auth/passkeys/client.css") (pure style)
            (gate p request draws) s (i, tt) (gate-Ends s i a)))

  pub fetch_keeps : (s : Repository) → I s → Admits s → I (fetch p request draws s).1
  unfolding fetch
  fetch_keeps s i a =
      Ends-caught I (handle p request draws s).0 (handle p request draws s).1 (handle-Ends s i a)
