-- ===== src/Sync/Requests/Handler.antt =====
-- `createSyncRequestHandler` of services/sync/src/requestHandler.ts: the gate, the routes in the order of the
-- source, and the `catch`.
use locus_browser.Base.{
  ◌>>=◌, String, Bool, true, ◌&&◌, Option, none, some, List, [], ◌∷◌, any, str_eq, Result, ok, err,
  if◌then◌else◌, pure,
}
use locus_browser.Base.Patterns.{segment_between}
use locus_browser.Sync.Models.{AuthenticatedDevice}
use locus_browser.Sync.Memory.State.{Repository}
use locus_browser.Sync.Memory.Devices.{authenticate}
use locus_browser.Sync.Requests.Values.{
  Failure, too_large, invalid_json, invalid_request, thrown, Request, Platform, Draws, Response,
  healthy, error, client_script, client_css, json, text,
}
use locus_browser.Sync.Requests.Support.{is_public_route, bearer_token}
use locus_browser.Sync.Requests.Effects.{Handler, call}
use locus_browser.Sync.Requests.Records.{push_route, pull_route, cloud_data_route}
use locus_browser.Sync.Requests.Keys.{
  devices_route, key_state_route, first_key_route, wrapped_key_route, rotation_route,
  revocation_route, self_revocation_route, account_route,
}
use locus_browser.Sync.Requests.Ceremonies.{
  registration_route, authentication_route, ceremony_page_route, ceremony_options_route,
  claim_route,
}
use locus_browser.Sync.Requests.Verification.{verification_route}
use locus_browser.Sync.Requests.Enrollments.{
  enrollment_route, details_route, approval_route, enrollment_claim_route,
}

unfoldable pub safe_request_errors : List String
safe_request_errors =
    "Device identity collision" ∷ "Device is unavailable" ∷ "Enrollment is unavailable"
    ∷ "Every active device requires exactly one wrapped account key"
    ∷ "Key rotation must replace every sync record" ∷ "Passkey account mismatch"
    ∷ "Passkey is already registered" ∷ "Passkey is unavailable" ∷ "Record ownership mismatch"
    ∷ "Sync account key is not initialized" ∷ "Sync account key version changed" ∷ []

-- The `catch`. The issues that go with "Invalid request" are left out.
unfoldable pub failure_response : Failure → Response
unfolding safe_request_errors
failure_response too_large = json (error "Request body exceeds 3 MB") 413 []
failure_response invalid_json = json (error "Invalid JSON request") 400 []
failure_response invalid_request = json (error "Invalid request") 400 []
failure_response (thrown message) =
    if any (str_eq message) safe_request_errors
    then json (error message) 400 []
    else json (error "Request failed") 500 []

-- `method === … && match`: the route of a matching segment, or the routes that follow.
abbrev pub on_match {ℓ} : {A : Type ℓ} → Bool → Option String → (String → A) → A → A
on_match true (some segment) here later = here segment
on_match _ _ here later = later

-- The answers that need no repository.
unfoldable pub health : Response
health = json healthy 200 []

unfoldable pub script : Response
script = text client_script 200 (
    ("cache-control", "public, max-age=300")
    ∷ ("content-type", "application/javascript; charset=utf-8")
    ∷ [])

unfoldable pub style : Response
style =
    text client_css 200
      (("cache-control", "public, max-age=300") ∷ ("content-type", "text/css; charset=utf-8") ∷ [])

-- `method === … && path === …`.
abbrev pub is_at : {Json : Type 0} → Request Json → String → String → Bool
is_at request method path = str_eq request.method method && str_eq request.path path

abbrev pub is_method : {Json : Type 0} → Request Json → String → Bool
is_method request method = str_eq request.method method

abbrev pub caught : Result Failure Response × Repository → Response × Repository
caught (ok response, s) = (response, s)
caught (err failure, s) = (failure_response failure, s)

module _ {Json : Type 0} (p : Platform Json) (request : Request Json) (draws : Draws) where
  unfoldable pub device_routes : Option AuthenticatedDevice → Handler Response
  device_routes device =
      if is_at request "GET" "/v1/devices"
      then devices_route device
      else if is_at request "GET" "/v1/account/key"
      then key_state_route device
      else if is_at request "PUT" "/v1/account/key"
      then first_key_route p request draws device
      else if is_at request "PUT" "/v1/devices/self/key"
      then wrapped_key_route p request draws device
      else if is_at request "POST" "/v1/account/key/rotate"
      then rotation_route p request draws device
      else if is_at request "DELETE" "/v1/devices/self"
      then self_revocation_route device
      else on_match (is_method request "DELETE") (segment_between "/v1/devices/" "" request.path)
          (λ id. revocation_route p request draws id device)
          (if is_at request "DELETE" "/v1/sync/cloud-data"
            then cloud_data_route device
            else if is_at request "DELETE" "/v1/account"
            then account_route device
            else pure (json (error "Not found") 404 []))

  unfoldable pub enrollment_routes : Option AuthenticatedDevice → Handler Response
  unfolding device_routes
  enrollment_routes device =
      if is_at request "POST" "/v1/devices/enrollments"
      then enrollment_route p request draws
      else on_match (is_method request "POST")
          (segment_between "/v1/devices/enrollments/" "/details" request.path)
          (details_route p request draws)
          (on_match (is_method request "POST")
            (segment_between "/v1/devices/enrollments/" "/approve" request.path)
            (λ id. approval_route p request draws id device)
            (if is_at request "POST" "/v1/devices/enrollments/claim"
              then enrollment_claim_route p request draws
              else device_routes device))

  unfoldable pub passkey_routes : Option AuthenticatedDevice → Handler Response
  unfolding enrollment_routes
  passkey_routes device =
      if is_at request "POST" "/v1/auth/passkeys/register/options"
      then registration_route p request draws
      else if is_at request "POST" "/v1/auth/passkeys/authenticate/options"
      then authentication_route p request draws
      else on_match (is_method request "GET")
          (segment_between "/v1/auth/passkeys/ceremonies/" "" request.path)
          (ceremony_page_route p request draws)
          (on_match (is_method request "GET")
            (segment_between "/v1/auth/passkeys/ceremonies/" "/options" request.path)
            (ceremony_options_route p request draws)
            (on_match (is_method request "POST")
              (segment_between "/v1/auth/passkeys/ceremonies/" "/verify" request.path)
              (verification_route p draws request)
              (if is_at request "POST" "/v1/auth/passkeys/claims"
                then claim_route p request draws
                else enrollment_routes device)))

  unfoldable pub routes : Option AuthenticatedDevice → Handler Response
  unfolding passkey_routes
  routes device =
      if is_at request "POST" "/v1/sync/push"
      then push_route p request draws device
      else if is_at request "GET" "/v1/sync/pull"
      then pull_route p request draws device
      else passkey_routes device

  unfoldable pub admit : Option AuthenticatedDevice → Handler Response
  unfolding routes
  admit none = pure (json (error "Unknown or revoked device") 401 [])
  admit (some device) = routes (some device)

  unfoldable pub with_token : String → Handler Response
  unfolding admit
  with_token token =
      if str_eq token ""
      then pure (json (error "Device authentication required") 401 [])
      else (call (authenticate (p.hash_token token) (draws.now 0)) >>= admit)

  -- What follows the three pages that need no repository.
  unfoldable pub gate : Handler Response
  unfolding routes with_token
  gate =
      if is_public_route request.method request.path
      then routes none
      else with_token (bearer_token request.authorization)

  unfoldable pub handle : Handler Response
  unfolding gate health script style
  handle =
      if is_at request "GET" "/health"
      then pure health
      else if is_at request "GET" "/v1/auth/passkeys/client.js"
      then pure script
      else if is_at request "GET" "/v1/auth/passkeys/client.css"
      then pure style
      else gate

  unfoldable pub fetch : Repository → Response × Repository
  unfolding handle
  fetch s = caught (handle s)
