-- ===== src/Sync/Requests/Ceremonies.antt =====
-- The routes under /v1/auth/passkeys of services/sync/src/requestHandler.ts.
use Prim.Native.String.{◌++◌}
use locus_browser.Base.{
  ◌>>=◌, ◌>>◌, ◌+◌, ◌*◌, String, Option, none, some, List, [], ◌∷◌, pure, gets, modify, from_result,
}
use locus_browser.Sync.Models.{PasskeyCeremony, registration, authentication}
use locus_browser.Sync.Memory.Passkeys.{
  create_passkey_ceremony, passkey_ceremony, take_passkey_claim, ClaimDelivery,
}
use locus_browser.Sync.Memory.Account.{cleanup_expired}
use locus_browser.Sync.Requests.Values.{
  Request, Platform, Draws, Response, error, ceremony_started, ceremony_options, ceremony_html,
  claimed, plain, json, text,
}
use locus_browser.Sync.Requests.Schemas.{
  device_identity_schema, registration_schema, passkey_claim_schema, path_id_schema,
}
use locus_browser.Sync.Requests.Effects.{Handler, call, parse, parse_body}

abbrev pub no_store : List (String × String)
no_store = ("cache-control", "no-store") ∷ []

abbrev pub page_headers : List (String × String)
page_headers =
    ("cache-control", "no-store")
    ∷ (
      "content-security-policy",
      "default-src 'none'; script-src 'self'; style-src 'self'; connect-src 'self'; base-uri 'none'; form-action 'none'; frame-ancestors 'none'",
    )
    ∷ ("content-type", "text/html; charset=utf-8")
    ∷ ("referrer-policy", "no-referrer")
    ∷ ("x-frame-options", "DENY")
    ∷ []

-- The page of a ceremony, if there is one.
unfoldable pub page_for : Option PasskeyCeremony → Response
page_for none = text (plain "Passkey request unavailable") 404 []
page_for (some ceremony) = text ceremony_html 200 page_headers

unfoldable pub options_for : Option PasskeyCeremony → Response
options_for none = json (error "Passkey request unavailable") 404 []
options_for (some ceremony) =
    json (ceremony_options ceremony.kind ceremony.options_json) 200 no_store

unfoldable pub claim_answer : Option ClaimDelivery → Response
claim_answer none = json (error "Passkey claim is unavailable") 404 []
claim_answer (some claim) = json (claimed claim) 200 no_store

module _ {Json : Type 0} (p : Platform Json) (request : Request Json) (draws : Draws) where
  abbrev pub auth_url : String → String
  auth_url ceremony_id = p.config.origin ++ ("/v1/auth/passkeys/ceremonies/" ++ ceremony_id)

  -- POST /v1/auth/passkeys/register/options
  unfoldable pub registration_route : Handler Response
  registration_route = do
    modify (cleanup_expired (draws.now 1))
    (identity, display_name) ← parse_body p (registration_schema p) request
    options ← from_result (p.registration_options p.config (draws.secret 0) display_name)
    modify (
        create_passkey_ceremony (record {
          id = draws.uuid 1;
          kind = registration;
          account_id = some (draws.uuid 0);
          user_id = some (draws.secret 0);
          display_name = some display_name;
          challenge = options.challenge;
          options_json = options.options_json;
          device_id = identity.device_id;
          device_name = identity.device_name;
          device_public_key = identity.device_public_key;
          expires_at = draws.now 2 + 5 * 60000;
        }))
    pure (json (ceremony_started (draws.uuid 1) (auth_url (draws.uuid 1))) 200 [])

  -- POST /v1/auth/passkeys/authenticate/options
  unfoldable pub authentication_route : Handler Response
  authentication_route = do
    modify (cleanup_expired (draws.now 1))
    identity ← parse_body p (device_identity_schema p) request
    options ← from_result (p.authentication_options p.config)
    modify (
        create_passkey_ceremony (record {
          id = draws.uuid 0;
          kind = authentication;
          account_id = none;
          user_id = none;
          display_name = none;
          challenge = options.challenge;
          options_json = options.options_json;
          device_id = identity.device_id;
          device_name = identity.device_name;
          device_public_key = identity.device_public_key;
          expires_at = draws.now 2 + 5 * 60000;
        }))
    pure (json (ceremony_started (draws.uuid 0) (auth_url (draws.uuid 0))) 200 [])

  -- GET /v1/auth/passkeys/ceremonies/:id
  unfoldable pub ceremony_page_route : String → Handler Response
  unfolding page_for
  ceremony_page_route segment = do
    id ← parse (path_id_schema p segment)
    found ← gets (λ s. passkey_ceremony s id (draws.now 1))
    pure (page_for found)

  -- GET /v1/auth/passkeys/ceremonies/:id/options
  unfoldable pub ceremony_options_route : String → Handler Response
  unfolding options_for
  ceremony_options_route segment = do
    id ← parse (path_id_schema p segment)
    found ← gets (λ s. passkey_ceremony s id (draws.now 1))
    pure (options_for found)

  -- POST /v1/auth/passkeys/claims
  unfoldable pub claim_route : Handler Response
  unfolding claim_answer
  claim_route = do
    (claim_id, claim_code) ← parse_body p (passkey_claim_schema p) request
    claim ← call (take_passkey_claim claim_id (p.hash_token claim_code) (draws.now 1))
    pure (claim_answer claim)
