-- ===== src/Sync/Requests/Errors.antt =====
-- What a client learns of an error: the `catch` of services/sync/src/requestHandler.ts.
use locus_browser.Base.{◌≡◌, ◌≢◌, refl, []}
use locus_browser.Sync.Memory.State.{
  Error, key_version_changed, ownership_mismatch, enrollment_unavailable,
  account_key_not_initialized, passkey_account_mismatch, passkey_already_registered,
  passkey_unavailable, device_unavailable, incomplete_wraps, incomplete_rotation, type_error,
}
use locus_browser.Sync.Requests.Values.{thrown, error, json}
use locus_browser.Sync.Requests.Effects.{message}
use locus_browser.Sync.Requests.Handler.{failure_response, safe_request_errors}

-- The text of an error response is the message exactly if the message is one of the safe ones: every
-- error that the repository throws on purpose is reported with its own message and status 400, and a
-- `TypeError` is answered with status 500 and no detail.
pub failure_response-message :
    (e : Error)
    → ((e ≢ type_error) → failure_response (thrown (message e)) ≡ json (error (message e)) 400 [])
      × ((e ≡ type_error)
          → failure_response (thrown (message e)) ≡ json (error "Request failed") 500 [])
unfolding failure_response safe_request_errors message
failure_response-message key_version_changed = (λ _. refl, λ h. cc)
failure_response-message ownership_mismatch = (λ _. refl, λ h. cc)
failure_response-message enrollment_unavailable = (λ _. refl, λ h. cc)
failure_response-message account_key_not_initialized = (λ _. refl, λ h. cc)
failure_response-message passkey_account_mismatch = (λ _. refl, λ h. cc)
failure_response-message passkey_already_registered = (λ _. refl, λ h. cc)
failure_response-message passkey_unavailable = (λ _. refl, λ h. cc)
failure_response-message device_unavailable = (λ _. refl, λ h. cc)
failure_response-message incomplete_wraps = (λ _. refl, λ h. cc)
failure_response-message incomplete_rotation = (λ _. refl, λ h. cc)
failure_response-message type_error = (λ h. absurd (h refl), λ _. refl)
