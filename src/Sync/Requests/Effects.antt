-- ===== src/Sync/Requests/Effects.antt =====
-- How a route of services/sync/src/requestHandler.ts calls the repository, parses and fails.
use locus_browser.Base.{String, Option, Result, ok, err, Exec, ◌>>=◌, or_throw, from_result}
use locus_browser.Sync.Memory.State.{
  Repository, Error, key_version_changed, ownership_mismatch, enrollment_unavailable,
  account_key_not_initialized, passkey_account_mismatch, passkey_already_registered,
  passkey_unavailable, device_unavailable, incomplete_wraps, incomplete_rotation, type_error,
}
use locus_browser.Sync.Requests.Values.{Failure, invalid_request, thrown, Request, Platform}
use locus_browser.Sync.Requests.Support.{request_body}

abbrev pub Handler : Type 0 → Type 0
Handler A = Exec Repository Failure A

-- The message of an `Error` that the repository throws.
unfoldable pub message : Error → String
message key_version_changed = "Sync account key version changed"
message ownership_mismatch = "Record ownership mismatch"
message enrollment_unavailable = "Enrollment is unavailable"
message account_key_not_initialized = "Sync account key is not initialized"
message passkey_account_mismatch = "Passkey account mismatch"
message passkey_already_registered = "Passkey is already registered"
message passkey_unavailable = "Passkey is unavailable"
message device_unavailable = "Device is unavailable"
message incomplete_wraps = "Every active device requires exactly one wrapped account key"
message incomplete_rotation = "Key rotation must replace every sync record"
message type_error = "Cannot set properties of undefined (setting 'wrappedAccountKey')"

unfoldable pub rethrow : {A : Type 0} → Result Error A → Result Failure A
unfolding message
rethrow (ok a) = ok a
rethrow (err e) = err (thrown (message e))

-- A call of a repository method, which may throw.
unfoldable pub call : {A : Type 0} → Exec Repository Error A → Handler A
unfolding rethrow
call m s = let (r, t) = m s in (rethrow r, t)

-- `Schema.parse(value)`.
abbrev pub parse : {A : Type 0} → Option A → Handler A
parse o = or_throw o invalid_request

-- `Schema.parse(await requestBody(request))`.
unfoldable pub parse_body :
    {Json A : Type 0} → Platform Json → (Json → Option A) → Request Json → Handler A
unfolding request_body
parse_body p schema request = do value ← from_result (request_body p request); parse (schema value)
