-- ===== src/Sync/Requests/Verification.antt =====
-- POST /v1/auth/passkeys/ceremonies/:id/verify of services/sync/src/requestHandler.ts: a passkey creates an
-- account or signs a device in, and the device's token is left behind a claim.
use Prim.Native.String.{◌++◌}
use locus_browser.Base.{
  ◌>>=◌, ◌>>◌, ℕ, ◌+◌, ◌*◌, String, ◌&&◌, Option, none, some, [], ◌∷◌, truthy, if◌then◌else◌, pure,
  gets, modify, from_result, or_throw,
}
use locus_browser.Sync.Models.{
  PasskeyCeremony, registration, authentication, CeremonyKind, StoredPasskey, RegisteredDevice,
}
use locus_browser.Sync.Memory.Passkeys.{
  passkey_ceremony, consume_passkey_ceremony, create_account_with_passkey, passkey,
  authenticate_with_passkey, create_passkey_claim,
}
use locus_browser.Sync.Requests.Values.{
  Request, Platform, Draws, Response, PasskeyResponse, VerifiedCredential, error, callback, thrown,
  json,
}
use locus_browser.Sync.Requests.Schemas.{credential_schema, path_id_schema}
use locus_browser.Sync.Requests.Effects.{Handler, call, parse, parse_body}

-- The account and the user of a registration, if both are there: `!value` is also true of "".
unfoldable pub both_texts : Option String → Option String → Option (String × String)
both_texts (some account_id) (some user_id) =
    if truthy (some account_id) && truthy (some user_id) then some (account_id, user_id) else none
both_texts _ _ = none

unfoldable pub identity_of : PasskeyCeremony → Option (String × String)
unfolding both_texts
identity_of ceremony = both_texts ceremony.account_id ceremony.user_id

abbrev pub stored_passkey : String → String → VerifiedCredential → StoredPasskey
stored_passkey account_id user_id credential = record {
  credential_id = credential.id;
  account_id = account_id;
  user_id = user_id;
  public_key = credential.public_key;
  counter = credential.counter;
  device_type = credential.device_type;
  backed_up = credential.backed_up;
  transports = credential.transports;
}

module _ {Json : Type 0} (p : Platform Json) (draws : Draws) where
  -- The device of the ceremony, with a new token.
  abbrev pub new_device : String → PasskeyCeremony → RegisteredDevice
  new_device account_id ceremony = record {
    account_id = account_id;
    device_id = ceremony.device_id;
    name = ceremony.device_name;
    public_key = ceremony.device_public_key;
    token_hash = p.hash_token (draws.secret 0);
    wrapped_account_key = none;
    key_version = 0;
    created_at = draws.now 3;
    last_seen_at = draws.now 4;
  }

  abbrev pub callback_url : String → String → String
  callback_url claim_id claim_code =
      p.config.callback_scheme
      ++ ("://sync-auth/callback?claimId="
          ++ (p.encode_uri claim_id ++ ("&claimCode=" ++ p.encode_uri claim_code)))

  -- What follows a verification.
  unfoldable pub leave_claim : PasskeyCeremony → String → Handler Response
  leave_claim ceremony account_id = do
    modify (
        create_passkey_claim (record {
          id = draws.uuid 0;
          code_hash = p.hash_token (draws.secret 1);
          account_id = account_id;
          device_id = ceremony.device_id;
          device_token = draws.secret 0;
          expires_at = draws.now 5 + 2 * 60000;
        }))
    pure (
        json (callback (callback_url (draws.uuid 0) (draws.secret 1))) 200
          (("cache-control", "no-store") ∷ []))

  unfoldable pub create_account :
      PasskeyCeremony → String × String → Option VerifiedCredential → Handler Response
  unfolding leave_claim
  create_account ceremony (account_id, user_id) none =
      pure (json (error "Passkey verification failed") 400 [])
  create_account ceremony (account_id, user_id) (some credential) = do
    call (
        create_account_with_passkey account_id (stored_passkey account_id user_id credential)
          (new_device account_id ceremony))
    leave_claim ceremony account_id

  -- `ceremony.kind === "register"`.
  unfoldable pub register : PasskeyCeremony → PasskeyResponse Json → Handler Response
  unfolding identity_of create_account
  register ceremony response = do
    identity ← or_throw (identity_of ceremony) (thrown "Passkey registration is incomplete")
    credential ← from_result (p.verify_registration p.config ceremony.challenge response)
    create_account ceremony identity credential

  unfoldable pub use_counter : PasskeyCeremony → StoredPasskey → Option ℕ → Handler Response
  unfolding leave_claim
  use_counter ceremony known none = pure (json (error "Passkey verification failed") 400 [])
  use_counter ceremony known (some counter) = do
    call (
        authenticate_with_passkey known.credential_id counter
          (new_device known.account_id ceremony))
    leave_claim ceremony known.account_id

  unfoldable pub use_passkey :
      PasskeyCeremony → PasskeyResponse Json → Option StoredPasskey → Handler Response
  unfolding use_counter
  use_passkey ceremony response none = pure (json (error "Passkey is unavailable") 400 [])
  use_passkey ceremony response (some known) = do
    counter ← from_result (p.verify_authentication p.config ceremony.challenge response known)
    use_counter ceremony known counter

  unfoldable pub sign_in_with : PasskeyCeremony → PasskeyResponse Json → Handler Response
  unfolding use_passkey
  sign_in_with ceremony response = do
    found ← gets (λ s. passkey s response.id)
    use_passkey ceremony response found

  unfoldable pub verify_kind :
      CeremonyKind → PasskeyCeremony → PasskeyResponse Json → Handler Response
  unfolding register sign_in_with
  verify_kind registration ceremony response = register ceremony response
  verify_kind authentication ceremony response = sign_in_with ceremony response

  unfoldable pub verify_consumed : PasskeyResponse Json → Option PasskeyCeremony → Handler Response
  unfolding verify_kind
  verify_consumed response none = pure (json (error "Passkey request was already used") 409 [])
  verify_consumed response (some ceremony) = verify_kind ceremony.kind ceremony response

  unfoldable pub verify_pending :
      String → PasskeyResponse Json → Option PasskeyCeremony → Handler Response
  unfolding verify_consumed
  verify_pending id response none = pure (json (error "Passkey request unavailable") 404 [])
  verify_pending id response (some pending) = do
    consumed ← call (consume_passkey_ceremony id pending.kind (draws.now 2))
    verify_consumed response consumed

  unfoldable pub verification_route : Request Json → String → Handler Response
  unfolding verify_pending
  verification_route request segment = do
    id ← parse (path_id_schema p segment)
    response ← parse_body p (credential_schema p) request
    pending ← gets (λ s. passkey_ceremony s id (draws.now 1))
    verify_pending id response pending
