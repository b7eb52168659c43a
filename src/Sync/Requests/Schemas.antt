-- ===== src/Sync/Requests/Schemas.antt =====
-- services/sync/src/requestContract.ts, and the schemas that requestHandler.ts writes at its routes.
-- `none` is a `z.ZodError`.
use locus_browser.Base.{ℕ, leb, String, false, ◌&&◌, Option, none, some, List, Dict, get, str_eq}
use locus_browser.Base.Options.{◌>>=◌, ◌>>◌, require}
use locus_browser.Base.Patterns.{utf16_length}
use locus_browser.Sync.Models.{AccountKeyWrap}
use locus_browser.Sync.Requests.Values.{Platform, PasskeyResponse}
use locus_browser.Sync.Requests.Support.{RecordBody}
use locus_browser.Sync.Requests.Checks.{
  clock_text, collection_of, bounded, trimmed, uuid, literal, at_least, list_of, with_default,
  any_object, optional,
}

pub record PushBody : Type 0 where
  pub key_version : ℕ
  pub records : List RecordBody

pub record DeviceIdentity : Type 0 where
  pub device_id : String
  pub device_name : String
  pub device_public_key : String

pub record KeyBody : Type 0 where
  pub expected_version : ℕ
  pub version : ℕ
  pub wraps : List AccountKeyWrap

pub record RotationBody : Type 0 where
  pub expected_version : ℕ
  pub version : ℕ
  pub wraps : List AccountKeyWrap
  pub records : List RecordBody

module _ {Json : Type 0} (p : Platform Json) where
  unfoldable pub record_schema : Json → Option RecordBody
  unfolding bounded literal with_default clock_text collection_of
  record_schema j = do
    field ← p.object j
    version ← with_default p 1 (literal p 1) (field "version")
    account_id ← bounded p 1 128 (field "accountId")
    device_id ← bounded p 1 128 (field "deviceId")
    name ← p.string (field "collection")
    collection ← collection_of name
    record_id ← bounded p 1 512 (field "recordId")
    clock ← p.string (field "clock")
    clock_text clock
    nonce ← bounded p 16 128 (field "nonce")
    ciphertext ← bounded p 1 2800000 (field "ciphertext")
    tombstone ← with_default p false p.boolean (field "tombstone")
    some (record {
      version = version;
      account_id = account_id;
      device_id = device_id;
      collection = collection;
      record_id = record_id;
      clock = clock;
      nonce = nonce;
      ciphertext = ciphertext;
      tombstone = tombstone;
    })

  unfoldable pub push_schema : Json → Option PushBody
  unfolding at_least list_of record_schema
  push_schema j = do
    field ← p.object j
    key_version ← at_least p 1 (field "keyVersion")
    records ← list_of p record_schema 0 500 (field "records")
    some (record { key_version = key_version; records = records })

  unfoldable pub device_identity_schema : Json → Option DeviceIdentity
  unfolding bounded trimmed
  device_identity_schema j = do
    field ← p.object j
    device_id ← bounded p 8 128 (field "deviceId")
    device_name ← trimmed p 1 80 (field "deviceName")
    device_public_key ← bounded p 32 512 (field "devicePublicKey")
    some (record {
      device_id = device_id;
      device_name = device_name;
      device_public_key = device_public_key;
    })

  -- `DeviceIdentitySchema.extend({ displayName })`.
  unfoldable pub registration_schema : Json → Option (DeviceIdentity × String)
  unfolding device_identity_schema trimmed
  registration_schema j = do
    identity ← device_identity_schema j
    field ← p.object j
    display_name ← trimmed p 1 80 (field "displayName")
    some (identity, display_name)

  unfoldable pub account_key_wrap_schema : Json → Option AccountKeyWrap
  unfolding bounded
  account_key_wrap_schema j = do
    field ← p.object j
    device_id ← bounded p 8 128 (field "deviceId")
    wrapped_account_key ← bounded p 32 1024 (field "wrappedAccountKey")
    some (record { device_id = device_id; wrapped_account_key = wrapped_account_key })

  unfoldable pub enrollment_claim_schema : Json → Option (String × String)
  unfolding uuid bounded
  enrollment_claim_schema j = do
    field ← p.object j
    enrollment_id ← uuid p (field "enrollmentId")
    approval_code ← bounded p 20 128 (field "approvalCode")
    some (enrollment_id, approval_code)

  unfoldable pub passkey_response_schema : Json → Option (PasskeyResponse Json)
  unfolding bounded any_object
  passkey_response_schema j = do
    field ← p.object j
    id ← bounded p 1 2048 (field "id")
    raw_id ← bounded p 1 2048 (field "rawId")
    type ← p.string (field "type")
    require (str_eq type "public-key")
    response ← any_object p (field "response")
    results ← optional p (any_object p) (field "clientExtensionResults")
    attachment ← optional p p.string (field "authenticatorAttachment")
    some (record {
      id = id;
      raw_id = raw_id;
      response = response;
      client_extension_results = results;
      authenticator_attachment = attachment;
    })

  -- `z.object({ credential: PasskeyResponseSchema })`.
  unfoldable pub credential_schema : Json → Option (PasskeyResponse Json)
  unfolding passkey_response_schema
  credential_schema j = do field ← p.object j; passkey_response_schema (field "credential")

  unfoldable pub passkey_claim_schema : Json → Option (String × String)
  unfolding uuid bounded
  passkey_claim_schema j = do
    field ← p.object j
    claim_id ← uuid p (field "claimId")
    claim_code ← bounded p 32 128 (field "claimCode")
    some (claim_id, claim_code)

  unfoldable pub enrollment_schema : Json → Option DeviceIdentity
  unfolding bounded trimmed
  enrollment_schema j = do
    field ← p.object j
    device_id ← bounded p 8 128 (field "deviceId")
    device_name ← trimmed p 1 80 (field "deviceName")
    public_key ← bounded p 32 512 (field "publicKey")
    some (record {
      device_id = device_id;
      device_name = device_name;
      device_public_key = public_key;
    })

  unfoldable pub approval_code_schema : Json → Option String
  unfolding bounded
  approval_code_schema j = do field ← p.object j; bounded p 20 128 (field "approvalCode")

  unfoldable pub approval_schema : Json → Option (String × String)
  unfolding bounded
  approval_schema j = do
    field ← p.object j
    approval_code ← bounded p 20 128 (field "approvalCode")
    wrapped_account_key ← bounded p 32 1024 (field "wrappedAccountKey")
    some (approval_code, wrapped_account_key)

  unfoldable pub first_key_schema : Json → Option KeyBody
  unfolding literal list_of account_key_wrap_schema
  first_key_schema j = do
    field ← p.object j
    expected_version ← literal p 0 (field "expectedVersion")
    version ← literal p 1 (field "version")
    wraps ← list_of p account_key_wrap_schema 1 100 (field "wraps")
    some (record { expected_version = expected_version; version = version; wraps = wraps })

  unfoldable pub wrapped_key_schema : Json → Option (ℕ × String)
  unfolding at_least bounded
  wrapped_key_schema j = do
    field ← p.object j
    version ← at_least p 1 (field "version")
    wrapped_account_key ← bounded p 32 1024 (field "wrappedAccountKey")
    some (version, wrapped_account_key)

  unfoldable pub rotation_schema : Json → Option RotationBody
  unfolding at_least list_of account_key_wrap_schema record_schema
  rotation_schema j = do
    field ← p.object j
    expected_version ← at_least p 1 (field "expectedVersion")
    version ← at_least p 2 (field "version")
    wraps ← list_of p account_key_wrap_schema 1 100 (field "wraps")
    records ← list_of p record_schema 1 500 (field "records")
    some (record {
      expected_version = expected_version;
      version = version;
      wraps = wraps;
      records = records;
    })

  abbrev pub coerced : ℕ → Option String → Option ℕ
  coerced value none = some value
  coerced value (some s) = p.coerce_natural s

  -- The query of a pull: a cursor, and a limit from 1 to 500.
  unfoldable pub pull_query : Dict String → Option (ℕ × ℕ)
  pull_query query = do
    cursor ← coerced 0 (get query "cursor")
    limit ← coerced 200 (get query "limit")
    require (leb 1 limit && leb limit 500)
    some (cursor, limit)

  -- `z.object({ id: z.string().uuid() })`, of a segment of the path.
  unfoldable pub path_id_schema : String → Option String
  path_id_schema segment = do require (p.is_uuid segment); some segment

-- `z.string().min(1).max(128)`, of a text.
unfoldable pub device_id_schema : String → Option String
device_id_schema id = do require (leb 1 (utf16_length id) && leb (utf16_length id) 128); some id
