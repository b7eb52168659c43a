-- ===== src/Sync/Manager.antt =====
-- apps/desktop/src/main/SyncAccountManager.ts: the state of the manager, and what it calls. The methods run one
-- at a time, and each answer of the service may depend on all the requests that were sent before.
use locus_browser.Base.{
  ℕ, String, Bool, ◌&&◌, ◌||◌, ◌==◌, not, leb, Option, none, some, List, [], ◌∷◌, ◌++◌, Result, ok,
  err, Exec, pure, modify, gets, ◌>>=◌, ◌>>◌, from_result, throw_if, or_throw, has, str_eq, true,
  false,
}
use locus_browser.Base.Patterns.{utf16_length}
use locus_browser.Sync.Models.{CeremonyKind, Collection}
pub mod Urls
pub mod Verifier
pub mod Ceremony
pub mod Enrollment
pub mod Entry
pub mod Sound
mod Steps
pub mod Saved
pub mod Enrolled
mod Tests

pub record DeviceKeyPair : Type 0 where
  pub public_key : String
  pub private_key : String

pub data AccountStatus : Type 0 where
  connected syncing failing : AccountStatus

-- Of the profile that the manager is for.
pub record StoredSyncAccount : Type 0 where
  pub service_url : String
  pub account_id : String
  pub device_id : String
  pub device_public_key : String
  pub encrypted_device_private_key : String
  pub encrypted_device_token : String
  pub encrypted_account_key : String
  pub key_version : ℕ
  pub status : AccountStatus
  pub last_error : Option String

pub record EncryptedRecord : Type 0 where
  pub version : ℕ
  pub account_id : String
  pub device_id : String
  pub collection : Collection
  pub record_id : String
  pub clock : String
  pub nonce : String
  pub ciphertext : String
  pub tombstone : Bool

pub record PullPage : Type 0 where
  pub records : List EncryptedRecord
  pub cursor : ℕ
  pub has_more : Bool

pub record ServiceDevice : Type 0 where
  pub device_id : String
  pub name : String
  pub public_key : String
  pub key_version : ℕ
  pub created_at : ℕ
  pub last_seen_at : ℕ
  pub current : Bool

pub record PendingEnrollment : Type 0 where
  pub service_url : String
  pub enrollment_id : String
  pub approval_code : String
  pub device_id : String
  pub device : DeviceKeyPair
  pub expires_at : ℕ

pub data TransientStatus : Type 0 where
  connecting waiting_for_approval failed : TransientStatus

-- The requests, with the token and what else they carry.
pub data ApiCall : Type 0 where
  start_ceremony : CeremonyKind → Option String → String → String → ApiCall
  claim_passkey : String → String → ApiCall
  put_first_key : ℕ → String → String → String → ApiCall
  push_records : ℕ → List EncryptedRecord → String → ApiCall
  get_key : String → ApiCall
  put_own_key : ℕ → String → String → ApiCall
  get_page : ℕ → String → ApiCall
  get_devices : String → ApiCall
  claim_enrollment : String → String → ApiCall
  delete_account delete_device : String → ApiCall

pub record StartedCeremony : Type 0 where
  pub ceremony_id : String
  pub auth_url : String

pub record ClaimedPasskey : Type 0 where
  pub account_id : String
  pub device_id : String
  pub device_token : String

pub record AccountKeyState : Type 0 where
  pub version : ℕ
  pub wrapped_account_key : Option String

pub record EnrollmentDelivery : Type 0 where
  pub account_id : String
  pub device_id : String
  pub device_token : String
  pub wrapped_account_key : String
  pub key_version : ℕ

-- What the service answers to the last request of a list, as far as it is JSON of the expected fields and
-- types; else the message of the error that is thrown.
pub record SyncService : Type 0 where
  pub started : List ApiCall → Result String StartedCeremony
  pub claimed : List ApiCall → Result String ClaimedPasskey
  pub key_state : List ApiCall → Result String AccountKeyState
  pub accepted : List ApiCall → Result String ℕ
  pub page : List ApiCall → Result String PullPage
  pub devices : List ApiCall → Result String (List ServiceDevice)
  -- nothing, for a status of 404
  pub delivery : List ApiCall → Result String (Option EnrollmentDelivery)
  pub done : List ApiCall → Result String (Unit {0})

-- `new URL`.
pub record ParsedUrl : Type 0 where
  pub protocol : String
  pub username : String
  pub password : String
  pub hostname : String
  pub pathname : String
  pub search : String
  pub hash : String
  pub origin : String

-- What a decrypted record holds, if it is an object with these two fields.
pub record VerifierValue : Type 0 where
  pub purpose : String
  pub version : ℕ

-- The platform, the vault of the operating system and the cryptographic library. Encrypting may throw.
pub record Device : Type 0 where
  pub name : String
  pub parse_url : String → Option ParsedUrl
  -- `z.string().uuid()`
  pub is_uuid : String → Bool
  pub cipher_available : Bool
  pub cipher_encrypt : String → Result String String
  pub cipher_decrypt : String → Result String String
  pub wrap_account_key : String → String → Result String String
  pub unwrap_account_key : String → DeviceKeyPair → Result String String
  -- the key, the account, the device, the record and the clock
  pub encrypt_verifier : String → String → String → String → String → Result String EncryptedRecord
  pub decrypt_record : String → EncryptedRecord → Option VerifierValue
  pub create_recovery_key : String → String
  -- the first clock of a device
  pub first_clock : String → String

pub record SyncManager : Type 0 where
  pub account : Option StoredSyncAccount
  pub transient_status : Option TransientStatus
  pub transient_service_url : Option String
  pub last_error : Option String
  pub pending_enrollment : Option PendingEnrollment
  pub devices : List ServiceDevice
  -- the recovery keys that were shown to the user
  pub shown_keys : List String
  -- the requests that were sent, the newest first
  pub sent : List ApiCall

abbrev pub Managing : Type 0 → Type 0
Managing A = Exec SyncManager String A

-- `#request`: the call is sent, whatever becomes of it.
unfoldable pub ask : {A : Type 0} → (List ApiCall → Result String A) → ApiCall → Managing A
ask answer call s = (answer (call ∷ s.sent), record s { sent = call ∷ s.sent })

-- `.catch(() => undefined)`.
unfoldable pub ignore_errors : {A : Type 0} → Managing A → Managing (Unit {0})
ignore_errors m s = (ok tt, (m s).1)

abbrev pub handle_result :
    {A : Type 0}
    → (String → Managing A)
    → Result String A × SyncManager
    → Result String A × SyncManager
handle_result handler (ok a, s) = (ok a, s)
handle_result handler (err e, s) = handler e s

-- `try { … } catch (error) { … }`.
unfoldable pub catching : {A : Type 0} → Managing A → (String → Managing A) → Managing A
catching m handler s = handle_result handler (m s)
