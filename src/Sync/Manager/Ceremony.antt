-- ===== src/Sync/Manager/Ceremony.antt =====
-- apps/desktop/src/main/SyncAccountManager.ts: the registration of an account and the sign-in with a recovery
-- key, `#begin` and `#completeCeremony`.
use text.Mathlib.Text.{starts_with}
use locus_browser.Base.{
  ℕ, ◌==◌, String, Bool, not, ◌&&◌, ◌||◌, leb, Option, none, some, List, [], ◌∷◌, length, every,
  Result, pure, raise, modify, gets, ◌>>=◌, ◌>>◌, from_result, throw_if, or_throw, str_eq,
}
use locus_browser.Base.Patterns.{utf16_length}
use locus_browser.Sync.Models.{CeremonyKind, registration, authentication}
use locus_browser.Sync.Manager.{
  SyncManager, Device, DeviceKeyPair, SyncService, StoredSyncAccount, connected, failing,
  ClaimedPasskey, Managing, ApiCall, ServiceDevice, failed, start_ceremony, claim_passkey,
  put_first_key, push_records, get_key, put_own_key, get_devices, delete_account, delete_device,
  ask, ignore_errors, catching,
}
use locus_browser.Sync.Manager.Verifier.{verifier_record_id, verify_recovered_account_key}

pub record PendingCeremony : Type 0 where
  pub service_url : String
  pub device_id : String
  pub device : DeviceKeyPair
  pub account_key : String
  pub recovery_key : Option String

-- What is generated, and what the user does in the window of the passkey: the claim that its callback carries,
-- or an error.
pub record CeremonyDraws : Type 0 where
  pub device : DeviceKeyPair
  pub account_key : String
  pub device_id : String
  pub callback : Result String (String × String)

-- `ClaimSchema`.
unfoldable pub claim_schema : ClaimedPasskey → Bool
claim_schema claim =
    not (str_eq claim.account_id "")
    && not (str_eq claim.device_id "")
    && leb 32 (utf16_length claim.device_token)

abbrev pub cleanup_call : CeremonyKind → String → ApiCall
cleanup_call registration token = delete_account token
cleanup_call authentication token = delete_device token

unfoldable pub new_ceremony :
    Device → CeremonyKind → String → Option String → CeremonyDraws → PendingCeremony
new_ceremony d kind service_url recovered draws =
    let account_key : String = elim recovered [ some key ↦ key | none ↦ draws.account_key ] in
    record {
      service_url = service_url;
      device_id = draws.device_id;
      device = draws.device;
      account_key = account_key;
      recovery_key = elim kind [
        | registration ↦ some (d.create_recovery_key account_key)
        | authentication ↦ none
      ];
    }

-- `DevicesSchema`.
unfoldable pub devices_schema : List ServiceDevice → Bool
devices_schema devices =
    every
      (λ e. not (str_eq e.device_id "") && not (str_eq e.name "") && not (str_eq e.public_key ""))
      devices
    && leb (length devices) 100

abbrev pub clear_transient : SyncManager → SyncManager
clear_transient s = record s {
  transient_status = none;
  transient_service_url = none;
  last_error = none;
}

module _ (d : Device) (service : SyncService) where
  -- `#secrets`.
  unfoldable pub secrets : StoredSyncAccount → Managing (String × String)
  secrets account = do
    throw_if (not d.cipher_available) "OS-backed sync-key encryption is unavailable"
    token ← from_result (d.cipher_decrypt account.encrypted_device_token)
    account_key ← from_result (d.cipher_decrypt account.encrypted_account_key)
    pure (token, account_key)

  -- `#fetchDevices`.
  unfoldable pub fetch_devices : String → Managing (List ServiceDevice)
  fetch_devices token = do
    devices ← ask service.devices (get_devices token)
    throw_if (not (devices_schema devices)) "Invalid response"
    pure devices

  unfoldable pub refresh_devices_of : Option StoredSyncAccount → Managing (Unit {0})
  unfolding secrets fetch_devices
  refresh_devices_of none = modify (λ s. record s { devices = [] })
  refresh_devices_of (some account) = do
    (token, account_key) ← secrets account
    devices ← fetch_devices token
    modify (λ s. record s { devices = devices })

  -- `#refreshDevices`.
  unfoldable pub refresh_devices : Managing (Unit {0})
  unfolding refresh_devices_of
  refresh_devices = do account ← gets (λ s. s.account); refresh_devices_of account

  -- The body of the `try`: the key version.
  unfoldable pub establish : CeremonyKind → PendingCeremony → ClaimedPasskey → Managing ℕ
  establish registration pending claim = do
    wrapped ← from_result (d.wrap_account_key pending.account_key pending.device.public_key)
    state ← ask service.key_state (put_first_key 1 pending.device_id wrapped claim.device_token)
    verifier ← from_result (
        d.encrypt_verifier pending.account_key claim.account_id pending.device_id verifier_record_id
          (d.first_clock pending.device_id))
    accepted ← ask service.accepted (push_records 1 (verifier ∷ []) claim.device_token)
    throw_if (not (accepted == 1)) "Could not initialize encrypted sync"
    pure 1
  establish authentication pending claim = do
    state ← ask service.key_state (get_key claim.device_token)
    throw_if (state.version == 0) "Sync account key is not initialized"
    verify_recovered_account_key d service claim.device_token pending.account_key
    wrapped ← from_result (d.wrap_account_key pending.account_key pending.device.public_key)
    ask service.done (put_own_key state.version wrapped claim.device_token)
    pure state.version

  -- The `catch`: the account or the device that the service has registered is deleted again.
  unfoldable pub roll_back : {A : Type 0} → CeremonyKind → ClaimedPasskey → String → Managing A
  unfolding ask ignore_errors
  roll_back kind claim error = do
    ignore_errors (ask service.done (cleanup_call kind claim.device_token))
    raise error

  unfoldable pub establish_or_roll_back :
      CeremonyKind → PendingCeremony → ClaimedPasskey → Managing ℕ
  unfolding establish roll_back catching
  establish_or_roll_back kind pending claim =
      catching (establish kind pending claim) (roll_back kind claim)

  -- `saveSyncAccount`.
  unfoldable pub save_account :
      String → String → String → DeviceKeyPair → String → String → ℕ → Managing (Unit {0})
  save_account service_url account_id device_id device token account_key key_version = do
    private_key ← from_result (d.cipher_encrypt device.private_key)
    device_token ← from_result (d.cipher_encrypt token)
    encrypted_key ← from_result (d.cipher_encrypt account_key)
    modify (λ s. record s {
      account = some (record {
        service_url = service_url;
        account_id = account_id;
        device_id = device_id;
        device_public_key = device.public_key;
        encrypted_device_private_key = private_key;
        encrypted_device_token = device_token;
        encrypted_account_key = encrypted_key;
        key_version = key_version;
        status = connected;
        last_error = none;
      });
    })

  abbrev pub show_recovery_key : Option String → SyncManager → SyncManager
  show_recovery_key none s = s
  show_recovery_key (some key) s = record s { shown_keys = key ∷ s.shown_keys }

  -- The claim that the service hands out after the ceremony in the window.
  unfoldable pub claim_ceremony :
      CeremonyKind
      → Option String
      → PendingCeremony
      → Result String (String × String)
      → Managing ClaimedPasskey
  unfolding claim_schema
  claim_ceremony kind display_name pending callback = do
    started ←
        ask service.started
          (start_ceremony kind display_name pending.device_id pending.device.public_key)
    throw_if (not (d.is_uuid started.ceremony_id)) "Invalid response"
    url ← or_throw (d.parse_url started.auth_url) "Invalid URL"
    throw_if
        (not (str_eq url.origin pending.service_url)
          || not (starts_with url.pathname "/v1/auth/passkeys/ceremonies/"))
        "Sync service returned an untrusted passkey URL"
    (claim_id, claim_code) ← from_result callback
    claim ← ask service.claimed (claim_passkey claim_id claim_code)
    throw_if (not (claim_schema claim)) "Invalid response"
    throw_if (not (str_eq claim.device_id pending.device_id))
        "Passkey claim was issued to another device"
    pure claim

  -- `#completeCeremony`. The sync that it starts at its end is another method.
  unfoldable pub complete_ceremony :
      CeremonyKind
      → Option String
      → PendingCeremony
      → Result String (String × String)
      → Managing (Unit {0})
  unfolding claim_ceremony establish_or_roll_back save_account refresh_devices
  complete_ceremony kind display_name pending callback = do
    claim ← claim_ceremony kind display_name pending callback
    key_version ← establish_or_roll_back kind pending claim
    save_account pending.service_url claim.account_id pending.device_id pending.device
        claim.device_token pending.account_key key_version
    modify (show_recovery_key pending.recovery_key)
    modify clear_transient
    refresh_devices

-- `#handleError`. Destroying the window makes its ceremony fail, which is an error like this one.
unfoldable pub handle_error : String → SyncManager → SyncManager
handle_error message s = elim (s.account) [
  | some account ↦ record s {
    account = some (record account { status = failing; last_error = some message });
    last_error = some message;
  }
  | none ↦ record s { transient_status = some failed; last_error = some message }
]
