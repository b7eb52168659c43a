-- ===== src/Sync/Manager/Enrollment.antt =====
-- apps/desktop/src/main/SyncAccountManager.ts: the enrollment of this device by another one, the refresh of the
-- account key, and the entry points that start a connection or end it. No other method runs during one of
-- them, so that the enrollment that is claimed is still the pending one.
use locus_browser.Base.{
  ℕ, ◌==◌, String, Bool, true, false, not, ◌&&◌, leb, ltb, Option, none, some, pure, raise, modify,
  gets, ◌>>=◌, ◌>>◌, from_result, throw_if, or_throw, str_eq, if◌then◌else◌,
}
use locus_browser.Base.Patterns.{utf16_length}
use locus_browser.Sync.Manager.{
  Device, SyncService, StoredSyncAccount, connected, EnrollmentDelivery, AccountKeyState,
  PendingEnrollment, Managing, TransientStatus, connecting, claim_enrollment, get_key, ask,
}
use locus_browser.Sync.Manager.Verifier.{verify_recovered_account_key}
use locus_browser.Sync.Manager.Ceremony.{save_account, refresh_devices, clear_transient}

-- `EnrollmentClaimSchema`.
unfoldable pub enrollment_claim : EnrollmentDelivery → Bool
enrollment_claim e =
    not (str_eq e.account_id "")
    && not (str_eq e.device_id "")
    && leb 32 (utf16_length e.device_token)
    && leb 32 (utf16_length e.wrapped_account_key)
    && leb 1 e.key_version

abbrev pub unless_empty : Option String → Option String
unless_empty none = none
unless_empty (some s) = if str_eq s "" then none else some s

abbrev pub is_connecting : Option TransientStatus → Bool
is_connecting (some connecting) = true
is_connecting _ = false

abbrev pub is_present {ℓ} : {A : Type ℓ} → Option A → Bool
is_present none = false
is_present (some a) = true

module _ (d : Device) (service : SyncService) where
  -- `#claimDeviceEnrollment`, after the service has delivered the key.
  unfoldable pub take_delivery : PendingEnrollment → EnrollmentDelivery → Managing (Unit {0})
  unfolding enrollment_claim
  take_delivery pending delivery = do
    throw_if (not (enrollment_claim delivery)) "Invalid response"
    throw_if (not (str_eq delivery.device_id pending.device_id))
        "Enrollment was issued to another device"
    account_key ← from_result (d.unwrap_account_key delivery.wrapped_account_key pending.device)
    verify_recovered_account_key d service delivery.device_token account_key
    save_account d service pending.service_url delivery.account_id pending.device_id pending.device
        delivery.device_token account_key delivery.key_version
    modify (λ s. clear_transient (record s { pending_enrollment = none }))
    refresh_devices d service

  -- Where nothing is delivered yet, the timer checks again later.
  unfoldable pub take_answer : PendingEnrollment → Option EnrollmentDelivery → Managing (Unit {0})
  unfolding take_delivery
  take_answer pending none = pure tt
  take_answer pending (some delivery) = take_delivery pending delivery

  unfoldable pub expire : Managing (Unit {0})
  expire = do
    modify (λ s. record s { pending_enrollment = none })
    raise "Device approval expired. Start again to get a new pairing code."

  unfoldable pub ask_delivery : PendingEnrollment → Managing (Unit {0})
  unfolding take_answer
  ask_delivery pending = do
    answer ← ask service.delivery (claim_enrollment pending.enrollment_id pending.approval_code)
    take_answer pending answer

  unfoldable pub claim_pending : ℕ → Option PendingEnrollment → Managing (Unit {0})
  unfolding expire ask_delivery
  claim_pending now none = pure tt
  claim_pending now (some pending) =
      if leb pending.expires_at now then expire else ask_delivery pending

  -- `#claimDeviceEnrollment`.
  unfoldable pub claim_device_enrollment : ℕ → Managing (Unit {0})
  unfolding claim_pending
  claim_device_enrollment now = do
    pending ← gets (λ s. s.pending_enrollment)
    claim_pending now pending

  -- The key that the account has.
  unfoldable pub keep_key : StoredSyncAccount → Managing (Unit {0})
  keep_key account = do
    account_key ← from_result (d.cipher_decrypt account.encrypted_account_key)
    pure tt

  -- A newer key, which `!wrappedAccountKey` refuses if it is missing or empty.
  unfoldable pub adopt_key : StoredSyncAccount → String → AccountKeyState → Managing (Unit {0})
  adopt_key account token state = do
    wrapped ←
        or_throw (unless_empty state.wrapped_account_key)
          "This device has not received the newest sync key"
    private_key ← from_result (d.cipher_decrypt account.encrypted_device_private_key)
    account_key ← from_result (
        d.unwrap_account_key wrapped
          (record { public_key = account.device_public_key; private_key = private_key }))
    verify_recovered_account_key d service token account_key
    encrypted ← from_result (d.cipher_encrypt account_key)
    modify (λ s. record s {
      account = some (record account {
        encrypted_account_key = encrypted;
        key_version = state.version;
        status = connected;
        last_error = none;
      });
    })

  -- `#refreshAccountKey`, after the service has answered.
  unfoldable pub take_key_state : StoredSyncAccount → String → AccountKeyState → Managing (Unit {0})
  unfolding keep_key adopt_key
  take_key_state account token state =
      if ltb state.version account.key_version
      then raise "Sync service returned an older account key version"
      else if state.version == account.key_version
      then keep_key account
      else adopt_key account token state

  unfoldable pub refresh_account_key : StoredSyncAccount → String → Managing (Unit {0})
  unfolding take_key_state
  refresh_account_key account token = do
    state ← ask service.key_state (get_key token)
    take_key_state account token state
