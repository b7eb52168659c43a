-- ===== src/Sync/Requests/Rules.antt =====
-- What a property of the repository has to satisfy so that the handler of
-- services/sync/src/requestHandler.ts keeps it: one rule for each repository method that a route calls.
use locus_browser.Base.{ℕ, String, Option, none, some, List, Result, NoColon}
use locus_browser.Base.Keeps.{Keeps}
use locus_browser.Sync.Models.{
  AuthenticatedDevice, OpaqueSyncRecord, Enrollment, RegisteredDevice, PasskeyCeremony,
  CeremonyKind, StoredPasskey, PasskeyClaim, AccountKeyWrap,
}
use locus_browser.Sync.Memory.State.{Repository}
use locus_browser.Sync.Memory.Invariant.{IsPlainAccount}
use locus_browser.Sync.Memory.Records.{push, delete_cloud_data}
use locus_browser.Sync.Memory.Devices.{
  create_enrollment, approve_enrollment, take_enrollment, revoke_device,
}
use locus_browser.Sync.Memory.Passkeys.{
  create_passkey_ceremony, consume_passkey_ceremony, create_account_with_passkey,
  authenticate_with_passkey, create_passkey_claim, take_passkey_claim,
}
use locus_browser.Sync.Memory.Keys.{
  initialize_account_key, set_device_wrapped_key, rotate_account_key,
}
use locus_browser.Sync.Memory.Account.{cleanup_expired, delete_account}

-- What holds of a value, if there is one.
abbrev pub IfSome : {A : Type 0} → (A → Type 0) → Option A → Type 0
IfSome P none = Unit
IfSome P (some a) = P a

-- The state after a call, returned or thrown.
abbrev pub Stable :
    {A E : Type 0} → (Repository → Type 0) → (Repository → Result E A × Repository) → Type 0
Stable I m = (s : Repository) → I s → I (m s).1

-- `Owner` is what is known of the device that sends the request.
pub record Rules (I : Repository → Type 0) (Owner : AuthenticatedDevice → Type 0) : Type 0 where
  pub cleaned : (now : ℕ) (s : Repository) → I s → I (cleanup_expired now s)
  pub pushed :
      (d : AuthenticatedDevice) (version : ℕ) (records : List OpaqueSyncRecord) (now : ℕ)
      → Owner d
      → Stable I (push d version records now)
  pub cloud_data_deleted :
      (d : AuthenticatedDevice)
      → Owner d
      → (s : Repository) → I s
      → I (delete_cloud_data d.account_id s)
  pub key_initialized :
      (d : AuthenticatedDevice) (expected version : ℕ) (wraps : List AccountKeyWrap)
      → Owner d
      → Stable I (initialize_account_key d.account_id expected version wraps)
  pub key_wrapped :
      (d : AuthenticatedDevice) (version : ℕ) (wrapped : String)
      → Owner d
      → Stable I (set_device_wrapped_key d.account_id d.device_id version wrapped)
  pub key_rotated :
      (d : AuthenticatedDevice) (expected version : ℕ) (wraps : List AccountKeyWrap)
      (records : List OpaqueSyncRecord) (now : ℕ)
      → Owner d
      → Stable I (rotate_account_key d expected version wraps records now)
  pub device_revoked :
      (d : AuthenticatedDevice) (id : String)
      → Owner d
      → (s : Repository) → I s
      → I (revoke_device d.account_id id s)
  pub account_deleted :
      (d : AuthenticatedDevice)
      → Owner d
      → (s : Repository) → I s
      → I (delete_account d.account_id s)
  pub enrollment_created : (e : Enrollment) (s : Repository) → I s → I (create_enrollment e s)
  pub enrollment_approved :
      (d : AuthenticatedDevice) (id code wrapped token hash : String) (now : ℕ)
      → Owner d
      → Stable I (approve_enrollment d.account_id id code wrapped token hash now)
  pub enrollment_taken : (id code : String) (now : ℕ) → Stable I (take_enrollment id code now)
  pub ceremony_created :
      (c : PasskeyCeremony)
      → IsPlainAccount c.account_id
      → (s : Repository) → I s
      → I (create_passkey_ceremony c s)
  pub ceremony_consumed :
      (id : String) (kind : CeremonyKind) (now : ℕ)
      → Keeps I (IfSome (λ c. IsPlainAccount c.account_id)) (consume_passkey_ceremony id kind now)
  pub account_created :
      (account_id : String) (k : StoredPasskey) (d : RegisteredDevice)
      → NoColon account_id
      → Stable I (create_account_with_passkey account_id k d)
  pub passkey_used :
      (id : String) (counter : ℕ) (d : RegisteredDevice)
      → Stable I (authenticate_with_passkey id counter d)
  pub claim_created : (c : PasskeyClaim) (s : Repository) → I s → I (create_passkey_claim c s)
  pub claim_taken : (id code : String) (now : ℕ) → Stable I (take_passkey_claim id code now)
