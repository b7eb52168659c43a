-- ===== src/Sync/Memory/Reach.antt =====
-- The life of a `MemorySyncRepository` (services/sync/src/memoryRepository.ts): any sequence of calls of its
-- methods, whether they return or throw.
use locus_browser.Base.{ℕ, String, List, NoColon}
use locus_browser.Sync.Models.{
  AuthenticatedDevice, OpaqueSyncRecord, Enrollment, RegisteredDevice, PasskeyCeremony,
  CeremonyKind, StoredPasskey, PasskeyClaim, AccountKeyWrap,
}
use locus_browser.Sync.Memory.State.{Repository, empty}
use locus_browser.Sync.Memory.Invariant.{Inv, IsPlainAccount}
use locus_browser.Sync.Memory.Records.{push, delete_cloud_data}
use locus_browser.Sync.Memory.Records.Isolation.{push-Inv}
use locus_browser.Sync.Memory.Devices.{
  enroll_token, authenticate, create_enrollment, approve_enrollment, take_enrollment, revoke_device,
}
use locus_browser.Sync.Memory.Devices.Keeps.{
  enroll_token-Inv, authenticate-Inv, create_enrollment-Inv, approve_enrollment-Inv,
  take_enrollment-Inv, revoke_device-Inv,
}
use locus_browser.Sync.Memory.Passkeys.{
  create_passkey_ceremony, consume_passkey_ceremony, create_account_with_passkey,
  authenticate_with_passkey, create_passkey_claim, take_passkey_claim,
}
use locus_browser.Sync.Memory.Passkeys.Keeps.{
  create_passkey_ceremony-Inv, consume_passkey_ceremony-Inv, create_account_with_passkey-Inv,
  authenticate_with_passkey-Inv, create_passkey_claim-Inv, take_passkey_claim-Inv,
}
use locus_browser.Sync.Memory.Keys.{
  initialize_account_key, set_device_wrapped_key, rotate_account_key,
}
use locus_browser.Sync.Memory.Keys.Setup.{initialize_account_key-Inv, set_device_wrapped_key-Inv}
use locus_browser.Sync.Memory.Keys.Rotated.{rotate_account_key-Inv}
use locus_browser.Sync.Memory.Account.{cleanup_expired, delete_account}
use locus_browser.Sync.Memory.Account.Expiry.{cleanup_expired-Inv}
use locus_browser.Sync.Memory.Account.Deleting.{delete_account-Inv, delete_cloud_data-Inv}

-- One call of a method that changes state. The account identifiers that the service makes are
-- UUIDs, which have no colon.
pub data Step (s : Repository) : Repository → Type 0 where
  enrolled :
      (hash : String) (device : AuthenticatedDevice) (now : ℕ)
      → NoColon device.account_id
      → Step s (enroll_token hash device now s)
  authenticated : (hash : String) (now : ℕ) → Step s (authenticate hash now s).1
  pushed :
      (device : AuthenticatedDevice) (version : ℕ) (records : List OpaqueSyncRecord) (now : ℕ)
      → Step s (push device version records now s).1
  enrollment_created : (e : Enrollment) → Step s (create_enrollment e s)
  enrollment_approved :
      (account_id id code wrapped token hash : String) (now : ℕ)
      → NoColon account_id
      → Step s (approve_enrollment account_id id code wrapped token hash now s).1
  enrollment_taken : (id code : String) (now : ℕ) → Step s (take_enrollment id code now s).1
  ceremony_created :
      (c : PasskeyCeremony) → IsPlainAccount c.account_id → Step s (create_passkey_ceremony c s)
  ceremony_consumed :
      (id : String) (kind : CeremonyKind) (now : ℕ)
      → Step s (consume_passkey_ceremony id kind now s).1
  account_created :
      (account_id : String) (p : StoredPasskey) (d : RegisteredDevice)
      → NoColon account_id
      → Step s (create_account_with_passkey account_id p d s).1
  passkey_used :
      (id : String) (counter : ℕ) (d : RegisteredDevice)
      → Step s (authenticate_with_passkey id counter d s).1
  claim_created : (c : PasskeyClaim) → Step s (create_passkey_claim c s)
  claim_taken : (id code : String) (now : ℕ) → Step s (take_passkey_claim id code now s).1
  cleaned_up : (now : ℕ) → Step s (cleanup_expired now s)
  key_initialized :
      (account_id : String) (expected version : ℕ) (wraps : List AccountKeyWrap)
      → NoColon account_id
      → Step s (initialize_account_key account_id expected version wraps s).1
  key_wrapped :
      (account_id id : String) (version : ℕ) (wrapped : String)
      → Step s (set_device_wrapped_key account_id id version wrapped s).1
  key_rotated :
      (device : AuthenticatedDevice) (expected version : ℕ) (wraps : List AccountKeyWrap)
      (records : List OpaqueSyncRecord) (now : ℕ)
      → NoColon device.account_id
      → Step s (rotate_account_key device expected version wraps records now s).1
  device_revoked :
      (account_id id : String) → NoColon account_id → Step s (revoke_device account_id id s)
  cloud_data_deleted : (account_id : String) → Step s (delete_cloud_data account_id s)
  account_deleted :
      (account_id : String) → NoColon account_id → Step s (delete_account account_id s)

-- What a sequence of calls leads to from the new repository.
pub data Reach : Repository → Type 0 where
  start : Reach empty
  next : {s t : Repository} → Reach s → Step s t → Reach t

-- Every method keeps the invariant.
Step-Inv : {s t : Repository} → Step s t → Inv s → Inv t
Step-Inv {s} (enrolled hash device now plain) v = enroll_token-Inv hash device now s plain v
Step-Inv {s} (authenticated hash now) v = authenticate-Inv hash now s v
Step-Inv {s} (pushed device version records now) v = push-Inv device version records now s v
Step-Inv {s} (enrollment_created e) v = create_enrollment-Inv e s v
Step-Inv {s} (enrollment_approved account_id id code wrapped token hash now plain) v =
    approve_enrollment-Inv account_id id code wrapped token hash now s plain v
Step-Inv {s} (enrollment_taken id code now) v = take_enrollment-Inv id code now s v
Step-Inv {s} (ceremony_created c plain) v = create_passkey_ceremony-Inv c s plain v
Step-Inv {s} (ceremony_consumed id kind now) v = consume_passkey_ceremony-Inv id kind now s v
Step-Inv {s} (account_created account_id p d plain) v =
    create_account_with_passkey-Inv account_id p d s plain v
Step-Inv {s} (passkey_used id counter d) v = authenticate_with_passkey-Inv id counter d s v
Step-Inv {s} (claim_created c) v = create_passkey_claim-Inv c s v
Step-Inv {s} (claim_taken id code now) v = take_passkey_claim-Inv id code now s v
Step-Inv {s} (cleaned_up now) v = cleanup_expired-Inv now s v
Step-Inv {s} (key_initialized account_id expected version wraps plain) v =
    initialize_account_key-Inv account_id expected version wraps s plain v
Step-Inv {s} (key_wrapped account_id id version wrapped) v =
    set_device_wrapped_key-Inv account_id id version wrapped s v
Step-Inv {s} (key_rotated device expected version wraps records now plain) v =
    rotate_account_key-Inv device expected version wraps records now s plain v
Step-Inv {s} (device_revoked account_id id plain) v = revoke_device-Inv account_id id s plain v
Step-Inv {s} (cloud_data_deleted account_id) v = delete_cloud_data-Inv account_id s v
Step-Inv {s} (account_deleted account_id plain) v = delete_account-Inv account_id s plain v

empty-Inv : Inv empty
empty-Inv = record {
  bounded = tt;
  distinct = tt;
  keyed = tt;
  named = tt;
  plain = tt;
  live = tt;
  versioned = tt;
  unique = tt;
  tokens_plain = tt;
  ceremonies_plain = tt;
  passkeys_plain = tt;
  passkeys_versioned = tt;
}

-- Every state that a sequence of calls reaches satisfies the invariant: cursors are distinct and at
-- most the counter, records and devices stand under their keys, and every token belongs to a
-- registered device of an account that has a key version.
pub Reach-Inv : {s : Repository} → Reach s → Inv s
Reach-Inv start = empty-Inv
Reach-Inv (next r step) = Step-Inv step (Reach-Inv r)
