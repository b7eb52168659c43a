-- ===== src/Sync/Memory/State.antt =====
-- The private maps of `MemorySyncRepository` (services/sync/src/memoryRepository.ts), the errors
-- that its methods throw, and the keys of its maps.
use locus_browser.Base.{ℕ, String, [], Dict, colon_join}
use locus_browser.Sync.Models.{
  AuthenticatedDevice, CursorRecord, OpaqueSyncRecord, Enrollment, PasskeyCeremony, StoredPasskey,
  PasskeyClaim, RegisteredDevice, collection_name,
}

pub record Repository : Type 0 where
  pub tokens : Dict AuthenticatedDevice
  pub devices : Dict RegisteredDevice
  pub key_versions : Dict ℕ
  pub records : Dict CursorRecord
  pub record_updated_at : Dict ℕ
  pub enrollments : Dict Enrollment
  pub ceremonies : Dict PasskeyCeremony
  pub passkeys : Dict StoredPasskey
  pub claims : Dict PasskeyClaim
  pub cursor : ℕ

abbrev pub empty : Repository
empty = record {
  tokens = [];
  devices = [];
  key_versions = [];
  records = [];
  record_updated_at = [];
  enrollments = [];
  ceremonies = [];
  passkeys = [];
  claims = [];
  cursor = 0;
}

pub data Error : Type 0 where
  key_version_changed ownership_mismatch enrollment_unavailable : Error
  account_key_not_initialized passkey_account_mismatch passkey_already_registered : Error
  passkey_unavailable device_unavailable incomplete_wraps incomplete_rotation : Error
  -- a property of `undefined` is written
  type_error : Error

abbrev pub device_key : String → String → String
device_key account_id device_id = colon_join account_id device_id

-- The key of a record within its account.
abbrev pub record_key : OpaqueSyncRecord → String
record_key r = colon_join (collection_name r.collection) r.record_id

-- `${accountId}:${record.collection}:${record.recordId}`.
abbrev pub stored_key : String → OpaqueSyncRecord → String
stored_key account_id r = colon_join account_id (record_key r)
