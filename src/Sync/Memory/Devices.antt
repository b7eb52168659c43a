-- ===== src/Sync/Memory/Devices.antt =====
-- The device methods of `MemorySyncRepository` (services/sync/src/memoryRepository.ts): tokens, the
-- list of devices, and enrollment. `now` is the reading of `Date.now()` in the call.
pub mod Keeps
pub mod Tokens
pub mod Enrolling
use locus_browser.Base.{
  ℕ, String, Bool, not, ◌&&◌, ◌||◌, Option, none, some, List, map, get, set, delete, delete_where,
  values, str_eq, truthy, ltb, leb, keep, if◌then◌else◌, sort_by, Exec, ◌>>=◌, ◌>>◌, pure, or_throw,
  modify, gets, ◌==◌,
}
use locus_browser.Sync.Models.{AuthenticatedDevice, Enrollment, RegisteredDevice, SyncDevice}
use locus_browser.Sync.Memory.State.{
  Repository, Error, enrollment_unavailable, account_key_not_initialized, device_key,
}

unfoldable pub enroll_token : String → AuthenticatedDevice → ℕ → Repository → Repository
enroll_token token_hash device now s = record s {
  tokens = set s.tokens token_hash device;
  devices = set s.devices (device_key device.account_id device.device_id) (record {
    account_id = device.account_id;
    device_id = device.device_id;
    name = "Development device";
    public_key = "development-bootstrap";
    token_hash = token_hash;
    wrapped_account_key = none;
    key_version = 1;
    created_at = now;
    last_seen_at = now;
  });
  key_versions = set s.key_versions device.account_id 1;
}

-- `if (device) device.lastSeenAt = Date.now()`, on the object that the map holds.
unfoldable pub touch : String → ℕ → Repository → Repository
touch key now s = elim (get s.devices key) [
  | none ↦ s
  | some device ↦ record s { devices = set s.devices key (record device { last_seen_at = now }) }
]

unfoldable pub authenticate : String → ℕ → Exec Repository Error (Option AuthenticatedDevice)
authenticate token_hash now = do
  authenticated ← gets (λ s. get s.tokens token_hash)
  modify (λ s. elim authenticated [
    | none ↦ s
    | some found ↦ touch (device_key found.account_id found.device_id) now s
  ])
  pure authenticated

unfoldable pub create_enrollment : Enrollment → Repository → Repository
create_enrollment enrollment s = record s {
  enrollments = set s.enrollments enrollment.id enrollment;
}

-- `enrollment.codeHash !== codeHash || enrollment.expiresAt < Date.now()`.
unfoldable pub is_stale : Enrollment → String → ℕ → Bool
is_stale e code_hash now = not (str_eq e.code_hash code_hash) || ltb e.expires_at now

-- The enrollment, if it is there, its code is right, it has not expired and nobody approved it.
unfoldable pub pending : Option Enrollment → String → ℕ → Option Enrollment
pending none code_hash now = none
pending (some e) code_hash now =
    if is_stale e code_hash now || truthy e.wrapped_account_key then none else some e

pub record EnrollmentDetails : Type 0 where
  pub device_id : String
  pub device_name : String
  pub public_key : String
  pub expires_at : ℕ

abbrev pub details_of : Enrollment → EnrollmentDetails
details_of e = record {
  device_id = e.device_id;
  device_name = e.device_name;
  public_key = e.public_key;
  expires_at = e.expires_at;
}

unfoldable pub enrollment_details : Repository → String → String → ℕ → Option EnrollmentDetails
enrollment_details s enrollment_id code_hash now =
    elim (pending (get s.enrollments enrollment_id) code_hash now) [
      | none ↦ none
      | some e ↦ some (details_of e)
    ]

-- `!keyVersion`: a missing version and version 0.
abbrev pub initialized : Option ℕ → Option ℕ
initialized none = none
initialized (some version) = if version == 0 then none else some version

abbrev pub approved_device : String → Enrollment → String → String → ℕ → ℕ → RegisteredDevice
approved_device account_id e wrapped_account_key token_hash key_version now = record {
  account_id = account_id;
  device_id = e.device_id;
  name = e.device_name;
  public_key = e.public_key;
  token_hash = token_hash;
  wrapped_account_key = some wrapped_account_key;
  key_version = key_version;
  created_at = now;
  last_seen_at = now;
}

-- The writes of an approval.
unfoldable pub approve :
    String → String → Enrollment → String → String → String → ℕ → ℕ → Repository → Repository
approve account_id enrollment_id e wrapped_account_key device_token token_hash key_version now s =
    record s {
      enrollments = set s.enrollments enrollment_id (record e {
        account_id = some account_id;
        wrapped_account_key = some wrapped_account_key;
        device_token = some device_token;
      });
      tokens =
          set s.tokens token_hash (record { account_id = account_id; device_id = e.device_id });
      devices =
          set s.devices (device_key account_id e.device_id)
            (approved_device account_id e wrapped_account_key token_hash key_version now);
    }

unfoldable pub approve_enrollment :
    String → String → String → String → String → String → ℕ → Exec Repository Error (Unit {0})
approve_enrollment account_id enrollment_id code_hash wrapped_account_key device_token token_hash
      now =
    do
      found ← gets (λ s. get s.enrollments enrollment_id)
      enrollment ← or_throw (pending found code_hash now) enrollment_unavailable
      version ← gets (λ s. get s.key_versions account_id)
      key_version ← or_throw (initialized version) account_key_not_initialized
      modify (
          approve account_id enrollment_id enrollment wrapped_account_key device_token token_hash
            key_version now)

pub record Delivery : Type 0 where
  pub account_id : String
  pub device_id : String
  pub wrapped_account_key : String
  pub device_token : String
  pub key_version : ℕ

abbrev pub or_zero : Option ℕ → ℕ
or_zero none = 0
or_zero (some n) = n

-- The enrollment, if its code is right, it has not expired and its key and token are there.
unfoldable pub ready : Option Enrollment → String → ℕ → Option (Enrollment × String × String)
ready none code_hash now = none
ready (some e) code_hash now =
    if is_stale e code_hash now || not (truthy e.wrapped_account_key) || not (truthy e.device_token)
    then none
    else elim e.wrapped_account_key [
      | none ↦ none
      | some key ↦ elim e.device_token [ none ↦ none | some token ↦ some (e, key, token) ]
    ]

-- `if (!enrollment.accountId) return undefined` and the answer.
unfoldable pub delivery : Repository → Enrollment → String → String → Option Delivery
delivery s e key token = elim e.account_id [
  | none ↦ none
  | some account_id ↦
      if str_eq account_id ""
      then none
      else some (record {
        account_id = account_id;
        device_id = e.device_id;
        wrapped_account_key = key;
        device_token = token;
        key_version = or_zero (get s.key_versions account_id);
      })
]

-- `#enrollments.delete(enrollmentId)`, and the answer.
unfoldable pub deliver :
    String → Option (Enrollment × String × String) → Exec Repository Error (Option Delivery)
deliver enrollment_id none = pure none
deliver enrollment_id (some (e, key, token)) = do
  modify (λ s. record s { enrollments = delete s.enrollments enrollment_id })
  gets (λ s. delivery s e key token)

unfoldable pub take_enrollment : String → String → ℕ → Exec Repository Error (Option Delivery)
take_enrollment enrollment_id code_hash now = do
  found ← gets (λ s. get s.enrollments enrollment_id)
  deliver enrollment_id (ready found code_hash now)

abbrev pub sync_device : RegisteredDevice → SyncDevice
sync_device d = record {
  device_id = d.device_id;
  name = d.name;
  public_key = d.public_key;
  key_version = d.key_version;
  created_at = d.created_at;
  last_seen_at = d.last_seen_at;
}

-- `right.lastSeenAt - left.lastSeenAt` is not positive.
abbrev pub most_recent : SyncDevice → SyncDevice → Bool
most_recent left right = leb right.last_seen_at left.last_seen_at

abbrev pub account_devices : Repository → String → List RegisteredDevice
account_devices s account_id = keep (λ d. str_eq d.account_id account_id) (values s.devices)

unfoldable pub list_devices : Repository → String → List SyncDevice
unfolding sort_by
list_devices s account_id = sort_by most_recent (map sync_device (account_devices s account_id))

abbrev pub is_of_device : String → String → String → AuthenticatedDevice → Bool
is_of_device account_id device_id hash d =
    str_eq d.account_id account_id && str_eq d.device_id device_id

unfoldable pub revoke_device : String → String → Repository → Repository
revoke_device account_id device_id s = record s {
  tokens = delete_where (is_of_device account_id device_id) s.tokens;
  devices = delete s.devices (device_key account_id device_id);
}
