-- ===== src/Sync/Memory/Keys.antt =====
-- The account-key methods of `MemorySyncRepository` (services/sync/src/memoryRepository.ts). `now` is
-- the reading of `Date.now()` in the call.
pub mod Install
pub mod Setup
pub mod Rotation
pub mod Stored
pub mod Rotated
use locus_browser.Base.{
  has, set_size, ℕ, ◌+◌, String, Bool, false, not, ◌&&◌, ◌||◌, Option, none, some, List, [], ◌∷◌,
  map, get, set, values, str_eq, opt_eq, truthy, ◌==◌, length, any, keep, if◌then◌else◌, ok, err,
  Exec, ◌>>=◌, ◌>>◌, pure, throw_if, or_throw, modify, gets,
}
use locus_browser.Sync.Models.{
  AuthenticatedDevice, OpaqueSyncRecord, RegisteredDevice, AccountKeyWrap,
}
use locus_browser.Sync.Memory.State.{
  Repository, Error, key_version_changed, device_unavailable, incomplete_wraps, incomplete_rotation,
  ownership_mismatch, type_error, device_key, record_key,
}
use locus_browser.Sync.Memory.Records.{is_foreign, store, delete_records, is_of_account}
use locus_browser.Sync.Memory.Devices.{or_zero, account_devices}

abbrev pub device_ids : List RegisteredDevice → List String
device_ids = map (λ d. d.device_id)

abbrev pub wrap_ids : List AccountKeyWrap → List String
wrap_ids = map (λ w. w.device_id)

-- `assertCompleteWrapSet` returns.
unfoldable pub is_complete_wrap_set : List RegisteredDevice → List AccountKeyWrap → Bool
is_complete_wrap_set devices wraps = not (
    not (set_size (wrap_ids wraps) == length wraps)
    || not (set_size (device_ids devices) == set_size (wrap_ids wraps))
    || any (λ id. not (has (wrap_ids wraps) id)) (device_ids devices))

pub record KeyState : Type 0 where
  pub version : ℕ
  pub wrapped_account_key : Option String

unfoldable pub account_key_state : String → String → Exec Repository Error KeyState
account_key_state account_id device_id = do
  found ← gets (λ s. get s.devices (device_key account_id device_id))
  device ← or_throw found device_unavailable
  version ← gets (λ s. or_zero (get s.key_versions account_id))
  pure (record {
    version = version;
    wrapped_account_key =
        if device.key_version == version && truthy device.wrapped_account_key
        then device.wrapped_account_key
        else none;
  })

abbrev pub with_key : ℕ → String → RegisteredDevice → RegisteredDevice
with_key version wrapped device = record device {
  wrapped_account_key = some wrapped;
  key_version = version;
}

-- One round of the loop over the wraps; `get(…)!` is `undefined` for an unknown device.
unfoldable pub install : String → ℕ → AccountKeyWrap → Exec Repository Error (Unit {0})
install account_id version wrap s = elim (get s.devices (device_key account_id wrap.device_id)) [
  | none ↦ (err type_error, s)
  | some device ↦ (
    ok tt,
    record s {
      devices =
          set s.devices (device_key account_id wrap.device_id)
            (with_key version wrap.wrapped_account_key device);
    },
  )
]

unfoldable pub install_each : String → ℕ → List AccountKeyWrap → Exec Repository Error (Unit {0})
install_each account_id version [] = pure tt
install_each account_id version (wrap ∷ wraps) = do
  install account_id version wrap
  install_each account_id version wraps

abbrev pub set_key_version : String → ℕ → Repository → Repository
set_key_version account_id version s = record s {
  key_versions = set s.key_versions account_id version;
}

unfoldable pub initialize_account_key :
    String → ℕ → ℕ → List AccountKeyWrap → Exec Repository Error (Unit {0})
initialize_account_key account_id expected_version version wraps = do
  current ← gets (λ s. or_zero (get s.key_versions account_id))
  throw_if (not (current == expected_version) || not (version == expected_version + 1))
      key_version_changed
  devices ← gets (λ s. account_devices s account_id)
  throw_if (not (is_complete_wrap_set devices wraps)) incomplete_wraps
  modify (set_key_version account_id version)
  install_each account_id version wraps

unfoldable pub set_device_wrapped_key :
    String → String → ℕ → String → Exec Repository Error (Unit {0})
set_device_wrapped_key account_id device_id version wrapped = do
  current ← gets (λ s. get s.key_versions account_id)
  throw_if (not (opt_eq current (some version))) key_version_changed
  found ← gets (λ s. get s.devices (device_key account_id device_id))
  device ← or_throw found device_unavailable
  modify (λ s. record s {
    devices = set s.devices (device_key account_id device_id) (with_key version wrapped device);
  })

abbrev pub existing_keys : Repository → String → List String
existing_keys s account_id =
    map (λ r. record_key r.body) (keep (λ r. str_eq r.account_id account_id) (values s.records))

abbrev pub replacement_keys : List OpaqueSyncRecord → List String
replacement_keys = map record_key

-- The replacement names every stored record of the account, and no other.
unfoldable pub is_complete_rotation : List String → List String → Bool
is_complete_rotation existing replacement = not (
    not (set_size existing == set_size replacement)
    || any (λ key. not (has replacement key)) existing)

-- The loop that stores the replacement records.
unfoldable pub store_each : String → ℕ → List OpaqueSyncRecord → Repository → Repository
store_each account_id now [] s = s
store_each account_id now (r ∷ rs) s = store_each account_id now rs (store account_id now r s)

unfoldable pub rotate_account_key :
    AuthenticatedDevice
    → ℕ
    → ℕ
    → List AccountKeyWrap
    → List OpaqueSyncRecord
    → ℕ
    → Exec Repository Error ℕ
rotate_account_key device expected_version version wraps records now = do
  current ← gets (λ s. get s.key_versions device.account_id)
  throw_if (not (opt_eq current (some expected_version)) || not (version == expected_version + 1))
      key_version_changed
  devices ← gets (λ s. account_devices s device.account_id)
  throw_if (not (is_complete_wrap_set devices wraps)) incomplete_wraps
  existing ← gets (λ s. existing_keys s device.account_id)
  throw_if (not (is_complete_rotation existing (replacement_keys records))) incomplete_rotation
  throw_if (any (is_foreign device) records) ownership_mismatch
  modify (delete_records (is_of_account device.account_id))
  modify (store_each device.account_id now records)
  modify (set_key_version device.account_id version)
  install_each device.account_id version wraps
  gets (λ s. s.cursor)
