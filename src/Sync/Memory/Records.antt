-- ===== src/Sync/Memory/Records.antt =====
-- `push`, `pull` and `deleteCloudData` of `MemorySyncRepository`
-- (services/sync/src/memoryRepository.ts). `now` is the reading of `Date.now()` in the call.
pub mod Push
pub mod Merge
pub mod Isolation
pub mod Paging
pub mod Deletion
pub mod Delivery
use locus_browser.Base.{
  ℕ, ◌+◌, String, Bool, true, false, not, ◌&&◌, ◌||◌, Option, none, some, List, [], ◌∷◌, Dict, get,
  set, delete, delete_where, values, str_eq, opt_eq, text_leb, ltb, leb, length, take, keep,
  if◌then◌else◌, sort_by, Exec, ok, ◌>>=◌, ◌>>◌, pure, throw_if, gets, modify,
}
use locus_browser.Sync.Models.{AuthenticatedDevice, OpaqueSyncRecord, CursorRecord}
use locus_browser.Sync.Memory.State.{
  Repository, Error, key_version_changed, ownership_mismatch, stored_key,
}

pub record PushResult : Type 0 where
  pub cursor : ℕ
  pub accepted : ℕ

-- `record.accountId !== device.accountId || record.deviceId !== device.deviceId`.
unfoldable pub is_foreign : AuthenticatedDevice → OpaqueSyncRecord → Bool
is_foreign device r =
    not (str_eq r.account_id device.account_id) || not (str_eq r.device_id device.device_id)

-- `existing && existing.clock >= record.clock`.
unfoldable pub is_current : Option CursorRecord → OpaqueSyncRecord → Bool
is_current none r = false
is_current (some existing) r = text_leb r.clock existing.clock

-- The three writes for an accepted record: `#cursor`, `#records` and `#recordUpdatedAt`.
unfoldable pub store : String → ℕ → OpaqueSyncRecord → Repository → Repository
store account_id now r s = record s {
  cursor = s.cursor + 1;
  records = set s.records (stored_key account_id r) (record { body = r; cursor = s.cursor + 1 });
  record_updated_at = set s.record_updated_at (stored_key account_id r) now;
}

-- One round of the loop in `push`; it returns what is added to `accepted`.
unfoldable pub offer : AuthenticatedDevice → ℕ → OpaqueSyncRecord → Exec Repository Error ℕ
unfolding store is_current
offer device now r s =
    if is_current (get s.records (stored_key device.account_id r)) r
    then (ok 0, s)
    else (ok 1, store device.account_id now r s)

-- The loop in `push`; it returns `accepted`.
unfoldable pub push_each :
    AuthenticatedDevice → ℕ → List OpaqueSyncRecord → ℕ → Exec Repository Error ℕ
push_each device now [] accepted = pure accepted
push_each device now (r ∷ rs) accepted = do
  throw_if (is_foreign device r) ownership_mismatch
  count ← offer device now r
  push_each device now rs (accepted + count)

unfoldable pub push :
    AuthenticatedDevice → ℕ → List OpaqueSyncRecord → ℕ → Exec Repository Error PushResult
push device key_version records now = do
  version ← gets (λ s. get s.key_versions device.account_id)
  throw_if (not (opt_eq version (some key_version))) key_version_changed
  accepted ← push_each device now records 0
  cursor ← gets (λ s. s.cursor)
  pure (record { cursor = cursor; accepted = accepted })

pub record PullResult : Type 0 where
  pub records : List CursorRecord
  pub cursor : ℕ
  pub has_more : Bool

-- `records.at(-1)?.cursor ?? cursor`.
abbrev pub last_cursor : List CursorRecord → ℕ → ℕ
last_cursor [] cursor = cursor
last_cursor (r ∷ rs) cursor = last_cursor rs r.cursor

abbrev pub is_newer : String → ℕ → CursorRecord → Bool
is_newer account_id cursor r = str_eq r.account_id account_id && ltb cursor r.cursor

abbrev pub by_cursor : CursorRecord → CursorRecord → Bool
by_cursor left right = leb left.cursor right.cursor

unfoldable pub available : Repository → String → ℕ → List CursorRecord
unfolding sort_by
available s account_id cursor =
    sort_by by_cursor (keep (is_newer account_id cursor) (values s.records))

unfoldable pub pull : Repository → String → ℕ → ℕ → PullResult
unfolding available
pull s account_id cursor limit =
    let found = available s account_id cursor in
    let records = take limit found in
    record {
      records = records;
      cursor = last_cursor records cursor;
      has_more = ltb (length records) (length found);
    }

-- `this.#recordUpdatedAt.delete(key)` for each entry of `#records` that a loop deletes.
unfoldable pub forget_times : (String → CursorRecord → Bool) → Dict CursorRecord → Dict ℕ → Dict ℕ
forget_times p [] times = times
forget_times p ((k, r) ∷ m) times = forget_times p m (if p k r then delete times k else times)

-- A loop that deletes the records that pass a test, with their times.
unfoldable pub delete_records : (String → CursorRecord → Bool) → Repository → Repository
unfolding forget_times
delete_records p s = record s {
  records = delete_where p s.records;
  record_updated_at = forget_times p s.records s.record_updated_at;
}

abbrev pub is_of_account : String → String → CursorRecord → Bool
is_of_account account_id key r = str_eq r.account_id account_id

unfoldable pub delete_cloud_data : String → Repository → Repository
unfolding delete_records
delete_cloud_data account_id s = delete_records (is_of_account account_id) s
