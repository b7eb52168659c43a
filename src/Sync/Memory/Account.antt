-- ===== src/Sync/Memory/Account.antt =====
-- `cleanupExpired` and `deleteAccount` of `MemorySyncRepository`
-- (services/sync/src/memoryRepository.ts).
pub mod Deleting
pub mod Expiry
use text.Mathlib.Text.{starts_with}
use locus_browser.Base.{
  ℕ, ◌+◌, ◌*◌, String, Bool, false, ◌&&◌, Option, none, some, get, delete, delete_where, str_eq,
  ltb, Dict, colon_join,
}
use locus_browser.Sync.Models.{CursorRecord}
use locus_browser.Sync.Memory.State.{Repository}
use locus_browser.Sync.Memory.Records.{delete_records, delete_cloud_data}

abbrev pub or_now : ℕ → Option ℕ → ℕ
or_now now none = now
or_now now (some t) = t

-- 90 days.
abbrev pub tombstone_age : ℕ
tombstone_age = 90 * 24 * 60 * 60 * 1000

-- `updatedAt < now - 90 days`, without a number below zero.
abbrev pub is_old_tombstone : ℕ → Dict ℕ → String → CursorRecord → Bool
is_old_tombstone now times key r =
    r.tombstone && ltb (or_now now (get times key) + tombstone_age) now

unfoldable pub cleanup_expired : ℕ → Repository → Repository
unfolding delete_records
cleanup_expired now s =
    let t = delete_records (is_old_tombstone now s.record_updated_at) s in
    record t {
      enrollments = delete_where (λ id e. ltb e.expires_at now) t.enrollments;
      ceremonies = delete_where (λ id c. ltb c.expires_at now) t.ceremonies;
      claims = delete_where (λ id c. ltb c.expires_at now) t.claims;
    }

-- `optional === accountId`.
abbrev pub opt_is : Option String → String → Bool
opt_is none account_id = false
opt_is (some a) account_id = str_eq a account_id

-- `key.startsWith(`${accountId}:`)`.
unfoldable pub has_account_prefix : String → String → Bool
has_account_prefix account_id key = starts_with key (colon_join account_id "")

unfoldable pub delete_account : String → Repository → Repository
delete_account account_id s =
    let t = delete_cloud_data account_id s in
    record t {
      tokens = delete_where (λ hash d. str_eq d.account_id account_id) t.tokens;
      enrollments = delete_where (λ id e. opt_is e.account_id account_id) t.enrollments;
      ceremonies = delete_where (λ id c. opt_is c.account_id account_id) t.ceremonies;
      passkeys = delete_where (λ id p. str_eq p.account_id account_id) t.passkeys;
      claims = delete_where (λ id c. str_eq c.account_id account_id) t.claims;
      devices = delete_where (λ key d. has_account_prefix account_id key) t.devices;
      key_versions = delete t.key_versions account_id;
    }
