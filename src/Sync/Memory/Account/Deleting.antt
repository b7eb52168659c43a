-- ===== src/Sync/Memory/Account/Deleting.antt =====
-- What `deleteAccount` of services/sync/src/memoryRepository.ts leaves: nothing of the account, and all of
-- the others.
use locus_browser.Base.{
  starts_with-join, ℕ, ◌≡◌, ◌≢◌, ◌∙◌, sym, String, false, none, arith, Dict, get, delete,
  delete_where, get-delete, get-delete_where_keeps, get-delete_where-none, get-delete_where, unless,
  All-and, All-delete_where, HasUniqueKeys-delete_where, NoColon, Option-cases, inl, inr, eq_iff,
  str_eq,
}
use locus_browser.Sync.Models.{AuthenticatedDevice, RegisteredDevice, OpaqueSyncRecord}
use locus_browser.Sync.Memory.State.{Repository, device_key, stored_key}
use locus_browser.Sync.Memory.Invariant.{Inv}
use locus_browser.Sync.Memory.Records.{delete_records, is_of_account, delete_cloud_data}
use locus_browser.Sync.Memory.Records.Deletion.{delete_records-Inv, delete_records_isolated}
use locus_browser.Sync.Memory.Devices.Keeps.{All-delete_both}
use locus_browser.Sync.Memory.Account.{has_account_prefix, delete_account}

-- The prefix test on a device key picks out the account.
prefix-device_key :
    (account_id : String) (k : String) (d : RegisteredDevice)
    → NoColon account_id
    → NoColon d.account_id
    → k ≡ device_key d.account_id d.device_id
    → has_account_prefix account_id k ≡ str_eq d.account_id account_id
unfolding has_account_prefix
prefix-device_key account_id k d plain plain' key =
    rw key (starts_with-join account_id d.account_id d.device_id plain plain')

kept_device :
    (account_id b id : String) (devices : Dict RegisteredDevice)
    → NoColon account_id
    → NoColon b
    → account_id ≢ b
    → get (delete_where (λ key d. has_account_prefix account_id key) devices) (device_key b id)
      ≡ get devices (device_key b id)
unfolding has_account_prefix
kept_device account_id b id devices plain plain' other =
    elim (Option-cases (get devices (device_key b id))) [
      | inl absent ↦
          get-delete_where-none (λ key d. has_account_prefix account_id key) devices
            (device_key b id) absent
          ∙ sym absent
      | inr (d, found) ↦
          let apart : str_eq b account_id ≡ false = ground (arith, eq_iff b account_id) in
          get-delete_where_keeps (λ key e. has_account_prefix account_id key) devices
            (device_key b id) d found (starts_with-join account_id b id plain plain' ∙ apart)
          ∙ sym found
    ]

-- Deleting an account leaves the records, devices and key version of every other account, and the
-- answer to every token of another account, as they were.
pub delete_account_isolated :
    (account_id b : String) (id hash : String) (q : OpaqueSyncRecord) (s : Repository)
    → NoColon account_id
    → NoColon b
    → account_id ≢ b
    → Inv s
    → let t = delete_account account_id s in
      (get t.records (stored_key b q) ≡ get s.records (stored_key b q))
      × (get t.devices (device_key b id) ≡ get s.devices (device_key b id))
      × (get t.key_versions b ≡ get s.key_versions b)
      × (get t.tokens hash
          ≡ unless (λ _ a. str_eq a.account_id account_id) hash (get s.tokens hash))
unfolding delete_account delete_cloud_data delete_records
delete_account_isolated account_id b id hash q s plain plain' other v = (
  delete_records_isolated account_id b q s plain plain' other v,
  kept_device account_id b id s.devices plain plain' other,
  ground (arith, get-delete s.key_versions account_id b, eq_iff account_id b),
  get-delete_where (λ _ a. str_eq a.account_id account_id) s.tokens hash v.unique,
)

pub delete_cloud_data-Inv :
    (account_id : String) (s : Repository) → Inv s → Inv (delete_cloud_data account_id s)
unfolding delete_cloud_data
delete_cloud_data-Inv account_id s v = delete_records-Inv (is_of_account account_id) s v

still_live :
    (account_id : String) (devices : Dict RegisteredDevice) (a : AuthenticatedDevice)
    → NoColon account_id
    → NoColon a.account_id
    → get devices (device_key a.account_id a.device_id) ≢ none
    → str_eq a.account_id account_id ≡ false
    → get
        (delete_where (λ key d. has_account_prefix account_id key) devices)
        (device_key a.account_id a.device_id)
      ≢ none
still_live account_id devices a plain plain' live other =
    let apart : account_id ≢ a.account_id = λ e. cc ((eq_iff a.account_id account_id).1 (sym e)) in
    rw (kept_device account_id a.account_id a.device_id devices plain plain' apart) live

still_versioned :
    (versions : Dict ℕ) (account_id b : String)
    → get versions b ≢ none
    → str_eq b account_id ≡ false
    → get (delete versions account_id) b ≢ none
still_versioned versions account_id b h other =
    ground (arith, get-delete versions account_id b, eq_iff account_id b, eq_iff b account_id)

-- Deleting an account keeps the invariant.
pub delete_account-Inv :
    (account_id : String) (s : Repository)
    → NoColon account_id
    → Inv s
    → Inv (delete_account account_id s)
unfolding delete_account
delete_account-Inv account_id s plain v =
    let t = delete_cloud_data account_id s in
    let w = delete_cloud_data-Inv account_id s v in
    record {
      bounded = w.bounded;
      distinct = w.distinct;
      keyed = w.keyed;
      named = All-delete_where _ _ t.devices w.named;
      plain = All-delete_where _ _ t.devices w.plain;
      live =
          All-delete_both
            (λ _ a.
              NoColon a.account_id × (get t.devices (device_key a.account_id a.device_id) ≢ none))
            _ (λ _ a. str_eq a.account_id account_id) t.tokens
            (λ _ a h other. still_live account_id t.devices a plain h.0 h.1 other)
            (All-and _ _ t.tokens w.tokens_plain w.live);
      versioned =
          All-delete_both
            (λ k d.
              (k ≡ device_key d.account_id d.device_id)
              × (NoColon d.account_id × (get t.key_versions d.account_id ≢ none)))
            _ (λ key d. has_account_prefix account_id key) t.devices
            (λ k d h other.
              still_versioned t.key_versions account_id d.account_id h.1.1
                (sym (prefix-device_key account_id k d plain h.1.0 h.0) ∙ other))
            (All-and _ _ t.devices w.named (All-and _ _ t.devices w.plain w.versioned));
      unique = HasUniqueKeys-delete_where _ t.tokens w.unique;
      tokens_plain = All-delete_where _ _ t.tokens w.tokens_plain;
      ceremonies_plain = All-delete_where _ _ t.ceremonies w.ceremonies_plain;
      passkeys_plain = All-delete_where _ _ t.passkeys w.passkeys_plain;
      passkeys_versioned =
          All-delete_both (λ _ p. get t.key_versions p.account_id ≢ none) _
            (λ _ p. str_eq p.account_id account_id) t.passkeys
            (λ _ p h other. still_versioned t.key_versions account_id p.account_id h other)
            w.passkeys_versioned;
    }
