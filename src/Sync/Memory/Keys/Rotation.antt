-- ===== src/Sync/Memory/Keys/Rotation.antt =====
-- `rotateAccountKey` of services/sync/src/memoryRepository.ts is all or nothing, and what it leaves.
use locus_browser.Base.{
  ℕ, ◌+◌, ◌≡◌, ◌≢◌, ◌⊎◌, ◌∙◌, refl, String, true, false, not, ◌||◌, some, List, [], ◌∷◌, arith, get,
  get-set_ne, NoColon, All, All-map, All-set, Any, Bool-cases, inl, inr, ok, err, eq_iff, opt_eq,
  length, any, ◌==◌, join_injective, after_step,
}
use locus_browser.Sync.Models.{AuthenticatedDevice, OpaqueSyncRecord, CursorRecord, AccountKeyWrap}
use locus_browser.Sync.Memory.State.{
  Repository, Error, key_version_changed, incomplete_wraps, incomplete_rotation, ownership_mismatch,
  stored_key, record_key,
}
use locus_browser.Sync.Memory.Invariant.{Inv, set_version-Inv}
use locus_browser.Sync.Memory.Devices.{account_devices}
use locus_browser.Sync.Memory.Records.{is_foreign, store, delete_records, is_of_account}
use locus_browser.Sync.Memory.Records.Isolation.{store-Inv, own_account}
use locus_browser.Sync.Memory.Records.Deletion.{delete_records-Inv, delete_records_sound}
use locus_browser.Sync.Memory.Keys.{
  is_complete_wrap_set, is_complete_rotation, existing_keys, replacement_keys, install_each,
  store_each, set_key_version, rotate_account_key,
}

-- The state in which the wraps are installed.
abbrev pub replaced : AuthenticatedDevice → ℕ → List OpaqueSyncRecord → ℕ → Repository → Repository
replaced device version records now s =
    set_key_version device.account_id version (
      store_each device.account_id now records (delete_records (is_of_account device.account_id) s))

-- What the checks of a rotation establish.
pub record Accepts (device : AuthenticatedDevice) (expected version : ℕ)
    (wraps : List AccountKeyWrap) (records : List OpaqueSyncRecord) (s : Repository) : Type 0 where
  pub current : opt_eq (get s.key_versions device.account_id) (some expected) ≡ true
  pub next : version ≡ expected + 1
  pub complete : is_complete_wrap_set (account_devices s device.account_id) wraps ≡ true
  pub all_replaced :
      is_complete_rotation (existing_keys s device.account_id) (replacement_keys records) ≡ true
  pub own : any (is_foreign device) records ≡ false

-- Each check throws before anything is written.
pub rotate_cases :
    (device : AuthenticatedDevice) (expected version : ℕ) (wraps : List AccountKeyWrap)
    (records : List OpaqueSyncRecord) (now : ℕ) (s : Repository)
    → ((e : Error) × (rotate_account_key device expected version wraps records now s ≡ (err e, s)))
      ⊎ (Accepts device expected version wraps records s
          × (rotate_account_key device expected version wraps records now s
              ≡ after_step
                  (λ _ u. (ok u.cursor, u))
                  (install_each device.account_id version wraps
                    (replaced device version records now s))))
unfolding rotate_account_key
rotate_cases device expected version wraps records now s =
    elim (Bool-cases (
      not (opt_eq (get s.key_versions device.account_id) (some expected))
      || not (version == expected + 1))) [
        | inl a ↦ inl (key_version_changed, rw a refl)
        | inr a ↦
            elim (Bool-cases (is_complete_wrap_set (account_devices s device.account_id) wraps)) [
              | inr b ↦ inl (incomplete_wraps, rw (a, b) refl)
              | inl b ↦
                  elim (Bool-cases (
                    is_complete_rotation (existing_keys s device.account_id)
                      (replacement_keys records))) [
                        | inr c ↦ inl (incomplete_rotation, rw (a, b, c) refl)
                        | inl c ↦ elim (Bool-cases (any (is_foreign device) records)) [
                          | inl d ↦ inl (ownership_mismatch, rw (a, b, c, d) refl)
                          | inr d ↦ inr (
                            record {
                              current = ground arith;
                              next = ground arith;
                              complete = b;
                              all_replaced = c;
                              own = d;
                            },
                            rw (a, b, c, d) refl,
                          )
                        ]
                      ]
            ]
      ]

pub store_each-devices :
    (account_id : String) (now : ℕ) (rs : List OpaqueSyncRecord) (s : Repository)
    → ((store_each account_id now rs s).devices ≡ s.devices)
      × ((store_each account_id now rs s).cursor ≡ s.cursor + length rs)
unfolding store_each store
store_each-devices account_id now [] s = (refl, omega arith)
store_each-devices account_id now (r ∷ rs) s =
    let (same, moved) = store_each-devices account_id now rs (store account_id now r s) in
    (same, omega arith)

store_each-Inv :
    (device : AuthenticatedDevice) (now : ℕ) (rs : List OpaqueSyncRecord) (s : Repository)
    → any (is_foreign device) rs ≡ false
    → Inv s
    → Inv (store_each device.account_id now rs s)
unfolding store_each
store_each-Inv device now [] s own v = v
store_each-Inv device now (r ∷ rs) s own v =
    store_each-Inv device now rs (store device.account_id now r s) (ground arith)
      (store-Inv device now r s (own_account device r (ground arith)) v)

-- A record that the loop leaves was there before, or is one of the new ones.
pub store_each-All :
    (P : CursorRecord → Type 0) (account_id : String) (now : ℕ) (rs : List OpaqueSyncRecord)
    (s : Repository)
    → All (λ e. P e.1) s.records
    → All (λ r. (n : ℕ) → P (record { body = r; cursor = n })) rs
    → All (λ e. P e.1) (store_each account_id now rs s).records
unfolding store_each store
store_each-All P account_id now [] s h k = h
store_each-All P account_id now (r ∷ rs) s h k =
    store_each-All P account_id now rs (store account_id now r s)
      (All-set (λ _ e. P e) s.records (stored_key account_id r) _ h (k.0 (s.cursor + 1))) k.1

pub store_each_isolated :
    (account_id : String) (now : ℕ) (rs : List OpaqueSyncRecord) (s : Repository) (b : String)
    (q : OpaqueSyncRecord)
    → NoColon account_id
    → NoColon b
    → account_id ≢ b
    → get (store_each account_id now rs s).records (stored_key b q) ≡ get s.records (stored_key b q)
unfolding store_each store
store_each_isolated account_id now [] s b q plain plain' other = refl
store_each_isolated account_id now (r ∷ rs) s b q plain plain' other =
    store_each_isolated account_id now rs (store account_id now r s) b q plain plain' other
    ∙ get-set_ne s.records (stored_key account_id r) (stored_key b q) _
        (λ e. other ((join_injective account_id b (record_key r) (record_key q) plain plain' e).0))

pub members : (rs : List OpaqueSyncRecord) → All (λ r. Any (λ q. r ≡ q) rs) rs
members [] = tt
members (r ∷ rs) = (inl refl, All-map _ _ (λ q m. inr m) rs (members rs))

pub replaced-Inv :
    (device : AuthenticatedDevice) (version : ℕ) (records : List OpaqueSyncRecord) (now : ℕ)
    (s : Repository)
    → any (is_foreign device) records ≡ false
    → Inv s
    → Inv (replaced device version records now s)
replaced-Inv device version records now s own v = set_version-Inv _ device.account_id version (
    store_each-Inv device now records _ own
      (delete_records-Inv (is_of_account device.account_id) s v))

-- The devices stay as they are, and each new record has a cursor of its own.
pub replaced_lem :
    (device : AuthenticatedDevice) (version : ℕ) (records : List OpaqueSyncRecord) (now : ℕ)
    (s : Repository)
    → let u = replaced device version records now s in
      (u.devices ≡ s.devices) × (u.cursor ≡ s.cursor + length records)
unfolding delete_records
replaced_lem device version records now s =
    store_each-devices device.account_id now records
      (delete_records (is_of_account device.account_id) s)

-- A record belongs to another account or is one of the replacements.
abbrev pub IsReplaced : String → List OpaqueSyncRecord → CursorRecord → Type 0
IsReplaced account_id records e = (e.account_id ≢ account_id) ⊎ Any (λ r. e.body ≡ r) records

-- Every record of the account is one of the new ones.
pub replaced_origin :
    (device : AuthenticatedDevice) (version : ℕ) (records : List OpaqueSyncRecord) (now : ℕ)
    (s : Repository)
    → All
        (λ e. IsReplaced device.account_id records e.1)
        (replaced device version records now s).records
replaced_origin device version records now s =
    store_each-All (IsReplaced device.account_id records) device.account_id now records
      (delete_records (is_of_account device.account_id) s)
      (All-map _ _ (λ e gone. inl (λ own. cc ((eq_iff e.1.account_id device.account_id).1 own))) _
        (delete_records_sound device.account_id s))
      (All-map _ _ (λ r m n. inr m) records (members records))
