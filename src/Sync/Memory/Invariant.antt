-- ===== src/Sync/Memory/Invariant.antt =====
-- What holds of every state that `MemorySyncRepository`
-- (services/sync/src/memoryRepository.ts) can be in.
use locus_browser.Base.{
  refl, get-set, get-set_self, HasUniqueKeys-set, HasUniqueKeys, ℕ, ◌+◌, ◌≤◌, ◌≡◌, ◌≢◌, String,
  Bool, Option, none, some, [], ◌∷◌, arith, Dict, get, set, delete_where, str_eq, All, All-map,
  All-set, All-delete_where, NoColon, Bool-cases, inl, inr,
}
use locus_browser.Sync.Models.{
  Enrollment, PasskeyCeremony, PasskeyClaim, CursorRecord, RegisteredDevice, AuthenticatedDevice,
}
use locus_browser.Sync.Memory.State.{Repository, device_key, stored_key}

-- No two entries have the same cursor.
abbrev pub HasDistinctCursors : Dict CursorRecord → Type 0
HasDistinctCursors [] = Unit
HasDistinctCursors ((k, r) ∷ m) = All (λ e. r.cursor ≢ e.1.cursor) m × HasDistinctCursors m

-- The account that a registration is to make.
abbrev pub IsPlainAccount : Option String → Type 0
IsPlainAccount none = Unit
IsPlainAccount (some account_id) = NoColon account_id

pub record Inv (s : Repository) : Type 0 where
  -- The cursors that were given out are at most `#cursor`, each at one record.
  pub bounded : All (λ e. e.1.cursor ≤ s.cursor) s.records
  pub distinct : HasDistinctCursors s.records
  -- Each record and each device stands under its own key.
  pub keyed : All (λ e. e.0 ≡ stored_key e.1.account_id e.1.body) s.records
  pub named : All (λ e. e.0 ≡ device_key e.1.account_id e.1.device_id) s.devices
  -- An account identifier, a UUID, has no colon.
  pub plain : All (λ e. NoColon e.1.account_id) s.devices
  -- A token belongs to a registered device.
  pub live : All (λ e. get s.devices (device_key e.1.account_id e.1.device_id) ≢ none) s.tokens
  -- The account of a device or of a passkey has a key version.
  pub versioned : All (λ e. get s.key_versions e.1.account_id ≢ none) s.devices
  pub unique : HasUniqueKeys s.tokens
  pub tokens_plain : All (λ e. NoColon e.1.account_id) s.tokens
  pub ceremonies_plain : All (λ e. IsPlainAccount e.1.account_id) s.ceremonies
  pub passkeys_plain : All (λ e. NoColon e.1.account_id) s.passkeys
  pub passkeys_versioned : All (λ e. get s.key_versions e.1.account_id ≢ none) s.passkeys

-- A record with a cursor above all others may be set under any key.
pub HasDistinctCursors-set :
    (m : Dict CursorRecord) (k : String) (v : CursorRecord) (n : ℕ)
    → All (λ e. e.1.cursor ≤ n) m
    → v.cursor ≡ n + 1
    → HasDistinctCursors m
    → HasDistinctCursors (set m k v)
unfolding set
HasDistinctCursors-set [] k v n b h d = (tt, tt)
HasDistinctCursors-set ((j, r) ∷ m) k v n b h d = elim (Bool-cases (str_eq j k)) [
  | inl e ↦ rw e (All-map _ _ (λ x le. omega arith) m b.1, d.1)
  | inr e ↦ rw e (
    All-set (λ _ w. r.cursor ≢ w.cursor) m k v d.0 (omega arith),
    HasDistinctCursors-set m k v n b.1 h d.1,
  )
]

pub HasDistinctCursors-delete_where :
    (p : String → CursorRecord → Bool) (m : Dict CursorRecord)
    → HasDistinctCursors m
    → HasDistinctCursors (delete_where p m)
unfolding delete_where
HasDistinctCursors-delete_where p [] d = tt
HasDistinctCursors-delete_where p ((j, r) ∷ m) d = elim (Bool-cases (p j r)) [
  | inl e ↦ rw e (HasDistinctCursors-delete_where p m d.1)
  | inr e ↦ rw e (
    All-delete_where (λ x. r.cursor ≢ x.1.cursor) p m d.0,
    HasDistinctCursors-delete_where p m d.1,
  )
]

abbrev IsLive : Dict RegisteredDevice → String × AuthenticatedDevice → Type 0
IsLive devices e = get devices (device_key e.1.account_id e.1.device_id) ≢ none

IsLive-set :
    (devices : Dict RegisteredDevice) (k : String) (d : RegisteredDevice)
    (tokens : Dict AuthenticatedDevice)
    → All (IsLive devices) tokens
    → All (IsLive (set devices k d)) tokens
IsLive-set devices k d tokens h =
    All-map _ _
      (λ e live. ground (arith, get-set devices k (device_key e.1.account_id e.1.device_id) d))
      tokens h

-- A device of an account that has a key version is put under its key.
pub set_device-Inv :
    (s : Repository) (d : RegisteredDevice)
    → NoColon d.account_id
    → get s.key_versions d.account_id ≢ none
    → Inv s
    → Inv (record s { devices = set s.devices (device_key d.account_id d.device_id) d })
set_device-Inv s d plain versioned v = record {
  bounded = v.bounded;
  distinct = v.distinct;
  keyed = v.keyed;
  named = All-set (λ k e. k ≡ device_key e.account_id e.device_id) s.devices _ d v.named refl;
  plain = All-set (λ _ e. NoColon e.account_id) s.devices _ d v.plain plain;
  live = IsLive-set s.devices _ d s.tokens v.live;
  versioned =
      All-set (λ _ e. get s.key_versions e.account_id ≢ none) s.devices _ d v.versioned versioned;
  unique = v.unique;
  tokens_plain = v.tokens_plain;
  ceremonies_plain = v.ceremonies_plain;
  passkeys_plain = v.passkeys_plain;
  passkeys_versioned = v.passkeys_versioned;
}

-- A token is set for a device that is registered.
pub set_token-Inv :
    (s : Repository) (hash : String) (a : AuthenticatedDevice)
    → NoColon a.account_id
    → get s.devices (device_key a.account_id a.device_id) ≢ none
    → Inv s
    → Inv (record s { tokens = set s.tokens hash a })
set_token-Inv s hash a plain live v = record {
  bounded = v.bounded;
  distinct = v.distinct;
  keyed = v.keyed;
  named = v.named;
  plain = v.plain;
  live =
      All-set (λ _ e. get s.devices (device_key e.account_id e.device_id) ≢ none) s.tokens hash a
        v.live live;
  versioned = v.versioned;
  unique = HasUniqueKeys-set s.tokens hash a v.unique;
  tokens_plain = All-set (λ _ e. NoColon e.account_id) s.tokens hash a v.tokens_plain plain;
  ceremonies_plain = v.ceremonies_plain;
  passkeys_plain = v.passkeys_plain;
  passkeys_versioned = v.passkeys_versioned;
}

-- An account's key version is set.
pub set_version-Inv :
    (s : Repository) (account_id : String) (n : ℕ)
    → Inv s
    → Inv (record s { key_versions = set s.key_versions account_id n })
set_version-Inv s account_id n v = record {
  bounded = v.bounded;
  distinct = v.distinct;
  keyed = v.keyed;
  named = v.named;
  plain = v.plain;
  live = v.live;
  versioned =
      All-map _ _ (λ e h. ground (arith, get-set s.key_versions account_id e.1.account_id n))
        s.devices v.versioned;
  unique = v.unique;
  tokens_plain = v.tokens_plain;
  ceremonies_plain = v.ceremonies_plain;
  passkeys_plain = v.passkeys_plain;
  passkeys_versioned =
      All-map _ _ (λ e h. ground (arith, get-set s.key_versions account_id e.1.account_id n))
        s.passkeys v.passkeys_versioned;
}

-- The device and its token together, as every sign-in sets them.
pub sign_in-Inv :
    (s : Repository) (hash : String) (d : RegisteredDevice)
    → NoColon d.account_id
    → get s.key_versions d.account_id ≢ none
    → Inv s
    → Inv (record s {
      tokens = set s.tokens hash (record { account_id = d.account_id; device_id = d.device_id });
      devices = set s.devices (device_key d.account_id d.device_id) d;
    })
sign_in-Inv s hash d plain versioned v =
    let t : Repository = record s {
      devices = set s.devices (device_key d.account_id d.device_id) d;
    } in
    set_token-Inv t hash (record { account_id = d.account_id; device_id = d.device_id }) plain
      (ground (arith, get-set_self s.devices (device_key d.account_id d.device_id) d))
      (set_device-Inv s d plain versioned v)

-- The maps that the invariant does not speak of may change freely.
pub frame-Inv :
    (s : Repository) (enrollments : Dict Enrollment) (ceremonies : Dict PasskeyCeremony)
    (claims : Dict PasskeyClaim) (times : Dict ℕ)
    → All (λ e. IsPlainAccount e.1.account_id) ceremonies
    → Inv s
    → Inv (record s {
      enrollments = enrollments;
      ceremonies = ceremonies;
      claims = claims;
      record_updated_at = times;
    })
frame-Inv s enrollments ceremonies claims times made v = record {
  bounded = v.bounded;
  distinct = v.distinct;
  keyed = v.keyed;
  named = v.named;
  plain = v.plain;
  live = v.live;
  versioned = v.versioned;
  unique = v.unique;
  tokens_plain = v.tokens_plain;
  ceremonies_plain = made;
  passkeys_plain = v.passkeys_plain;
  passkeys_versioned = v.passkeys_versioned;
}
