-- ===== src/Sync/Memory/Devices/Keeps.antt =====
-- The device methods of services/sync/src/memoryRepository.ts keep the invariant.
use locus_browser.Base.{
  ℕ, ◌≡◌, ◌≢◌, refl, String, Bool, false, none, some, arith, get, set, delete, get-set_self,
  NoColon, All, get-All, Option-cases, inl, inr, All-delete, All-delete_where,
  HasUniqueKeys-delete_where, All-map, All-and, eq_iff, str_eq, get-delete, Dict, delete_where,
  join_injective, delete_where_sound, ◌&&◌,
}
use locus_browser.Sync.Models.{AuthenticatedDevice, Enrollment, RegisteredDevice}
use locus_browser.Sync.Memory.State.{Repository, device_key}
use locus_browser.Sync.Memory.Invariant.{
  Inv, set_device-Inv, set_version-Inv, sign_in-Inv, frame-Inv,
}
use locus_browser.Sync.Memory.Devices.{
  enroll_token, touch, authenticate, create_enrollment, pending, approve, approve_enrollment, ready,
  deliver, take_enrollment, revoke_device, is_of_device, approved_device, initialized,
}

pub enroll_token-Inv :
    (hash : String) (device : AuthenticatedDevice) (now : ℕ) (s : Repository)
    → NoColon device.account_id
    → Inv s
    → Inv (enroll_token hash device now s)
unfolding enroll_token
enroll_token-Inv hash device now s plain v =
    sign_in-Inv (record s { key_versions = set s.key_versions device.account_id 1 }) hash _ plain
      (ground (arith, get-set_self s.key_versions device.account_id 1))
      (set_version-Inv s device.account_id 1 v)

-- A stored device may be replaced by one of the same account and identifier.
pub same_device-Inv :
    (s : Repository) (k : String) (d d' : RegisteredDevice)
    → get s.devices k ≡ some d
    → d'.account_id ≡ d.account_id
    → d'.device_id ≡ d.device_id
    → Inv s
    → Inv (record s { devices = set s.devices k d' })
same_device-Inv s k d d' found same_account same_device v =
    let key : k ≡ device_key d'.account_id d'.device_id =
      rw (same_account, same_device)
        (get-All (λ j e. j ≡ device_key e.account_id e.device_id) s.devices k d v.named found) in
    rw key (
      set_device-Inv s d'
        (rw same_account (get-All (λ _ e. NoColon e.account_id) s.devices k d v.plain found))
        (rw same_account
          (get-All (λ _ e. get s.key_versions e.account_id ≢ none) s.devices k d v.versioned found))
        v)

touch-Inv : (key : String) (now : ℕ) (s : Repository) → Inv s → Inv (touch key now s)
unfolding touch
touch-Inv key now s v = elim (Option-cases (get s.devices key)) [
  | inl e ↦ rw (e, touch) v
  | inr (d, e) ↦
      rw (e, touch) (same_device-Inv s key d (record d { last_seen_at = now }) e refl refl v)
]

pub authenticate-Inv :
    (hash : String) (now : ℕ) (s : Repository) → Inv s → Inv (authenticate hash now s).1
unfolding authenticate
authenticate-Inv hash now s v = elim (Option-cases (get s.tokens hash)) [
  | inl e ↦ rw (e, authenticate) v
  | inr (a, e) ↦ rw (e, authenticate) (touch-Inv (device_key a.account_id a.device_id) now s v)
]

pub create_enrollment-Inv : (e : Enrollment) (s : Repository) → Inv s → Inv (create_enrollment e s)
unfolding create_enrollment
create_enrollment-Inv e s v =
    frame-Inv s _ s.ceremonies s.claims s.record_updated_at v.ceremonies_plain v

approve-Inv :
    (account_id id : String) (e : Enrollment) (wrapped token hash : String) (version now : ℕ)
    (s : Repository)
    → NoColon account_id
    → get s.key_versions account_id ≢ none
    → Inv s
    → Inv (approve account_id id e wrapped token hash version now s)
unfolding approve
approve-Inv account_id id e wrapped token hash version now s plain versioned v =
    sign_in-Inv (record s { enrollments = set s.enrollments id _ }) hash
      (approved_device account_id e wrapped hash version now) plain versioned
      (frame-Inv s _ s.ceremonies s.claims s.record_updated_at v.ceremonies_plain v)

pub approve_enrollment-Inv :
    (account_id id code wrapped token hash : String) (now : ℕ) (s : Repository)
    → NoColon account_id
    → Inv s
    → Inv (approve_enrollment account_id id code wrapped token hash now s).1
unfolding approve_enrollment
approve_enrollment-Inv account_id id code wrapped token hash now s plain v =
    elim (Option-cases (pending (get s.enrollments id) code now)) [
      | inl e ↦ rw (e, approve_enrollment) v
      | inr (found, e) ↦ elim (Option-cases (initialized (get s.key_versions account_id))) [
        | inl f ↦ rw (e, approve_enrollment) (ground (arith, v))
        | inr (version, f) ↦
            rw (e, approve_enrollment)
              (ground (
                arith,
                v,
                approve-Inv account_id id found wrapped token hash version now s plain
                    (ground arith) v,
              ))
      ]
    ]

pub take_enrollment-Inv :
    (id code : String) (now : ℕ) (s : Repository) → Inv s → Inv (take_enrollment id code now s).1
unfolding take_enrollment deliver
take_enrollment-Inv id code now s v = elim (Option-cases (ready (get s.enrollments id) code now)) [
  | inl e ↦ rw (e, take_enrollment) v
  | inr (found, e) ↦
      rw (e, take_enrollment)
        (frame-Inv s (delete s.enrollments id) s.ceremonies s.claims s.record_updated_at
          v.ceremonies_plain v)
]

revoked_live :
    (account_id device_id : String) (devices : Dict RegisteredDevice) (a : AuthenticatedDevice)
    → NoColon account_id
    → NoColon a.account_id
    → get devices (device_key a.account_id a.device_id) ≢ none
    → (str_eq a.account_id account_id && str_eq a.device_id device_id) ≡ false
    → get (delete devices (device_key account_id device_id)) (device_key a.account_id a.device_id)
      ≢ none
revoked_live account_id device_id devices a plain plain' live other =
    let apart : device_key account_id device_id ≢ device_key a.account_id a.device_id = λ e.
      let (same, same') =
        join_injective account_id a.account_id device_id a.device_id plain plain' e in
      ground (arith, eq_iff a.account_id account_id, eq_iff a.device_id device_id) in
    ground (
      arith,
      get-delete devices (device_key account_id device_id) (device_key a.account_id a.device_id),
      eq_iff (device_key account_id device_id) (device_key a.account_id a.device_id),
      live,
    )

pub All-delete_both {ℓ} :
    {V : Type ℓ} (P Q : String → V → Type 0) (p : String → V → Bool) (m : Dict V)
    → ((k : String) (x : V) → P k x → p k x ≡ false → Q k x)
    → All (λ e. P e.0 e.1) m
    → All (λ e. Q e.0 e.1) (delete_where p m)
All-delete_both P Q p m f h =
    All-map _ _ (λ e b. f e.0 e.1 b.0 b.1) _
      (All-and _ _ _ (All-delete_where (λ e. P e.0 e.1) p m h) (delete_where_sound p m))

pub revoke_device-Inv :
    (account_id device_id : String) (s : Repository)
    → NoColon account_id
    → Inv s
    → Inv (revoke_device account_id device_id s)
unfolding revoke_device
revoke_device-Inv account_id device_id s plain v = record {
  bounded = v.bounded;
  distinct = v.distinct;
  keyed = v.keyed;
  named = All-delete (λ e. e.0 ≡ device_key e.1.account_id e.1.device_id) s.devices _ v.named;
  plain = All-delete (λ e. NoColon e.1.account_id) s.devices _ v.plain;
  live =
      All-delete_both
        (λ _ a. NoColon a.account_id × (get s.devices (device_key a.account_id a.device_id) ≢ none))
        (λ _ a.
          get (delete s.devices (device_key account_id device_id))
            (device_key a.account_id a.device_id)
          ≢ none)
        (is_of_device account_id device_id) s.tokens
        (λ _ a h other. revoked_live account_id device_id s.devices a plain h.0 h.1 other)
        (All-and _ _ s.tokens v.tokens_plain v.live);
  versioned = All-delete (λ e. get s.key_versions e.1.account_id ≢ none) s.devices _ v.versioned;
  unique = HasUniqueKeys-delete_where _ s.tokens v.unique;
  tokens_plain = All-delete_where (λ e. NoColon e.1.account_id) _ s.tokens v.tokens_plain;
  ceremonies_plain = v.ceremonies_plain;
  passkeys_plain = v.passkeys_plain;
  passkeys_versioned = v.passkeys_versioned;
}
