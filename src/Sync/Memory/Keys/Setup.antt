-- ===== src/Sync/Memory/Keys/Setup.antt =====
-- The contracts of `initializeAccountKey`, `setDeviceWrappedKey` and `accountKeyState`
-- (services/sync/src/memoryRepository.ts).
use locus_browser.Base.{
  ℕ, ◌+◌, ◌≡◌, ◌∙◌, ◌⊎◌, refl, String, true, not, ◌||◌, ◌==◌, some, List, arith, get, set, Dict,
  get-set_self, NoColon, All, Option-cases, Bool-cases, inl, inr, ok, err, opt_eq, truthy,
  opt_eq_sound, ==_refl,
}
use locus_browser.Sync.Models.{RegisteredDevice, AccountKeyWrap}
use locus_browser.Sync.Memory.State.{
  Repository, Error, key_version_changed, device_unavailable, incomplete_wraps, device_key,
}
use locus_browser.Sync.Memory.Invariant.{Inv, set_version-Inv}
use locus_browser.Sync.Memory.Devices.{account_devices, or_zero}
use locus_browser.Sync.Memory.Devices.Keeps.{same_device-Inv}
use locus_browser.Sync.Memory.Keys.{
  account_key_state, with_key, install_each, set_key_version, is_complete_wrap_set,
  initialize_account_key, set_device_wrapped_key,
}
use locus_browser.Sync.Memory.Keys.Install.{Holds, install_complete}

-- Both checks pass, or the method throws at once.
initialize_cases :
    (account_id : String) (expected version : ℕ) (wraps : List AccountKeyWrap) (s : Repository)
    → ((e : Error) × (initialize_account_key account_id expected version wraps s ≡ (err e, s)))
      ⊎ ((version ≡ expected + 1)
          × (or_zero (get s.key_versions account_id) ≡ expected)
          × (is_complete_wrap_set (account_devices s account_id) wraps ≡ true)
          × (initialize_account_key account_id expected version wraps s
              ≡ install_each account_id version wraps (set_key_version account_id version s)))
unfolding initialize_account_key
initialize_cases account_id expected version wraps s =
    elim (Bool-cases (
      not (or_zero (get s.key_versions account_id) == expected) || not (version == expected + 1))) [
        | inl e ↦ inl (key_version_changed, rw e refl)
        | inr e ↦ elim (Bool-cases (is_complete_wrap_set (account_devices s account_id) wraps)) [
          | inr f ↦ inl (incomplete_wraps, rw (e, f) refl)
          | inl f ↦ inr (ground arith, ground arith, f, rw (e, f) refl)
        ]
      ]

module _ (account_id : String) (expected version : ℕ) (wraps : List AccountKeyWrap) (s : Repository)
    (plain : NoColon account_id) (v : Inv s) where
  initialize_accepted :
      is_complete_wrap_set (account_devices s account_id) wraps ≡ true
      → let u = set_key_version account_id version s in
        (ds : Dict RegisteredDevice) × (install_each account_id version wraps u
          ≡ (ok tt, record u { devices = ds }))
        × Inv (record u { devices = ds })
        × All (Holds account_id version ds) wraps
  initialize_accepted complete =
      let u = set_key_version account_id version s in
      install_complete account_id version wraps u (λ ds. Inv (record u { devices = ds })) plain
        v.named complete
        (λ w ds d found h.
          same_device-Inv (record u { devices = ds }) (device_key account_id w.device_id) d
            (with_key version w.wrapped_account_key d) found refl refl h)
        (set_version-Inv s account_id version v)

  pub initialize_account_key-Inv :
      Inv (initialize_account_key account_id expected version wraps s).1
  initialize_account_key-Inv = elim (initialize_cases account_id expected version wraps s) [
    | inl (e, failed) ↦ rw failed v
    | inr (_, _, complete, ended) ↦
        let (ds, installed, w, _) = initialize_accepted complete in rw (ended, installed) w
  ]

  -- The first account key either throws and writes nothing, or moves the account from the expected
  -- version to the next one and every wrap is installed at its device; nothing but devices and key
  -- versions changes.
  pub initialize_account_key_lem :
      let r = initialize_account_key account_id expected version wraps s in
      ((e : Error) × (r ≡ (err e, s)))
      ⊎ ((ds : Dict RegisteredDevice) × (or_zero (get s.key_versions account_id) ≡ expected)
          × (version ≡ expected + 1)
          × (r ≡ (
            ok tt,
            record s { key_versions = set s.key_versions account_id version; devices = ds },
          ))
          × All (Holds account_id version ds) wraps)
  initialize_account_key_lem = elim (initialize_cases account_id expected version wraps s) [
    | inl failed ↦ inl failed
    | inr (next, current, complete, ended) ↦
        let (ds, installed, _, held) = initialize_accepted complete in
        inr (ds, current, next, ended ∙ installed, held)
  ]

pub set_key_cases :
    (account_id device_id : String) (version : ℕ) (wrapped : String) (s : Repository)
    → ((e : Error) × (set_device_wrapped_key account_id device_id version wrapped s ≡ (err e, s)))
      ⊎ ((d : RegisteredDevice) × (get s.key_versions account_id ≡ some version)
          × (get s.devices (device_key account_id device_id) ≡ some d)
          × (set_device_wrapped_key account_id device_id version wrapped s ≡ (
            ok tt,
            record s {
              devices =
                  set s.devices (device_key account_id device_id) (with_key version wrapped d);
            },
          )))
unfolding set_device_wrapped_key
set_key_cases account_id device_id version wrapped s =
    elim (Bool-cases (opt_eq (get s.key_versions account_id) (some version))) [
      | inr e ↦ inl (key_version_changed, rw e refl)
      | inl e ↦ elim (Option-cases (get s.devices (device_key account_id device_id))) [
        | inl f ↦ inl (device_unavailable, rw (e, f) refl)
        | inr (d, f) ↦
            inr (d, opt_eq_sound (get s.key_versions account_id) version e, f, rw (e, f) refl)
      ]
    ]

pub set_device_wrapped_key-Inv :
    (account_id device_id : String) (version : ℕ) (wrapped : String) (s : Repository)
    → Inv s
    → Inv (set_device_wrapped_key account_id device_id version wrapped s).1
set_device_wrapped_key-Inv account_id device_id version wrapped s v =
    elim (set_key_cases account_id device_id version wrapped s) [
      | inl (e, failed) ↦ rw failed v
      | inr (d, _, found, ended) ↦ rw ended (
          same_device-Inv s (device_key account_id device_id) d (with_key version wrapped d) found
            refl refl v)
    ]

-- After a wrapped key was set for a device, the device is told that key and its version; setting it
-- succeeds for the account's current version and a device of the account, and otherwise changes nothing.
pub account_key_state-set_device_wrapped_key :
    (account_id device_id : String) (version : ℕ) (wrapped : String) (s : Repository)
    → truthy (some wrapped) ≡ true
    → let r = set_device_wrapped_key account_id device_id version wrapped s in
      ((e : Error) × (r ≡ (err e, s)))
      ⊎ ((get s.key_versions account_id ≡ some version)
          × (r.0 ≡ ok tt)
          × (account_key_state account_id device_id r.1
              ≡ (ok (record { version = version; wrapped_account_key = some wrapped }), r.1)))
unfolding account_key_state
account_key_state-set_device_wrapped_key account_id device_id version wrapped s filled =
    elim (set_key_cases account_id device_id version wrapped s) [
      | inl failed ↦ inl failed
      | inr (d, current, found, ended) ↦
          let here =
            get-set_self s.devices (device_key account_id device_id) (with_key version wrapped d) in
          inr
            (current, rw ended refl, rw (ended, here, current, filled) (rw (==_refl version) refl))
    ]
