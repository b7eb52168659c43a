-- ===== src/Sync/Memory/Keys/Rotated.antt =====
-- The contract of `rotateAccountKey` (services/sync/src/memoryRepository.ts): all or nothing, and what
-- holds afterwards.
use locus_browser.Base.{
  IsSubset, ◌==◌, ℕ, ◌+◌, ◌≡◌, ◌≢◌, ◌∙◌, refl, sym, ap, subst, String, false, some, List, arith,
  get, Dict, get-set_self, NoColon, All, inl, inr, ok, err,
}
use locus_browser.Sync.Models.{
  AuthenticatedDevice, OpaqueSyncRecord, RegisteredDevice, AccountKeyWrap,
}
use locus_browser.Sync.Memory.State.{Repository, Error, key_version_changed, device_key, stored_key}
use locus_browser.Sync.Memory.Invariant.{Inv}
use locus_browser.Sync.Memory.Devices.{account_devices}
use locus_browser.Sync.Memory.Devices.Keeps.{same_device-Inv}
use locus_browser.Sync.Memory.Records.{push}
use locus_browser.Sync.Memory.Records.Deletion.{delete_records_isolated}
use locus_browser.Sync.Memory.Keys.{
  device_ids, wrap_ids, with_key, install_each, rotate_account_key, existing_keys, replacement_keys,
}
use locus_browser.Sync.Memory.Keys.Stored.{IsStored, store_each-IsStored, is_complete_rotation_lem}
use locus_browser.Sync.Memory.Keys.Install.{is_complete_wrap_set_lem, Holds, install_complete}
use locus_browser.Sync.Memory.Keys.Rotation.{
  replaced, Accepts, rotate_cases, store_each_isolated, replaced-Inv, replaced_lem, replaced_origin,
  IsReplaced,
}

push_outdated :
    (author : AuthenticatedDevice) (expected version : ℕ) (batch : List OpaqueSyncRecord)
    (later : ℕ) (t : Repository)
    → get t.key_versions author.account_id ≡ some version
    → version ≢ expected
    → push author expected batch later t ≡ (err key_version_changed, t)
unfolding push
push_outdated author expected version batch later t found other =
    let differs : (version == expected) ≡ false = ground arith in rw (found, differs) refl

module _ (device : AuthenticatedDevice) (expected version : ℕ) (wraps : List AccountKeyWrap)
    (records : List OpaqueSyncRecord) (now : ℕ) (s : Repository) (plain : NoColon device.account_id)
    (v : Inv s) where
  -- A rotation that passes the checks ends well.
  rotate_accepted :
      Accepts device expected version wraps records s
      → let u = replaced device version records now s in
        (ds : Dict RegisteredDevice) × (install_each device.account_id version wraps u
          ≡ (ok tt, record u { devices = ds }))
        × Inv (record u { devices = ds })
        × All (Holds device.account_id version ds) wraps
  rotate_accepted a =
      let u = replaced device version records now s in
      let (same, _) = replaced_lem device version records now s in
      install_complete device.account_id version wraps u (λ ds. Inv (record u { devices = ds }))
        plain (rw same v.named) (rw same a.complete)
        (λ w ds d found h.
          same_device-Inv (record u { devices = ds }) (device_key device.account_id w.device_id) d
            (with_key version w.wrapped_account_key d) found refl refl h)
        (replaced-Inv device version records now s a.own v)

  -- Whether it returns or throws, a rotation keeps the invariant.
  pub rotate_account_key-Inv :
      Inv (rotate_account_key device expected version wraps records now s).1
  rotate_account_key-Inv = elim (rotate_cases device expected version wraps records now s) [
    | inl (e, failed) ↦ rw failed v
    | inr (a, ended) ↦ let (ds, installed, w, _) = rotate_accepted a in rw (ended, installed) w
  ]

  -- A rotation that throws has written nothing.
  pub rotate_account_key_atomic :
      (t : Repository) (e : Error)
      → rotate_account_key device expected version wraps records now s ≡ (err e, t)
      → t ≡ s
  rotate_account_key_atomic t e h =
      elim (rotate_cases device expected version wraps records now s) [
        | inl (f, failed) ↦ cc
        | inr (a, ended) ↦
            let (ds, installed, w, _) = rotate_accepted a in absurd (cc (rw installed at ended))
      ]

  rotate_result :
      (t : Repository) (cursor : ℕ)
      → rotate_account_key device expected version wraps records now s ≡ (ok cursor, t)
      → Accepts device expected version wraps records s
        × (ds : Dict RegisteredDevice) × (record (replaced device version records now s) {
          devices = ds;
        }
            ≡ t)
        × (cursor ≡ t.cursor)
        × All (Holds device.account_id version ds) wraps
  rotate_result t cursor h = elim (rotate_cases device expected version wraps records now s) [
    | inl (f, failed) ↦ absurd (cc)
    | inr (a, ended) ↦
        let (ds, installed, _, held) = rotate_accepted a in
        let done = sym (rw installed at ended) ∙ h in (a, ds, ap (λ x. x.1) done, cc, held)
  ]

  pub rotate_account_key_lem :
      (t : Repository) (cursor : ℕ) (b : String) (q : OpaqueSyncRecord)
      → NoColon b
      → device.account_id ≢ b
      → rotate_account_key device expected version wraps records now s ≡ (ok cursor, t)
      → (version ≡ expected + 1)
        × (get t.key_versions device.account_id ≡ some version)
        × IsSubset (device_ids (account_devices s device.account_id)) (wrap_ids wraps)
        × All (Holds device.account_id version t.devices) wraps
        × IsSubset (existing_keys s device.account_id) (replacement_keys records)
        × IsSubset (replacement_keys records) (existing_keys s device.account_id)
        × All (λ e. IsReplaced device.account_id records e.1) t.records
        × All (IsStored device.account_id records t.records) records
        × (get t.records (stored_key b q) ≡ get s.records (stored_key b q))
        × (t.cursor ≡ cursor)
  rotate_account_key_lem t cursor b q plain' other h =
      let (a, ds, same, last, held) = rotate_result t cursor h in
      let u = replaced device version records now s in
      let (_, covered, _) =
        is_complete_wrap_set_lem (account_devices s device.account_id) wraps a.complete in
      let named =
        is_complete_rotation_lem (existing_keys s device.account_id) (replacement_keys records)
          a.all_replaced in
      let isolated : get u.records (stored_key b q) ≡ get s.records (stored_key b q) =
        store_each_isolated device.account_id now records _ b q plain plain' other
        ∙ delete_records_isolated device.account_id b q s plain plain' other v in
      (
        a.next,
        subst (λ x. get x.key_versions device.account_id ≡ some version) same
            (get-set_self _ device.account_id version),
        covered,
        subst (λ x. All (Holds device.account_id version x.devices) wraps) same held,
        named.0,
        named.1,
        subst (λ x. All (λ e. IsReplaced device.account_id records e.1) x.records) same
            (replaced_origin device version records now s),
        subst (λ x. All (IsStored device.account_id records x.records) records) same
            (store_each-IsStored device.account_id now records _),
        subst (λ x. get x.records (stored_key b q) ≡ get s.records (stored_key b q)) same isolated,
        sym last,
      )

  -- After a rotation a client that still has the old key cannot push: it is told that the key
  -- version changed, and nothing is written.
  pub push-rotate_account_key :
      (t : Repository) (cursor later : ℕ) (author : AuthenticatedDevice)
      (batch : List OpaqueSyncRecord)
      → author.account_id ≡ device.account_id
      → rotate_account_key device expected version wraps records now s ≡ (ok cursor, t)
      → push author expected batch later t ≡ (err key_version_changed, t)
  push-rotate_account_key t cursor later author batch own h =
      let (a, ds, same, _, _) = rotate_result t cursor h in
      let moved : get t.key_versions author.account_id ≡ some version = rw own (
        subst (λ x. get x.key_versions device.account_id ≡ some version) same
          (get-set_self _ device.account_id version)) in
      push_outdated author expected version batch later t moved (omega (arith, a.next))
