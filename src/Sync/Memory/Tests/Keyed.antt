-- ===== src/Sync/Memory/Tests/Keyed.antt =====
-- Account keys, clean-ups and deletions of services/sync/src/memoryRepository.ts on concrete values.
use locus_browser.Base.{
  ok, err, refl, ◌≡◌, ◌+◌, ◌⊎◌, List, [], ◌∷◌, get, set, delete, delete_where, colon_join, text_leb,
  has, set_size, All, Dict,
}
use locus_browser.Sync.Models.{AccountKeyWrap, OpaqueSyncRecord, RegisteredDevice}
use locus_browser.Sync.Memory.State.{Repository, Error, key_version_changed, incomplete_rotation}
use locus_browser.Sync.Memory.Devices.{enroll_token, or_zero}
use locus_browser.Sync.Memory.Records.{
  push, push_each, offer, store, is_foreign, is_current, delete_records, forget_times,
}
use locus_browser.Sync.Memory.Keys.{
  rotate_account_key, initialize_account_key, install_each, install, store_each,
  is_complete_wrap_set, is_complete_rotation,
}
use locus_browser.Sync.Memory.Keys.Install.{Holds}
use locus_browser.Sync.Memory.Keys.Setup.{initialize_account_key_lem}
use locus_browser.Sync.Memory.Keys.Rotated.{rotate_account_key_atomic, push-rotate_account_key}
use locus_browser.Sync.Memory.Reach.{Reach-Inv}
use locus_browser.Sync.Memory.Invariant.{Inv}
use locus_browser.Sync.Memory.Tests.Data.{
  laptop, renamed, theme, batch, enrolled_both, stored, stored-Reach, stored-Inv, enrolled-Inv,
  ada-NoColon,
}

abbrev wraps : List AccountKeyWrap
wraps = record { device_id = "laptop"; wrapped_account_key = "wrapped" } ∷ []

abbrev encrypted_again : List OpaqueSyncRecord
encrypted_again =
    record renamed { ciphertext = "third" } ∷ record theme { ciphertext = "fourth" } ∷ []

abbrev rotated : Repository
rotated = (rotate_account_key laptop 1 2 wraps encrypted_again 50 stored).1

rotation_ended : rotate_account_key laptop 1 2 wraps encrypted_again 50 stored ≡ (ok 5, rotated)
unfolding rotate_account_key install_each install store_each is_complete_wrap_set
    is_complete_rotation delete_records forget_times delete_where delete has set_size push push_each
    offer store is_foreign is_current enroll_token colon_join get set text_leb
rotation_ended = refl

push-rotate_account_key_example :
    push laptop 1 batch 60 rotated ≡ (err key_version_changed, rotated)
push-rotate_account_key_example =
    push-rotate_account_key laptop 1 2 wraps encrypted_again 50 stored ada-NoColon stored-Inv
      rotated 5 60 laptop batch refl rotation_ended

-- A record is missing.
rotation_failed :
    rotate_account_key laptop 1 2 wraps [] 50 stored ≡ (err incomplete_rotation, stored)
unfolding rotate_account_key install_each install store_each is_complete_wrap_set
    is_complete_rotation delete_records forget_times delete_where delete has set_size push push_each
    offer store is_foreign is_current enroll_token colon_join get set text_leb
rotation_failed = refl

rotate_account_key_atomic_example : stored ≡ stored
rotate_account_key_atomic_example =
    rotate_account_key_atomic laptop 1 2 wraps [] 50 stored ada-NoColon stored-Inv stored
      incomplete_rotation rotation_failed

initialize_account_key_lem_example :
    let r = initialize_account_key "ada" 1 2 wraps enrolled_both in
    ((e : Error) × (r ≡ (err e, enrolled_both)))
    ⊎ ((ds : Dict RegisteredDevice) × (or_zero (get enrolled_both.key_versions "ada") ≡ 1)
        × (2 ≡ 1 + 1)
        × (r ≡ (
          ok tt,
          record enrolled_both {
            key_versions = set enrolled_both.key_versions "ada" 2;
            devices = ds;
          },
        ))
        × All (Holds "ada" 2 ds) wraps)
initialize_account_key_lem_example =
    initialize_account_key_lem "ada" 1 2 wraps enrolled_both ada-NoColon enrolled-Inv

Reach-Inv_example : Inv stored
Reach-Inv_example = Reach-Inv stored-Reach
