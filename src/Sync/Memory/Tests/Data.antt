-- ===== src/Sync/Memory/Tests/Data.antt =====
-- Two accounts, their first devices and a few records, for the tests of
-- services/sync/src/memoryRepository.ts.
use locus_browser.Base.{◌≢◌, refl, false, List, [], ◌∷◌, arith, str_ne, NoColon}
use locus_browser.Sync.Models.{AuthenticatedDevice, OpaqueSyncRecord, bookmarks, settings}
use locus_browser.Sync.Memory.State.{Repository, empty}
use locus_browser.Sync.Memory.Invariant.{Inv}
use locus_browser.Sync.Memory.Devices.{enroll_token}
use locus_browser.Sync.Memory.Records.{push}
use locus_browser.Sync.Memory.Reach.{Reach, start, next, enrolled, pushed, Reach-Inv}

abbrev pub laptop : AuthenticatedDevice
laptop = record { account_id = "ada"; device_id = "laptop" }

abbrev pub phone : AuthenticatedDevice
phone = record { account_id = "bob"; device_id = "phone" }

pub ada-NoColon : NoColon "ada"
ada-NoColon = (omega arith, (omega arith, (omega arith, tt)))

pub bob-NoColon : NoColon "bob"
bob-NoColon = (omega arith, (omega arith, (omega arith, tt)))

pub ada≢bob : laptop.account_id ≢ phone.account_id
ada≢bob = str_ne laptop.account_id phone.account_id refl

abbrev pub bookmark : OpaqueSyncRecord
bookmark = record {
  version = 1;
  account_id = "ada";
  device_id = "laptop";
  collection = bookmarks;
  record_id = "b1";
  clock = "0000000000005-000000-laptop";
  nonce = "nonce";
  ciphertext = "first";
  tombstone = false;
  size = 4;
}

abbrev pub renamed : OpaqueSyncRecord
renamed = record bookmark { clock = "0000000000006-000000-laptop"; ciphertext = "second" }

abbrev pub theme : OpaqueSyncRecord
theme = record bookmark { collection = settings; record_id = "theme" }

abbrev pub batch : List OpaqueSyncRecord
batch = bookmark ∷ renamed ∷ theme ∷ []

abbrev pub enrolled_both : Repository
enrolled_both = enroll_token "phone-hash" phone 20 (enroll_token "laptop-hash" laptop 10 empty)

abbrev pub stored : Repository
stored = (push laptop 1 batch 30 enrolled_both).1

pub enrolled-Reach : Reach enrolled_both
enrolled-Reach =
    next (next start (enrolled "laptop-hash" laptop 10 ada-NoColon))
      (enrolled "phone-hash" phone 20 bob-NoColon)

pub stored-Reach : Reach stored
stored-Reach = next enrolled-Reach (pushed laptop 1 batch 30)

pub enrolled-Inv : Inv enrolled_both
enrolled-Inv = Reach-Inv enrolled-Reach

pub stored-Inv : Inv stored
stored-Inv = Reach-Inv stored-Reach

abbrev pub bobs : OpaqueSyncRecord
bobs = record bookmark { account_id = "bob"; device_id = "phone" }

abbrev pub shared : Repository
shared = (push phone 1 (bobs ∷ []) 40 stored).1

pub shared-Inv : Inv shared
shared-Inv = Reach-Inv (next stored-Reach (pushed phone 1 (bobs ∷ []) 40))
