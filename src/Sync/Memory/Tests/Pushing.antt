-- ===== src/Sync/Memory/Tests/Pushing.antt =====
-- Pushes, pulls and deletions of services/sync/src/memoryRepository.ts on concrete records.
use locus_browser.Base.{
  ok, refl, ◌≡◌, colon_join, get, set, text_leb, ◌≢◌, some, none, true, ◌⊎◌, Any, All, length, ◌↔◌,
  ◌++◌, [], min, every, take, ◌<◌, keep, arith, ltb, if◌then◌else◌,
}
use locus_browser.Sync.Models.{CursorRecord}
use locus_browser.Sync.Memory.State.{stored_key}
use locus_browser.Sync.Memory.Records.{push, push_each, offer, store, is_foreign, is_current}
use locus_browser.Sync.Memory.Devices.{enroll_token}
use locus_browser.Sync.Memory.Records.{available, pull}
use locus_browser.Sync.Memory.Records.Merge.{push_newest, push_again, IsOutdone}
use locus_browser.Sync.Memory.Records.Delivery.{push_delivers, IsDelivered}
use locus_browser.Sync.Memory.Records.Paging.{pull_lem}
use locus_browser.Sync.Client.Pulling.{SyncProgress, pull_loop, pull_loop_ends}
use locus_browser.Sync.Client.{
  pull_all_records_lem, pull_all_records, pages_of, page_size, failed, found, scan_too_large,
  invalid_record, is_encrypted,
}
use locus_browser.Sync.Memory.Tests.Data.{
  enrolled-Inv, stored-Inv, laptop, batch, enrolled_both, stored, renamed,
}

pushed_batch :
    push laptop 1 batch 30 enrolled_both ≡ (ok (record { cursor = 3; accepted = 3 }), stored)
unfolding push push_each offer store is_foreign is_current enroll_token colon_join get set text_leb
pushed_batch = refl

stored_renamed :
    get stored.records "ada:bookmarks:b1" ≡ some (record { body = renamed; cursor = 2 })
unfolding push push_each offer store is_foreign is_current enroll_token colon_join get set text_leb
stored_renamed = refl

push_newest_example :
    let e : CursorRecord = record { body = renamed; cursor = 2 } in
    ((get enrolled_both.records "ada:bookmarks:b1" ≡ some e)
      ⊎ Any (λ r. (stored_key "ada" r ≡ "ada:bookmarks:b1") × (r ≡ renamed)) batch)
    × All (IsOutdone "ada" "ada:bookmarks:b1" e) batch
    × ((get enrolled_both.records "ada:bookmarks:b1" ≡ none)
        ⊎ ((old : CursorRecord) × (get enrolled_both.records "ada:bookmarks:b1" ≡ some old)
            × (text_leb old.clock renamed.clock ≡ true)))
push_newest_example =
    push_newest laptop 1 batch 30 enrolled_both stored (record { cursor = 3; accepted = 3 })
      "ada:bookmarks:b1" (record { body = renamed; cursor = 2 }) pushed_batch stored_renamed

push_again_example :
    push laptop 1 batch 40 stored ≡ (ok (record { cursor = stored.cursor; accepted = 0 }), stored)
push_again_example =
    push_again laptop 1 batch 30 40 enrolled_both stored (record { cursor = 3; accepted = 3 })
      pushed_batch

push_delivers_example : All (IsDelivered enrolled_both stored "ada") batch
push_delivers_example =
    push_delivers laptop 1 batch 30 enrolled_both stored (record { cursor = 3; accepted = 3 })
      enrolled-Inv pushed_batch

pull_lem_example :
    let page = pull stored "ada" 0 1 in
    (page.records ++ available stored "ada" page.cursor ≡ available stored "ada" 0)
    × (length page.records ≡ min 1 (length (available stored "ada" 0)))
    × ((page.has_more ≡ true) ↔ (available stored "ada" page.cursor ≢ []))
pull_lem_example = pull_lem stored "ada" 0 1 stored-Inv

pull_all_records_lem_example : pull_all_records (pages_of stored "ada" page_size) ≡ (
    if every is_encrypted (take 50000 (available stored "ada" 0))
    then (if ltb 50000 (length (available stored "ada" 0))
        then failed scan_too_large
        else found (available stored "ada" 0))
    else failed invalid_record)
pull_all_records_lem_example = pull_all_records_lem stored "ada" stored-Inv

few_left : length (available stored "ada" 0) < 9
unfolding available push get enroll_token set push_each is_foreign offer colon_join text_leb
few_left = omega arith

pull_loop_ends_example :
    (end : SyncProgress) × (pull_loop
        (pages_of stored "ada" page_size)
        (λ r. true)
        9
        (record { cursor = 0; applied = [] })
      ≡ some end)
    × (end.applied ≡ [] ++ keep (λ r. true) (available stored "ada" 0))
    × (available stored "ada" end.cursor ≡ [])
pull_loop_ends_example =
    pull_loop_ends stored "ada" (λ r. true) 9 (record { cursor = 0; applied = [] }) stored-Inv
      few_left
