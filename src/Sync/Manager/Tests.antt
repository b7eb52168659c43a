-- ===== src/Sync/Manager/Tests.antt =====
-- The manager against a service that answers kindly.
use locus_browser.Base.{ℕ, ◌≡◌, refl, String, Option, none, some, List, [], ◌∷◌, Result, ok, err}
use locus_browser.Base.Patterns.{utf16_length}
use locus_browser.Sync.Models.{registration, authentication}
use locus_browser.Sync.Requests.Checks.{clock_text}
use locus_browser.Sync.Manager.{
  SyncManager, delete_account, delete_device, ask, put_first_key, ClaimedPasskey,
}
use locus_browser.Sync.Manager.Verifier.{
  page_schema, verify_recovered_account_key, assert_sync_key_verifier, encrypted_record,
  is_verifier, verifier_value,
}
use locus_browser.Sync.Manager.Ceremony.{
  devices_schema, complete_ceremony, establish, establish_or_roll_back,
}
use locus_browser.Sync.Manager.Enrollment.{claim_device_enrollment, refresh_account_key}
use locus_browser.Sync.Manager.Saved.{CeremonyOutcome, complete_ceremony-account}
use locus_browser.Sync.Manager.Enrolled.{
  EnrollmentOutcome, RefreshOutcome, claim_device_enrollment-account, refresh_account_key-account,
}
use locus_browser.Sync.Manager.Tests.Data.{
  kind_service, keyless_service, laptop, signing_in, enrolling, idle, old_account,
}
mod Data

-- A sign-in connects the profile.
abbrev connected_version : Option ℕ
connected_version =
    elim ((complete_ceremony laptop kind_service authentication none signing_in (ok ("i", "c"))
      idle).1.account) [ none ↦ none | some account ↦ some account.key_version ]

signs_in : connected_version ≡ some 2
unfolding complete_ceremony establish page_schema devices_schema verify_recovered_account_key
    assert_sync_key_verifier encrypted_record clock_text is_verifier verifier_value ask utf16_length
signs_in = refl

complete_ceremony-account_example :
    CeremonyOutcome laptop kind_service none authentication signing_in
      (complete_ceremony laptop kind_service authentication none signing_in
        (ok ("i", "c"))
        idle).1.account
complete_ceremony-account_example =
    complete_ceremony-account laptop kind_service authentication none signing_in (ok ("i", "c"))
      idle

abbrev waiting : SyncManager
waiting = record idle { pending_enrollment = some enrolling }

claim_device_enrollment-account_example :
    EnrollmentOutcome laptop kind_service 10 waiting
      (claim_device_enrollment laptop kind_service 10 waiting).1.account
claim_device_enrollment-account_example =
    claim_device_enrollment-account laptop kind_service 10 waiting

abbrev linked : SyncManager
linked = record idle { account = some old_account }

refresh_account_key-account_example :
    RefreshOutcome laptop kind_service old_account
      (refresh_account_key laptop kind_service old_account "t" linked).1.account
refresh_account_key-account_example =
    refresh_account_key-account laptop kind_service old_account "t" linked refl
