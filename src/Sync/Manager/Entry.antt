-- ===== src/Sync/Manager/Entry.antt =====
-- apps/desktop/src/main/SyncAccountManager.ts: the methods that start a connection of the profile or end it. The
-- window and the timers are not part of the state: a call that finds one is told so by its argument.
use locus_browser.Base.{
  String, Bool, not, ◌||◌, Option, none, some, [], Result, modify, gets, ◌>>=◌, ◌>>◌, from_result,
  throw_if,
}
use locus_browser.Sync.Models.{CeremonyKind, registration, authentication}
use locus_browser.Sync.Manager.{
  SyncManager, Device, SyncService, Managing, connecting, StoredSyncAccount, catching,
}
use locus_browser.Sync.Manager.Urls.{normalize_service_url}
use locus_browser.Sync.Manager.Ceremony.{
  CeremonyDraws, new_ceremony, complete_ceremony, clear_transient, handle_error,
}
use locus_browser.Sync.Manager.Enrollment.{is_connecting, is_present}

module _ (d : Device) (service : SyncService) where
  -- `#begin`, with the ceremony that it starts carried through; `window` tells whether there is a ceremony
  -- window already.
  unfoldable pub begin_ceremony :
      CeremonyKind
      → String
      → Option String
      → Option String
      → Bool
      → CeremonyDraws
      → Managing (Unit {0})
  unfolding normalize_service_url new_ceremony complete_ceremony handle_error catching
  begin_ceremony kind raw_service_url display_name recovered window draws = do
    status ← gets (λ s. s.transient_status)
    pending ← gets (λ s. s.pending_enrollment)
    throw_if (is_connecting status || window || is_present pending)
        "Another sync connection request is already active"
    throw_if (not d.cipher_available) "OS-backed sync-key encryption is unavailable"
    service_url ← from_result (normalize_service_url d raw_service_url)
    modify (λ s. record s {
      transient_status = some connecting;
      transient_service_url = some service_url;
      last_error = none;
    })
    catching
        (complete_ceremony d service kind display_name
          (new_ceremony d kind service_url recovered draws) draws.callback)
        (λ error. modify (handle_error error))

  unfoldable pub begin_registration : String → String → Bool → CeremonyDraws → Managing (Unit {0})
  unfolding begin_ceremony
  begin_registration display_name raw_service_url window draws = do
    connected ← gets (λ s. is_present s.account)
    throw_if connected "This profile is already connected to sync"
    begin_ceremony registration raw_service_url (some display_name) none window draws

  -- With the account key that the recovery key stands for, if it is one.
  unfoldable pub begin_sign_in :
      Result String String → String → Bool → CeremonyDraws → Managing (Unit {0})
  unfolding begin_ceremony
  begin_sign_in recovered raw_service_url window draws = do
    connected ← gets (λ s. is_present s.account)
    throw_if connected "This profile is already connected to sync"
    account_key ← from_result recovered
    begin_ceremony authentication raw_service_url none (some account_key) window draws

abbrev end_unless : Option StoredSyncAccount → SyncManager → SyncManager
end_unless none s = clear_transient s
end_unless (some account) s = s

unfoldable pub cancel_device_enrollment : SyncManager → SyncManager
cancel_device_enrollment s = end_unless s.account (record s { pending_enrollment = none })

unfoldable pub disconnect : SyncManager → SyncManager
disconnect s =
    clear_transient (record s { account = none; pending_enrollment = none; devices = [] })
