-- ===== src/Sync/Manager/Verifier.antt =====
-- apps/desktop/src/main/SyncKeyVerifier.ts, and `#verifyRecoveredAccountKey` of SyncAccountManager.ts: whether a
-- key is the key of an account.
use locus_browser.Base.{
  ℕ, zero, suc, ◌==◌, String, Bool, true, false, not, ◌&&◌, leb, Option, none, some, List, [], ◌∷◌,
  length, every, Result, ok, err, raise, ◌>>=◌, ◌>>◌, from_result, throw_if, str_eq, if◌then◌else◌,
}
use locus_browser.Sync.Models.{Collection, settings}
use locus_browser.Sync.Requests.Checks.{clock_text}
use locus_browser.Sync.Manager.{
  EncryptedRecord, PullPage, VerifierValue, Device, SyncService, Managing, get_page, ask,
}

abbrev pub verifier_record_id : String
verifier_record_id = "locus-account-key-verifier-v1"

abbrev is_settings : Collection → Bool
is_settings settings = true
is_settings _ = false

abbrev passes_text : Option (Unit {0}) → Bool
passes_text none = false
passes_text (some u) = true

-- `EncryptedRecordSchema` of packages/sync-crypto/src/records.ts.
unfoldable pub encrypted_record : EncryptedRecord → Bool
encrypted_record r =
    r.version == 1
    && not (str_eq r.account_id "")
    && not (str_eq r.device_id "")
    && not (str_eq r.record_id "")
    && passes_text (clock_text r.clock)
    && not (str_eq r.nonce "")
    && not (str_eq r.ciphertext "")

-- Whether a record is a verifier.
unfoldable pub is_verifier : EncryptedRecord → Bool
is_verifier r = is_settings r.collection && str_eq r.record_id verifier_record_id && not r.tombstone

unfoldable pub find_verifier : List EncryptedRecord → Option EncryptedRecord
find_verifier [] = none
find_verifier (r ∷ records) = if is_verifier r then some r else find_verifier records

-- `SyncKeyVerifierValueSchema`.
unfoldable pub verifier_value : Option VerifierValue → Bool
verifier_value none = false
verifier_value (some v) = str_eq v.purpose "locus-account-key" && v.version == 1

unfoldable pub assert_sync_key_verifier :
    Device → String → EncryptedRecord → Result String (Unit {0})
assert_sync_key_verifier d account_key r =
    if not (encrypted_record r)
    then err "Invalid record"
    else if not (is_verifier r)
    then err "Sync account key verifier is invalid"
    else if verifier_value (d.decrypt_record account_key r)
    then ok tt
    else err "The recovery key does not match this sync account"

abbrev pub no_verifier : String
no_verifier = "This sync account has no recovery-key verifier"

-- What a page leads to: the check of its verifier, the next page, or an error.
unfoldable pub next_page : PullPage → ℕ → Managing (Unit {0}) → Managing (Unit {0})
next_page pulled cursor rest =
    if not pulled.has_more
    then raise no_verifier
    else if leb pulled.cursor cursor
    then raise "Sync service returned a non-advancing cursor"
    else rest

unfoldable pub check_page :
    Device → String → Option EncryptedRecord → Managing (Unit {0}) → Managing (Unit {0})
check_page d account_key none rest = rest
check_page d account_key (some r) rest = from_result (assert_sync_key_verifier d account_key r)

-- `PullResponseSchema`.
unfoldable pub page_schema : PullPage → Bool
page_schema pulled = leb (length pulled.records) 500 && every (λ r. r.version == 1) pulled.records

module _ (d : Device) (service : SyncService) where
  -- The loop, with the rounds that are left.
  unfoldable pub verify_pages : ℕ → ℕ → String → String → Managing (Unit {0})
  unfolding page_schema check_page next_page find_verifier
  verify_pages zero cursor token account_key = raise no_verifier
  verify_pages (suc pages) cursor token account_key = do
    pulled ← ask service.page (get_page cursor token)
    throw_if (not (page_schema pulled)) "Invalid response"
    let rest = verify_pages pages pulled.cursor token account_key
    check_page d account_key (find_verifier pulled.records) (next_page pulled cursor rest)

  unfoldable pub verify_recovered_account_key : String → String → Managing (Unit {0})
  unfolding verify_pages
  verify_recovered_account_key token account_key = verify_pages 100 0 token account_key
