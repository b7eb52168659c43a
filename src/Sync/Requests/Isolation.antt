-- ===== src/Sync/Requests/Isolation.antt =====
-- A device of one account cannot touch the records of another through any route of
-- services/sync/src/requestHandler.ts.
pub mod Records
use locus_browser.Base.{
  ℕ, ◌≡◌, ◌≢◌, ◌∙◌, refl, ap, String, Bool, false, Option, none, some, List, Result, ok, err,
  NoColon, Dict, get, get-All, get-delete_where_keeps, Option-cases, Bool-cases, inl, inr, sym,
  subst, arith,
}
use locus_browser.Base.Keeps.{Keeps, Ends}
use locus_browser.Sync.Models.{
  AuthenticatedDevice, OpaqueSyncRecord, CursorRecord, AccountKeyWrap, StoredPasskey,
  RegisteredDevice, CeremonyKind,
}
use locus_browser.Sync.Memory.State.{Repository, Error, stored_key}
use locus_browser.Sync.Memory.Invariant.{Inv}
use locus_browser.Sync.Memory.Records.{push, delete_records, delete_cloud_data}
use locus_browser.Sync.Memory.Records.Isolation.{push_isolated}
use locus_browser.Sync.Memory.Records.Deletion.{delete_records_isolated}
use locus_browser.Sync.Memory.Devices.{
  revoke_device, create_enrollment, authenticate, approve, approve_enrollment, take_enrollment,
  deliver, ready, touch,
}
use locus_browser.Sync.Memory.Devices.Keeps.{authenticate-Inv}
use locus_browser.Sync.Memory.Passkeys.Keeps.{consume_passkey_ceremony-Inv}
use locus_browser.Sync.Memory.Passkeys.{
  create_passkey_ceremony, create_passkey_claim, consume_passkey_ceremony, consume, of_kind,
  passkey_ceremony, create_account_with_passkey, sign_in, authenticate_with_passkey,
  take_passkey_claim, deliver_claim, claimable,
}
use locus_browser.Sync.Memory.Keys.{
  initialize_account_key, set_device_wrapped_key, rotate_account_key,
}
use locus_browser.Sync.Memory.Keys.Setup.{initialize_account_key_lem, set_key_cases}
use locus_browser.Sync.Memory.Account.{cleanup_expired, is_old_tombstone}
use locus_browser.Sync.Memory.Account.Deleting.{delete_account_isolated}
use locus_browser.Sync.Requests.Values.{Request, Platform, Draws}
use locus_browser.Sync.Requests.Support.{bearer_token}
use locus_browser.Sync.Requests.Handler.{fetch}
use locus_browser.Sync.Requests.Rules.{Rules}
use locus_browser.Sync.Requests.Keeping.Requests.{fetch_keeps}
use locus_browser.Sync.Requests.Isolation.Records.{
  authenticate-records, approve_enrollment-records, take_enrollment-records, consume-records,
  create_account-records, authenticate_with_passkey-records, take_passkey_claim-records,
  initialize_account_key-records, set_device_wrapped_key-records, rotate_account_key_isolated,
}
use locus_browser.Sync.Requests.Sound.{Inv-Rules, authenticate-Ends, consume_passkey_ceremony-Ends}

-- A record of the account `b` that is no tombstone stands under its key.
abbrev Stands : String → OpaqueSyncRecord → CursorRecord → Repository → Type 0
Stands b q r s = Inv s × (get s.records (stored_key b q) ≡ some r)

abbrev pub IsOther : String → AuthenticatedDevice → Type 0
IsOther b d = NoColon d.account_id × (d.account_id ≢ b)

cleanup_stands :
    (b : String) (q : OpaqueSyncRecord) (r : CursorRecord) (now : ℕ) (s : Repository)
    → r.tombstone ≡ false
    → get s.records (stored_key b q) ≡ some r
    → get (cleanup_expired now s).records (stored_key b q) ≡ some r
unfolding cleanup_expired delete_records
cleanup_stands b q r now s alive h =
    get-delete_where_keeps (is_old_tombstone now s.record_updated_at) s.records (stored_key b q) r h
      (rw alive refl)

module _ (b : String) (q : OpaqueSyncRecord) (r : CursorRecord) (plain' : NoColon b)
    (alive : r.tombstone ≡ false) where
  abbrev key : String
  key = stored_key b q

  -- A call that leaves the records alone, and keeps the invariant.
  kept : (s t : Repository) → Inv t → t.records ≡ s.records → Stands b q r s → Stands b q r t
  kept s t w same i = (w, ap (λ (m : Dict CursorRecord). get m key) same ∙ i.1)

  Stands-Rules : Rules (Stands b q r) (IsOther b)
  unfolding delete_cloud_data revoke_device create_enrollment create_passkey_ceremony
      create_passkey_claim
  Stands-Rules = record {
    cleaned = λ now s i. (Inv-Rules.cleaned now s i.0, cleanup_stands b q r now s alive i.1);
    pushed = λ d version records now o s i. (
      Inv-Rules.pushed d version records now o.0 s i.0,
      push_isolated d version records now s b q o.0 plain' o.1 ∙ i.1,
    );
    cloud_data_deleted = λ d o s i. (
      Inv-Rules.cloud_data_deleted d o.0 s i.0,
      delete_records_isolated d.account_id b q s o.0 plain' o.1 i.0 ∙ i.1,
    );
    key_initialized = λ d expected version wraps o s i.
        kept s _ (Inv-Rules.key_initialized d expected version wraps o.0 s i.0)
          (initialize_account_key-records d.account_id expected version wraps s o.0 i.0) i;
    key_wrapped = λ d version wrapped o s i.
        kept s _ (Inv-Rules.key_wrapped d version wrapped o.0 s i.0)
          (set_device_wrapped_key-records d.account_id d.device_id version wrapped s) i;
    key_rotated = λ d expected version wraps records now o s i. (
      Inv-Rules.key_rotated d expected version wraps records now o.0 s i.0,
      rotate_account_key_isolated d expected version wraps records now s b q o.0 plain' o.1 i.0
          ∙ i.1,
    );
    device_revoked = λ d id o s i. kept s _ (Inv-Rules.device_revoked d id o.0 s i.0) refl i;
    account_deleted = λ d o s i. (
      Inv-Rules.account_deleted d o.0 s i.0,
      (delete_account_isolated d.account_id b "" "" q s o.0 plain' o.1 i.0).0 ∙ i.1,
    );
    enrollment_created = λ e s i. kept s _ (Inv-Rules.enrollment_created e s i.0) refl i;
    enrollment_approved = λ d id code wrapped token hash now o s i.
        kept s _ (Inv-Rules.enrollment_approved d id code wrapped token hash now o.0 s i.0)
          (approve_enrollment-records d.account_id id code wrapped token hash now s) i;
    enrollment_taken = λ id code now s i.
        kept s _ (Inv-Rules.enrollment_taken id code now s i.0)
          (take_enrollment-records id code now s) i;
    ceremony_created = λ c plain s i. kept s _ (Inv-Rules.ceremony_created c plain s i.0) refl i;
    ceremony_consumed = λ id kind now. record {
      at = λ s i.
          consume_passkey_ceremony-Ends (Stands b q r) id kind now s
            (kept s _ (consume_passkey_ceremony-Inv id kind now s i.0)
              (consume-records id kind now s) i)
            i.0;
    };
    account_created = λ account_id k d plain s i.
        kept s _ (Inv-Rules.account_created account_id k d plain s i.0)
          (create_account-records account_id k d s) i;
    passkey_used = λ id counter d s i.
        kept s _ (Inv-Rules.passkey_used id counter d s i.0)
          (authenticate_with_passkey-records id counter d s) i;
    claim_created = λ c s i. kept s _ (Inv-Rules.claim_created c s i.0) refl i;
    claim_taken = λ id code now s i.
        kept s _ (Inv-Rules.claim_taken id code now s i.0)
          (take_passkey_claim-records id code now s) i;
  }

-- A request whose token is of no device of the account `b`, or which has no token, leaves every live
-- record of `b` under its key as it is, whatever its route and body are and however it is answered.
-- Account identifiers are UUIDs, which have no colon.
pub fetch_isolated :
    {Json : Type 0} (p : Platform Json) (request : Request Json) (draws : Draws) (s : Repository)
    (b : String) (q : OpaqueSyncRecord) (r : CursorRecord)
    → ((i : ℕ) → NoColon (draws.uuid i))
    → NoColon b
    → ((d : AuthenticatedDevice)
        → get s.tokens (p.hash_token (bearer_token request.authorization)) ≡ some d
        → d.account_id ≢ b)
    → r.tombstone ≡ false
    → Inv s
    → get s.records (stored_key b q) ≡ some r
    → get (fetch p request draws s).1.records (stored_key b q) ≡ some r
fetch_isolated p request draws s b q r uuids plain' other alive v found =
    let hash = p.hash_token (bearer_token request.authorization) in
    (fetch_keeps p request draws uuids (Stands-Rules b q r plain' alive) s (v, found)
      (authenticate-Ends (Stands b q r) (IsOther b) hash (draws.now 0) s
        (kept b q r plain' alive s _ (authenticate-Inv hash (draws.now 0) s v)
          (authenticate-records hash (draws.now 0) s) (v, found))
        (λ d e.
          (get-All (λ _ x. NoColon x.account_id) s.tokens hash d v.tokens_plain e, other d e)))).1
