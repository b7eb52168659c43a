-- ===== src/Sync/Requests/Sound.antt =====
-- Every request to services/sync/src/requestHandler.ts keeps the repository's invariant.
use locus_browser.Base.{
  ℕ, ◌≡◌, String, Bool, true, false, leb, if◌then◌else◌, Dict, Option, none, some, Result, ok,
  NoColon, get, get-All, Option-cases, inl, inr,
}
use locus_browser.Base.Keeps.{Ends}
use locus_browser.Sync.Models.{AuthenticatedDevice, PasskeyCeremony, CeremonyKind}
use locus_browser.Sync.Memory.State.{Repository, Error}
use locus_browser.Sync.Memory.Invariant.{Inv, IsPlainAccount}
use locus_browser.Sync.Memory.Devices.{authenticate}
use locus_browser.Sync.Memory.Devices.Tokens.{authenticate_lem}
use locus_browser.Sync.Memory.Devices.Keeps.{
  authenticate-Inv, create_enrollment-Inv, approve_enrollment-Inv, take_enrollment-Inv,
  revoke_device-Inv,
}
use locus_browser.Sync.Memory.Records.Isolation.{push-Inv}
use locus_browser.Sync.Memory.Passkeys.{
  passkey_ceremony, consume, consume_passkey_ceremony, unexpired, of_kind, same_kind,
}
use locus_browser.Sync.Memory.Passkeys.Keeps.{
  create_passkey_ceremony-Inv, consume_passkey_ceremony-Inv, create_account_with_passkey-Inv,
  authenticate_with_passkey-Inv, create_passkey_claim-Inv, take_passkey_claim-Inv,
}
use locus_browser.Sync.Memory.Keys.Setup.{initialize_account_key-Inv, set_device_wrapped_key-Inv}
use locus_browser.Sync.Memory.Keys.Rotated.{rotate_account_key-Inv}
use locus_browser.Sync.Memory.Account.Expiry.{cleanup_expired-Inv}
use locus_browser.Sync.Memory.Account.Deleting.{delete_account-Inv, delete_cloud_data-Inv}
use locus_browser.Sync.Requests.Values.{Request, Platform, Draws}
use locus_browser.Sync.Requests.Support.{bearer_token}
use locus_browser.Sync.Requests.Handler.{fetch}
use locus_browser.Sync.Requests.Rules.{Rules, IfSome}
use locus_browser.Sync.Requests.Keeping.Requests.{fetch_keeps}

-- The account of the device has no colon.
abbrev pub IsPlainDevice : AuthenticatedDevice → Type 0
IsPlainDevice d = NoColon d.account_id

get-IfSome :
    {A : Type 0} (P : A → Type 0) (m : Dict A) (k : String)
    → ((a : A) → get m k ≡ some a → P a)
    → IfSome P (get m k)
get-IfSome P m k h = elim (Option-cases (get m k)) [ inl e ↦ rw e tt | inr (a, e) ↦ rw e (h a e) ]

pub authenticate-Ends :
    (I : Repository → Type 0) (P : AuthenticatedDevice → Type 0) (hash : String) (now : ℕ)
    (s : Repository)
    → I (authenticate hash now s).1
    → ((d : AuthenticatedDevice) → get s.tokens hash ≡ some d → P d)
    → Ends I (IfSome P) (authenticate hash now s)
authenticate-Ends I P hash now s i h =
    ends_with (authenticate hash now s).0 (authenticate hash now s).1
      (authenticate_lem hash now s).0 i (get-IfSome P s.tokens hash h)
  where
    ends_with :
        (r : Result Error (Option AuthenticatedDevice)) (t : Repository)
        → r ≡ ok (get s.tokens hash)
        → I t
        → IfSome P (get s.tokens hash)
        → Ends I (IfSome P) (r, t)
    ends_with r t e i q = rw e (i, q)

IfSome-if :
    {A : Type 0} (P : A → Type 0) (b : Bool) (a : A) → P a → IfSome P (if b then some a else none)
IfSome-if P true a h = h
IfSome-if P false a h = tt

IfSome-unexpired :
    (P : PasskeyCeremony → Type 0) (now : ℕ) (o : Option PasskeyCeremony)
    → IfSome P o
    → IfSome P (unexpired now o)
IfSome-unexpired P now none h = tt
IfSome-unexpired P now (some c) h = IfSome-if P (leb now c.expires_at) c h

IfSome-of_kind :
    (P : PasskeyCeremony → Type 0) (kind : CeremonyKind) (o : Option PasskeyCeremony)
    → IfSome P o
    → IfSome P (of_kind kind o)
IfSome-of_kind P kind none h = tt
IfSome-of_kind P kind (some c) h = IfSome-if P (same_kind c.kind kind) c h

consume-Ends :
    (I : Repository → Type 0) (P : PasskeyCeremony → Type 0) (id : String)
    (o : Option PasskeyCeremony) (s : Repository)
    → I (consume id o s).1
    → IfSome P o
    → Ends I (IfSome P) (consume id o s)
unfolding consume
consume-Ends I P id none s i h = (i, tt)
consume-Ends I P id (some c) s i h = (i, h)

-- The ceremony that a call consumes names a plain account, if it names one.
pub consume_passkey_ceremony-Ends :
    (I : Repository → Type 0) (id : String) (kind : CeremonyKind) (now : ℕ) (s : Repository)
    → I (consume_passkey_ceremony id kind now s).1
    → Inv s
    → Ends I (IfSome (λ c. IsPlainAccount c.account_id)) (consume_passkey_ceremony id kind now s)
unfolding consume_passkey_ceremony passkey_ceremony
consume_passkey_ceremony-Ends I id kind now s i v =
    let P : PasskeyCeremony → Type 0 = λ c. IsPlainAccount c.account_id in
    consume-Ends I P id (of_kind kind (unexpired now (get s.ceremonies id))) s i (
      IfSome-of_kind P kind (unexpired now (get s.ceremonies id)) (
        IfSome-unexpired P now (get s.ceremonies id) (
          get-IfSome P s.ceremonies id (λ c e.
            get-All (λ _ x. IsPlainAccount x.account_id) s.ceremonies id c v.ceremonies_plain e))))

-- The rules of the invariant.
pub Inv-Rules : Rules Inv IsPlainDevice
Inv-Rules = record {
  cleaned = cleanup_expired-Inv;
  pushed = λ d version records now _ s v. push-Inv d version records now s v;
  cloud_data_deleted = λ d _ s v. delete_cloud_data-Inv d.account_id s v;
  key_initialized = λ d expected version wraps plain s v.
      initialize_account_key-Inv d.account_id expected version wraps s plain v;
  key_wrapped = λ d version wrapped _ s v.
      set_device_wrapped_key-Inv d.account_id d.device_id version wrapped s v;
  key_rotated = λ d expected version wraps records now plain s v.
      rotate_account_key-Inv d expected version wraps records now s plain v;
  device_revoked = λ d id plain s v. revoke_device-Inv d.account_id id s plain v;
  account_deleted = λ d plain s v. delete_account-Inv d.account_id s plain v;
  enrollment_created = create_enrollment-Inv;
  enrollment_approved = λ d id code wrapped token hash now plain s v.
      approve_enrollment-Inv d.account_id id code wrapped token hash now s plain v;
  enrollment_taken = take_enrollment-Inv;
  ceremony_created = λ c plain s v. create_passkey_ceremony-Inv c s plain v;
  ceremony_consumed = λ id kind now. record {
    at = λ s v.
        consume_passkey_ceremony-Ends Inv id kind now s
          (consume_passkey_ceremony-Inv id kind now s v) v;
  };
  account_created =
      λ account_id k d plain s v. create_account_with_passkey-Inv account_id k d s plain v;
  passkey_used = authenticate_with_passkey-Inv;
  claim_created = create_passkey_claim-Inv;
  claim_taken = take_passkey_claim-Inv;
}

-- Every request, whoever sends it and however it is answered, keeps the invariant of the repository.
-- Random UUIDs have no colon.
pub fetch-Inv :
    {Json : Type 0} (p : Platform Json) (request : Request Json) (draws : Draws) (s : Repository)
    → ((i : ℕ) → NoColon (draws.uuid i))
    → Inv s
    → Inv (fetch p request draws s).1
fetch-Inv p request draws s uuids v =
    let hash = p.hash_token (bearer_token request.authorization) in
    fetch_keeps p request draws uuids Inv-Rules s v (
      authenticate-Ends Inv IsPlainDevice hash (draws.now 0) s
        (authenticate-Inv hash (draws.now 0) s v)
        (λ d e. get-All (λ _ x. NoColon x.account_id) s.tokens hash d v.tokens_plain e))
