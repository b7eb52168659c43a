-- ===== src/Sync/Requests/Isolation/Records.antt =====
-- The methods of services/sync/src/memoryRepository.ts that leave the records alone, and the rotation of a
-- key, which leaves those of other accounts alone.
use locus_browser.Base.{
  ℕ, ◌≡◌, ◌≢◌, refl, ap, String, List, Result, ok, err, NoColon, get, inl, inr, arith,
}
use locus_browser.Sync.Models.{
  AuthenticatedDevice, OpaqueSyncRecord, AccountKeyWrap, StoredPasskey, RegisteredDevice,
  CeremonyKind,
}
use locus_browser.Sync.Memory.State.{Repository, Error, stored_key}
use locus_browser.Sync.Memory.Invariant.{Inv}
use locus_browser.Sync.Memory.Devices.{
  authenticate, approve, approve_enrollment, take_enrollment, deliver, touch,
}
use locus_browser.Sync.Memory.Passkeys.{
  consume_passkey_ceremony, consume, create_account_with_passkey, sign_in,
  authenticate_with_passkey, take_passkey_claim, deliver_claim,
}
use locus_browser.Sync.Memory.Keys.{
  initialize_account_key, set_device_wrapped_key, rotate_account_key,
}
use locus_browser.Sync.Memory.Keys.Rotated.{rotate_account_key_lem, rotate_account_key_atomic}
use locus_browser.Sync.Memory.Keys.Setup.{initialize_account_key_lem, set_key_cases}

pub authenticate-records :
    (hash : String) (now : ℕ) (s : Repository) → (authenticate hash now s).1.records ≡ s.records
unfolding authenticate touch
authenticate-records hash now s = ground arith

pub approve_enrollment-records :
    (account_id id code wrapped token hash : String) (now : ℕ) (s : Repository)
    → (approve_enrollment account_id id code wrapped token hash now s).1.records ≡ s.records
unfolding approve_enrollment approve
approve_enrollment-records account_id id code wrapped token hash now s = ground arith

pub take_enrollment-records :
    (id code : String) (now : ℕ) (s : Repository)
    → (take_enrollment id code now s).1.records ≡ s.records
unfolding take_enrollment deliver
take_enrollment-records id code now s = ground arith

pub consume-records :
    (id : String) (kind : CeremonyKind) (now : ℕ) (s : Repository)
    → (consume_passkey_ceremony id kind now s).1.records ≡ s.records
unfolding consume_passkey_ceremony consume
consume-records id kind now s = ground arith

pub create_account-records :
    (account_id : String) (k : StoredPasskey) (d : RegisteredDevice) (s : Repository)
    → (create_account_with_passkey account_id k d s).1.records ≡ s.records
unfolding create_account_with_passkey sign_in
create_account-records account_id k d s = ground arith

pub authenticate_with_passkey-records :
    (id : String) (counter : ℕ) (d : RegisteredDevice) (s : Repository)
    → (authenticate_with_passkey id counter d s).1.records ≡ s.records
unfolding authenticate_with_passkey sign_in
authenticate_with_passkey-records id counter d s = ground arith

pub take_passkey_claim-records :
    (id code : String) (now : ℕ) (s : Repository)
    → (take_passkey_claim id code now s).1.records ≡ s.records
unfolding take_passkey_claim deliver_claim
take_passkey_claim-records id code now s = ground arith

pub initialize_account_key-records :
    (account_id : String) (expected version : ℕ) (wraps : List AccountKeyWrap) (s : Repository)
    → NoColon account_id
    → Inv s
    → (initialize_account_key account_id expected version wraps s).1.records ≡ s.records
initialize_account_key-records account_id expected version wraps s plain v =
    elim (initialize_account_key_lem account_id expected version wraps s plain v) [
      | inl (e, failed) ↦ rw failed
      | inr (ds, _, _, ended, _) ↦ rw ended
    ]

pub set_device_wrapped_key-records :
    (account_id device_id : String) (version : ℕ) (wrapped : String) (s : Repository)
    → (set_device_wrapped_key account_id device_id version wrapped s).1.records ≡ s.records
set_device_wrapped_key-records account_id device_id version wrapped s =
    elim (set_key_cases account_id device_id version wrapped s) [
      | inl (e, failed) ↦ rw failed
      | inr (d, _, _, ended) ↦ rw ended
    ]

-- Whether it returns or throws, a rotation leaves the records of other accounts as they are.
pub rotate_account_key_isolated :
    (device : AuthenticatedDevice) (expected version : ℕ) (wraps : List AccountKeyWrap)
    (records : List OpaqueSyncRecord) (now : ℕ) (s : Repository) (b : String) (q : OpaqueSyncRecord)
    → NoColon device.account_id
    → NoColon b
    → device.account_id ≢ b
    → Inv s
    → get
        (rotate_account_key device expected version wraps records now s).1.records
        (stored_key b q)
      ≡ get s.records (stored_key b q)
rotate_account_key_isolated device expected version wraps records now s b q plain plain' other v =
    ended (rotate_account_key device expected version wraps records now s).0
      (rotate_account_key device expected version wraps records now s).1 refl
  where
    ended :
        (r : Result Error ℕ) (t : Repository)
        → rotate_account_key device expected version wraps records now s ≡ (r, t)
        → get t.records (stored_key b q) ≡ get s.records (stored_key b q)
    ended (ok cursor) t h =
        (rotate_account_key_lem device expected version wraps records now s plain v t cursor b q
          plain' other h).8
    ended (err e) t h =
        ap (λ (x : Repository). get x.records (stored_key b q))
          (rotate_account_key_atomic device expected version wraps records now s plain v t e h)
