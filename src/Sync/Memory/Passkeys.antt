-- ===== src/Sync/Memory/Passkeys.antt =====
-- The passkey methods of `MemorySyncRepository` (services/sync/src/memoryRepository.ts). `now` is the
-- reading of `Date.now()` in the call.
pub mod Keeps
pub mod OneShot
use locus_browser.Base.{
  ℕ, String, Bool, true, false, not, ◌||◌, Option, none, some, get, set, delete, str_eq, ltb, leb,
  if◌then◌else◌, Exec, ◌>>=◌, ◌>>◌, pure, throw_if, or_throw, modify, gets,
}
use locus_browser.Sync.Models.{
  PasskeyCeremony, CeremonyKind, registration, authentication, StoredPasskey, PasskeyClaim,
  RegisteredDevice,
}
use locus_browser.Sync.Memory.State.{
  Repository, Error, passkey_account_mismatch, passkey_already_registered, passkey_unavailable,
  device_key,
}

unfoldable pub create_passkey_ceremony : PasskeyCeremony → Repository → Repository
create_passkey_ceremony ceremony s = record s { ceremonies = set s.ceremonies ceremony.id ceremony }

-- `ceremony && ceremony.expiresAt >= Date.now() ? ceremony : undefined`.
abbrev pub unexpired : ℕ → Option PasskeyCeremony → Option PasskeyCeremony
unexpired now none = none
unexpired now (some c) = if leb now c.expires_at then some c else none

unfoldable pub passkey_ceremony : Repository → String → ℕ → Option PasskeyCeremony
passkey_ceremony s id now = unexpired now (get s.ceremonies id)

abbrev pub same_kind : CeremonyKind → CeremonyKind → Bool
same_kind registration registration = true
same_kind authentication authentication = true
same_kind _ _ = false

-- `if (!ceremony || ceremony.kind !== kind) return undefined`.
abbrev pub of_kind : CeremonyKind → Option PasskeyCeremony → Option PasskeyCeremony
of_kind kind none = none
of_kind kind (some c) = if same_kind c.kind kind then some c else none

-- `#ceremonies.delete(id)`, and the answer.
unfoldable pub consume :
    String → Option PasskeyCeremony → Exec Repository Error (Option PasskeyCeremony)
consume id none = pure none
consume id (some ceremony) = do
  modify (λ s. record s { ceremonies = delete s.ceremonies id })
  pure (some ceremony)

unfoldable pub consume_passkey_ceremony :
    String → CeremonyKind → ℕ → Exec Repository Error (Option PasskeyCeremony)
unfolding passkey_ceremony consume
consume_passkey_ceremony id kind now = do
  found ← gets (λ s. passkey_ceremony s id now)
  consume id (of_kind kind found)

-- A device signs in: its token and the device under its key.
unfoldable pub sign_in : RegisteredDevice → Repository → Repository
sign_in device s = record s {
  tokens =
      set s.tokens device.token_hash
        (record { account_id = device.account_id; device_id = device.device_id });
  devices = set s.devices (device_key device.account_id device.device_id) device;
}

abbrev pub is_present {ℓ} : {A : Type ℓ} → Option A → Bool
is_present none = false
is_present (some a) = true

unfoldable pub create_account_with_passkey :
    String → StoredPasskey → RegisteredDevice → Exec Repository Error (Unit {0})
unfolding sign_in
create_account_with_passkey account_id passkey device = do
  throw_if (not (str_eq passkey.account_id account_id) || not (str_eq device.account_id account_id))
      passkey_account_mismatch
  registered ← gets (λ s. is_present (get s.passkeys passkey.credential_id))
  throw_if registered passkey_already_registered
  modify (λ s. record s { passkeys = set s.passkeys passkey.credential_id passkey })
  modify (sign_in device)
  modify (λ s. record s { key_versions = set s.key_versions account_id 0 })

unfoldable pub passkey : Repository → String → Option StoredPasskey
passkey s credential_id = get s.passkeys credential_id

abbrev pub of_account : String → Option StoredPasskey → Option StoredPasskey
of_account account_id none = none
of_account account_id (some p) = if str_eq p.account_id account_id then some p else none

unfoldable pub authenticate_with_passkey :
    String → ℕ → RegisteredDevice → Exec Repository Error (Unit {0})
unfolding sign_in
authenticate_with_passkey credential_id counter device = do
  found ← gets (λ s. get s.passkeys credential_id)
  known ← or_throw (of_account device.account_id found) passkey_unavailable
  modify (λ s. record s {
    passkeys = set s.passkeys credential_id (record known { counter = counter });
  })
  modify (sign_in device)

unfoldable pub create_passkey_claim : PasskeyClaim → Repository → Repository
create_passkey_claim claim s = record s { claims = set s.claims claim.id claim }

pub record ClaimDelivery : Type 0 where
  pub account_id : String
  pub device_id : String
  pub device_token : String

-- The claim, if its code is right and it has not expired.
abbrev pub claimable : String → ℕ → Option PasskeyClaim → Option PasskeyClaim
claimable code_hash now none = none
claimable code_hash now (some c) =
    if not (str_eq c.code_hash code_hash) || ltb c.expires_at now then none else some c

-- `#claims.delete(id)`, and the answer.
unfoldable pub deliver_claim :
    String → Option PasskeyClaim → Exec Repository Error (Option ClaimDelivery)
deliver_claim id none = pure none
deliver_claim id (some claim) = do
  modify (λ s. record s { claims = delete s.claims id })
  pure (
      some (record {
        account_id = claim.account_id;
        device_id = claim.device_id;
        device_token = claim.device_token;
      }))

unfoldable pub take_passkey_claim :
    String → String → ℕ → Exec Repository Error (Option ClaimDelivery)
unfolding deliver_claim
take_passkey_claim id code_hash now = do
  found ← gets (λ s. get s.claims id)
  deliver_claim id (claimable code_hash now found)
