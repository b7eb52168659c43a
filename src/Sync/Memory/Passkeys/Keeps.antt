-- ===== src/Sync/Memory/Passkeys/Keeps.antt =====
-- The passkey methods of services/sync/src/memoryRepository.ts keep the invariant.
use locus_browser.Base.{
  ℕ, ◌≡◌, ◌≢◌, String, none, arith, get, set, delete, get-set_self, NoColon, get-All, All-set,
  All-delete, Option-cases, Bool-cases, inl, inr, eq_iff, str_eq, subst, sym,
}
use locus_browser.Sync.Models.{
  StoredPasskey, RegisteredDevice, PasskeyCeremony, CeremonyKind, PasskeyClaim,
}
use locus_browser.Sync.Memory.State.{Repository}
use locus_browser.Sync.Memory.Invariant.{
  Inv, IsPlainAccount, frame-Inv, sign_in-Inv, set_version-Inv,
}
use locus_browser.Sync.Memory.Passkeys.{
  create_passkey_ceremony, consume_passkey_ceremony, sign_in, create_account_with_passkey,
  authenticate_with_passkey, create_passkey_claim, take_passkey_claim,
}

pub create_passkey_ceremony-Inv :
    (c : PasskeyCeremony) (s : Repository)
    → IsPlainAccount c.account_id
    → Inv s
    → Inv (create_passkey_ceremony c s)
unfolding create_passkey_ceremony
create_passkey_ceremony-Inv c s plain v =
    frame-Inv s s.enrollments _ s.claims s.record_updated_at
      (All-set (λ _ e. IsPlainAccount e.account_id) s.ceremonies c.id c v.ceremonies_plain plain) v

pub consume_passkey_ceremony-Inv :
    (id : String) (kind : CeremonyKind) (now : ℕ) (s : Repository)
    → Inv s
    → Inv (consume_passkey_ceremony id kind now s).1
unfolding consume_passkey_ceremony
consume_passkey_ceremony-Inv id kind now s v = ground (
  arith,
  v,
  frame-Inv s s.enrollments (delete s.ceremonies id) s.claims s.record_updated_at
      (All-delete (λ e. IsPlainAccount e.1.account_id) s.ceremonies id v.ceremonies_plain) v,
)

pub create_passkey_claim-Inv :
    (c : PasskeyClaim) (s : Repository) → Inv s → Inv (create_passkey_claim c s)
unfolding create_passkey_claim
create_passkey_claim-Inv c s v =
    frame-Inv s s.enrollments s.ceremonies _ s.record_updated_at v.ceremonies_plain v

pub take_passkey_claim-Inv :
    (id code : String) (now : ℕ) (s : Repository) → Inv s → Inv (take_passkey_claim id code now s).1
unfolding take_passkey_claim
take_passkey_claim-Inv id code now s v = ground (
  arith,
  v,
  frame-Inv s s.enrollments s.ceremonies (delete s.claims id) s.record_updated_at v.ceremonies_plain
      v,
)

-- A passkey of an account that has a key version is stored.
set_passkey-Inv :
    (s : Repository) (k : String) (p : StoredPasskey)
    → NoColon p.account_id
    → get s.key_versions p.account_id ≢ none
    → Inv s
    → Inv (record s { passkeys = set s.passkeys k p })
set_passkey-Inv s k p plain versioned v = record {
  bounded = v.bounded;
  distinct = v.distinct;
  keyed = v.keyed;
  named = v.named;
  plain = v.plain;
  live = v.live;
  versioned = v.versioned;
  unique = v.unique;
  tokens_plain = v.tokens_plain;
  ceremonies_plain = v.ceremonies_plain;
  passkeys_plain = All-set (λ _ e. NoColon e.account_id) s.passkeys k p v.passkeys_plain plain;
  passkeys_versioned =
      All-set (λ _ e. get s.key_versions e.account_id ≢ none) s.passkeys k p v.passkeys_versioned
        versioned;
}

device_sign_in-Inv :
    (d : RegisteredDevice) (s : Repository)
    → NoColon d.account_id
    → get s.key_versions d.account_id ≢ none
    → Inv s
    → Inv (sign_in d s)
unfolding sign_in
device_sign_in-Inv d s plain versioned v = sign_in-Inv s d.token_hash d plain versioned v

-- The writes of a registration, in an order in which each keeps the invariant.
registered-Inv :
    (account_id : String) (p : StoredPasskey) (d : RegisteredDevice) (s : Repository)
    → p.account_id ≡ account_id
    → d.account_id ≡ account_id
    → NoColon account_id
    → Inv s
    → Inv (record (sign_in d (record s { passkeys = set s.passkeys p.credential_id p })) {
      key_versions = set s.key_versions account_id 0;
    })
unfolding sign_in
registered-Inv account_id p d s same same' plain v =
    let t : Repository = record s { key_versions = set s.key_versions account_id 0 } in
    let versioned : get t.key_versions account_id ≢ none =
      ground (arith, get-set_self s.key_versions account_id 0) in
    device_sign_in-Inv d (record t { passkeys = set s.passkeys p.credential_id p })
      (subst NoColon (sym same') plain) (rw same' versioned)
      (set_passkey-Inv t p.credential_id p (subst NoColon (sym same) plain) (rw same versioned)
        (set_version-Inv s account_id 0 v))

pub create_account_with_passkey-Inv :
    (account_id : String) (p : StoredPasskey) (d : RegisteredDevice) (s : Repository)
    → NoColon account_id
    → Inv s
    → Inv (create_account_with_passkey account_id p d s).1
unfolding create_account_with_passkey
create_account_with_passkey-Inv account_id p d s plain v = ground (
  arith,
  v,
  eq_iff p.account_id account_id,
  eq_iff d.account_id account_id,
  λ (same : p.account_id ≡ account_id) (same' : d.account_id ≡ account_id).
      registered-Inv account_id p d s same same' plain v,
)

pub authenticate_with_passkey-Inv :
    (credential_id : String) (counter : ℕ) (d : RegisteredDevice) (s : Repository)
    → Inv s
    → Inv (authenticate_with_passkey credential_id counter d s).1
unfolding authenticate_with_passkey
authenticate_with_passkey-Inv credential_id counter d s v =
    elim (Option-cases (get s.passkeys credential_id)) [
      | inl e ↦ rw e v
      | inr (p, e) ↦ elim (Bool-cases (str_eq p.account_id d.account_id)) [
        | inr other ↦ rw (e, other) v
        | inl own ↦
            rw (e, own)
              (let same : p.account_id ≡ d.account_id = (eq_iff p.account_id d.account_id).0 own in
                let plain : NoColon p.account_id =
                  get-All (λ _ q. NoColon q.account_id) s.passkeys credential_id p v.passkeys_plain
                    e in
                let versioned : get s.key_versions p.account_id ≢ none =
                  get-All (λ _ q. get s.key_versions q.account_id ≢ none) s.passkeys credential_id p
                    v.passkeys_versioned e in
                device_sign_in-Inv d
                  (record s {
                    passkeys = set s.passkeys credential_id (record p { counter = counter });
                  })
                  (subst NoColon same plain) (rw (← same) versioned)
                  (set_passkey-Inv s credential_id (record p { counter = counter }) plain versioned
                    v))
      ]
    ]
