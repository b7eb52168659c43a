-- ===== src/Sync/Manager/Steps.antt =====
-- The steps of a ceremony that leave the account of the profile as it is.
use locus_browser.Base.{
  ◌≡◌, String, false, not, Option, none, some, Result, ok, err, from_result, str_eq, eq_iff, arith,
}
use locus_browser.Base.Keeps.{
  Keeps, Ends, Keeps-bind, Keeps-then, Keeps-pure, Keeps-from_result, Keeps-or_throw, Keeps-if,
}
use locus_browser.Base.Keeps as Keep
use locus_browser.Sync.Models.{CeremonyKind, registration, authentication}
use locus_browser.Sync.Manager.{
  SyncManager, Device, SyncService, StoredSyncAccount, ClaimedPasskey, Managing, catching,
  handle_result, get_devices, claim_passkey,
}
use locus_browser.Sync.Manager.Ceremony.{
  PendingCeremony, claim_ceremony, establish, establish_or_roll_back, roll_back, refresh_devices,
  refresh_devices_of, fetch_devices, secrets,
}
use locus_browser.Sync.Manager.Verifier.{verifier_record_id}
use locus_browser.Sync.Manager.Sound.{
  IsVerified, IsAnswer, HasAccount, Keeps-ask, Keeps-throw_if,
  verify_recovered_account_key-IsVerified,
}

of_same : (a b : String) → not (str_eq a b) ≡ false → a ≡ b
of_same a b h = (eq_iff a b).0 (ground arith)

module _ (d : Device) (service : SyncService) where
  -- How far a key is known to be the account's: a new account has the key that was made for it.
  abbrev pub IsChecked : CeremonyKind → String → Type 0
  IsChecked registration account_key = Unit
  IsChecked authentication account_key = IsVerified d service account_key

  module _ (account : Option StoredSyncAccount) where
    abbrev pub Keeping : {A : Type 0} → (A → Type 0) → Managing A → Type 0
    Keeping Q m = Keeps (HasAccount d service account) Q m

    abbrev pub H : SyncManager → Type 0
    H = HasAccount d service account

    pub Keeps-lift : {A : Type 0} (r : Result String A) → Keeping Keep.Any (from_result r)
    Keeps-lift r = Keeps-from_result H r (λ a e. tt)

    Keeps-secrets : (stored : StoredSyncAccount) → Keeping Keep.Any (secrets d service stored)
    unfolding secrets
    Keeps-secrets stored = Keeps-then H (Keeps-throw_if d service account _ _) (
        Keeps-bind H (Keeps-lift (d.cipher_decrypt stored.encrypted_device_token)) (λ token _.
          Keeps-bind H (Keeps-lift (d.cipher_decrypt stored.encrypted_account_key))
            (λ key _. Keeps-pure H tt)))

    Keeps-fetch_devices : (token : String) → Keeping Keep.Any (fetch_devices d service token)
    unfolding fetch_devices
    Keeps-fetch_devices token =
        Keeps-bind H (Keeps-ask d service account service.devices (get_devices token))
          (λ devices _. Keeps-then H (Keeps-throw_if d service account _ _) (Keeps-pure H tt))

    Keeps-devices :
        (o : Option StoredSyncAccount) → Keeping Keep.Any (refresh_devices_of d service o)
    unfolding refresh_devices_of
    Keeps-devices none = record { at = λ s h. (h, tt) }
    Keeps-devices (some stored) = Keeps-bind H (Keeps-secrets stored) (λ (token, key) _.
        Keeps-bind H (Keeps-fetch_devices token) (λ devices _. record { at = λ s h. (h, tt) }))

    pub Keeps-refresh_devices : Keeping Keep.Any (refresh_devices d service)
    unfolding refresh_devices
    Keeps-refresh_devices = record { at = λ s h. (Keeps-devices s.account).at s h }

    pub Keeps-establish :
        (kind : CeremonyKind) (pending : PendingCeremony) (claim : ClaimedPasskey)
        → Keeping
            (λ version. IsChecked kind pending.account_key)
            (establish d service kind pending claim)
    unfolding establish
    Keeps-establish registration pending claim =
        Keeps-bind H (Keeps-lift (d.wrap_account_key pending.account_key pending.device.public_key))
          (λ wrapped _. Keeps-bind H (Keeps-ask d service account service.key_state _) (λ state _.
            Keeps-bind H
              (Keeps-lift (
                d.encrypt_verifier pending.account_key claim.account_id pending.device_id
                  verifier_record_id (d.first_clock pending.device_id)))
              (λ verifier _.
                Keeps-bind H (Keeps-ask d service account service.accepted _) (λ accepted _.
                  Keeps-then H (Keeps-throw_if d service account _ _) (Keeps-pure H tt)))))
    Keeps-establish authentication pending claim =
        Keeps-bind H (Keeps-ask d service account service.key_state _) (λ state _.
          Keeps-then H (Keeps-throw_if d service account _ _) (
            Keeps-bind H
              (verify_recovered_account_key-IsVerified d service account claim.device_token
                pending.account_key)
              (λ u verified.
                Keeps-bind H
                  (Keeps-lift (d.wrap_account_key pending.account_key pending.device.public_key))
                  (λ wrapped _.
                    Keeps-bind H (Keeps-ask d service account service.done _)
                      (λ done _. Keeps-pure H verified)))))

    pub Keeps-roll_back :
        {A : Type 0} (Q : A → Type 0) (kind : CeremonyKind) (claim : ClaimedPasskey) (e : String)
        → Keeping Q (roll_back d service {A = A} kind claim e)
    unfolding roll_back
    Keeps-roll_back Q kind claim e = record { at = λ s h. h }

    pub Ends-catching :
        {A : Type 0} (Q : A → Type 0) (handler : String → Managing A)
        (x : Result String A × SyncManager)
        → Ends H Q x
        → ((e : String) → Keeping Q (handler e))
        → Ends H Q (handle_result handler x)
    Ends-catching Q handler (ok a, s) h k = h
    Ends-catching Q handler (err e, s) h k = (k e).at s h

    pub Keeps-establish_or_roll_back :
        (kind : CeremonyKind) (pending : PendingCeremony) (claim : ClaimedPasskey)
        → Keeping
            (λ version. IsChecked kind pending.account_key)
            (establish_or_roll_back d service kind pending claim)
    unfolding establish_or_roll_back catching
    Keeps-establish_or_roll_back kind pending claim = record {
      at = λ s h.
          Ends-catching _ _ _ ((Keeps-establish kind pending claim).at s h)
            (λ e. Keeps-roll_back _ kind claim e);
    }

    pub Keeps-claim_ceremony :
        (kind : CeremonyKind) (name : Option String) (pending : PendingCeremony)
        (callback : Result String (String × String))
        → Keeping
            (λ claim.
              IsAnswer d service service.claimed claim × (claim.device_id ≡ pending.device_id))
            (claim_ceremony d service kind name pending callback)
    unfolding claim_ceremony
    Keeps-claim_ceremony kind name pending callback =
        Keeps-bind H (Keeps-ask d service account service.started _) (λ started _.
          Keeps-then H (Keeps-throw_if d service account _ _) (
            Keeps-bind H
              (Keeps-or_throw H {Q = Keep.Any} (d.parse_url started.auth_url) "Invalid URL"
                (λ u e. tt))
              (λ url _. Keeps-then H (Keeps-throw_if d service account _ _) (
                Keeps-bind H (Keeps-lift callback) (λ (id, code) _.
                  Keeps-bind H (Keeps-ask d service account service.claimed (claim_passkey id code))
                    (λ claim answered. Keeps-then H (Keeps-throw_if d service account _ _) (
                      Keeps-bind H
                        (Keeps-throw_if d service account
                          (not (str_eq claim.device_id pending.device_id)) _)
                        (λ u e.
                          Keeps-pure H
                            (answered, of_same claim.device_id pending.device_id e)))))))))
