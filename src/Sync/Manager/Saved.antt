-- ===== src/Sync/Manager/Saved.antt =====
-- What the manager saves as the account of the profile, and what it undoes.
use locus_browser.Base.{
  ℕ, ◌≡◌, ◌⊎◌, refl, sym, subst, String, Option, none, some, Result, ok, err, modify, inl, inr,
}
use locus_browser.Base.Keeps.{
  Keeps, Ends, Keeps-bind, Keeps-then, Keeps-pure, Keeps-from_result, Keeps-or_throw, Keeps-if,
}
use locus_browser.Base.Keeps as Keep
use locus_browser.Sync.Models.{CeremonyKind}
use locus_browser.Sync.Manager.{
  SyncManager, Device, DeviceKeyPair, SyncService, StoredSyncAccount, connected, ClaimedPasskey,
  Managing,
}
use locus_browser.Sync.Manager.Ceremony.{
  PendingCeremony, save_account, complete_ceremony, clear_transient, show_recovery_key,
}
use locus_browser.Sync.Manager.Sound.{IsAnswer, HasAccount}
use locus_browser.Sync.Manager.Steps.{
  IsChecked, Keeps-refresh_devices, Keeps-establish_or_roll_back, Keeps-claim_ceremony,
}

pub Ends-state :
    {S E A : Type 0} (I : S → Type 0) (Q : A → Type 0) (x : Result E A × S) → Ends I Q x → I x.1
Ends-state I Q (ok a, s) h = h.0
Ends-state I Q (err e, s) h = h

module _ (d : Device) (service : SyncService) where
  module _ (J : Option StoredSyncAccount → Type 0) where
    abbrev pub Holds : SyncManager → Type 0
    Holds s = J s.account

    Ends-Holds :
        {A : Type 0} (Q : A → Type 0) (account : Option StoredSyncAccount)
        (x : Result String A × SyncManager)
        → J account
        → Ends (HasAccount d service account) Q x
        → Ends Holds Q x
    Ends-Holds Q account (ok a, s) j (h, q) = (subst J (sym h) j, q)
    Ends-Holds Q account (err e, s) j h = subst J (sym h) j

    -- What leaves every account as it is keeps every property of it.
    pub Keeps-Holds :
        {A : Type 0} {Q : A → Type 0} {m : Managing A}
        → ((account : Option StoredSyncAccount) → Keeps (HasAccount d service account) Q m)
        → Keeps Holds Q m
    Keeps-Holds {Q} {m} h = record {
      at = λ s j. Ends-Holds Q s.account (m s) j ((h s.account).at s refl);
    }

    pub Keeps-save_account :
        (service_url account_id device_id : String) (device : DeviceKeyPair)
        (token account_key : String) (key_version : ℕ)
        → ((stored : StoredSyncAccount)
            → stored.account_id ≡ account_id
            → stored.device_id ≡ device_id
            → stored.key_version ≡ key_version
            → d.cipher_encrypt token ≡ ok stored.encrypted_device_token
            → d.cipher_encrypt account_key ≡ ok stored.encrypted_account_key
            → J (some stored))
        → Keeps Holds Keep.Any (
            save_account d service service_url account_id device_id device token account_key
              key_version)
    unfolding save_account
    Keeps-save_account service_url account_id device_id device token account_key key_version h =
        Keeps-bind Holds
          (Keeps-from_result Holds {Q = Keep.Any} (d.cipher_encrypt device.private_key) (λ a e. tt))
          (λ private_key _.
            Keeps-bind Holds
              (Keeps-from_result Holds {Q = λ a. d.cipher_encrypt token ≡ ok a}
                (d.cipher_encrypt token) (λ a e. e))
              (λ device_token e1.
                Keeps-bind Holds
                  (Keeps-from_result Holds {Q = λ a. d.cipher_encrypt account_key ≡ ok a}
                    (d.cipher_encrypt account_key) (λ a e. e))
                  (λ encrypted_key e2. record {
                    at = λ s j. (
                      h
                          (record {
                            service_url = service_url;
                            account_id = account_id;
                            device_id = device_id;
                            device_public_key = device.public_key;
                            encrypted_device_private_key = private_key;
                            encrypted_device_token = device_token;
                            encrypted_account_key = encrypted_key;
                            key_version = key_version;
                            status = connected;
                            last_error = none;
                          })
                          refl refl refl e1 e2,
                      tt,
                    );
                  })))

  -- The account is the one that the service has handed out to this device, with its token, and the key is
  -- checked.
  abbrev pub IsConnected : CeremonyKind → PendingCeremony → StoredSyncAccount → Type 0
  IsConnected kind pending stored =
      (claim : ClaimedPasskey) × IsAnswer d service service.claimed claim
      × (claim.device_id ≡ pending.device_id)
      × (stored.account_id ≡ claim.account_id)
      × (stored.device_id ≡ pending.device_id)
      × (d.cipher_encrypt claim.device_token ≡ ok stored.encrypted_device_token)
      × (d.cipher_encrypt pending.account_key ≡ ok stored.encrypted_account_key)
      × IsChecked d service kind pending.account_key

  abbrev pub CeremonyOutcome :
      Option StoredSyncAccount → CeremonyKind → PendingCeremony → Option StoredSyncAccount → Type 0
  CeremonyOutcome before kind pending account =
      (account ≡ before)
      ⊎ ((stored : StoredSyncAccount) × (account ≡ some stored) × IsConnected kind pending stored)

  module _ (kind : CeremonyKind) (name : Option String) (pending : PendingCeremony)
      (callback : Result String (String × String)) (s : SyncManager) where
    abbrev J : Option StoredSyncAccount → Type 0
    J = CeremonyOutcome s.account kind pending

    Keeps-shown :
        (o : Option String)
        → Keeps (Holds J) Keep.Any (modify {E = String} (show_recovery_key d service o))
    Keeps-shown none = record { at = λ s j. (j, tt) }
    Keeps-shown (some key) = record { at = λ s j. (j, tt) }

    Keeps-cleared : Keeps (Holds J) Keep.Any (modify {E = String} clear_transient)
    Keeps-cleared = record { at = λ s j. (j, tt) }

    Keeps-complete_ceremony :
        Keeps (Holds J) Keep.Any (complete_ceremony d service kind name pending callback)
    unfolding complete_ceremony
    Keeps-complete_ceremony =
        Keeps-bind (Holds J)
          (Keeps-Holds J (λ a. Keeps-claim_ceremony d service a kind name pending callback))
          (λ claim (answered, same).
            Keeps-bind (Holds J)
              (Keeps-Holds J (λ a. Keeps-establish_or_roll_back d service a kind pending claim))
              (λ version checked.
                Keeps-then (Holds J)
                  (Keeps-save_account J pending.service_url claim.account_id pending.device_id
                    pending.device claim.device_token pending.account_key version
                    (λ stored e1 e2 e3 e4 e5.
                      inr (stored, refl, (claim, answered, same, e1, e2, e4, e5, checked))))
                  (Keeps-then (Holds J) (Keeps-shown pending.recovery_key) (
                    Keeps-then (Holds J) Keeps-cleared
                      (Keeps-Holds J (λ a. Keeps-refresh_devices d service a))))))

    -- However the service answers, a ceremony leaves the account of the profile as it is, or connects the profile
    -- to an account that the service has handed out to this very device. A sign-in does so only with a
    -- recovered key that decrypts a verifier record which the service has sent.
    pub complete_ceremony-account :
        CeremonyOutcome s.account kind pending
          (complete_ceremony d service kind name pending callback s).1.account
    complete_ceremony-account =
        Ends-state (Holds J) Keep.Any (complete_ceremony d service kind name pending callback s)
          (Keeps-complete_ceremony.at s (inl refl))
