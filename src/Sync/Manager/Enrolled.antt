-- ===== src/Sync/Manager/Enrolled.antt =====
-- The account that an enrollment or a new account key leaves.
use locus_browser.Base.{
  ℕ, ◌<◌, ◌≡◌, ◌⊎◌, refl, String, Bool, true, false, not, leb, ltb, ◌==◌, Option, none, some, ok,
  modify, throw_if, str_eq, inl, inr, arith, Bool-cases,
}
use locus_browser.Base.Keeps.{
  Keeps, Ends, Keeps-bind, Keeps-then, Keeps-pure, Keeps-from_result, Keeps-or_throw, Keeps-if,
}
use locus_browser.Base.Keeps as Keep
use locus_browser.Sync.Manager.{
  SyncManager, Device, SyncService, StoredSyncAccount, connected, PendingEnrollment,
  EnrollmentDelivery, AccountKeyState, Managing, claim_enrollment, get_key,
}
use locus_browser.Sync.Manager.Ceremony.{clear_transient}
use locus_browser.Sync.Manager.Enrollment.{
  enrollment_claim, take_delivery, take_answer, expire, ask_delivery, claim_pending,
  claim_device_enrollment, keep_key, unless_empty, adopt_key, take_key_state, refresh_account_key,
}
use locus_browser.Sync.Manager.Sound.{
  IsVerified, IsAnswer, HasAccount, Keeps-ask, verify_recovered_account_key-IsVerified,
}
use locus_browser.Sync.Manager.Steps.{Keeps-refresh_devices, Keeps-lift}
use locus_browser.Sync.Manager.Saved.{Ends-state, Holds, Keeps-Holds, Keeps-save_account}

module _ (d : Device) (service : SyncService) where
  -- The account is the one that the pending enrollment was delivered, and the delivered key is verified.
  abbrev pub IsEnrolled : PendingEnrollment → StoredSyncAccount → Type 0
  IsEnrolled pending stored =
      (delivery : EnrollmentDelivery) × (account_key : String) × IsAnswer d service service.delivery
        (some delivery)
      × (stored.account_id ≡ delivery.account_id)
      × (stored.device_id ≡ pending.device_id)
      × (d.unwrap_account_key delivery.wrapped_account_key pending.device ≡ ok account_key)
      × (d.cipher_encrypt account_key ≡ ok stored.encrypted_account_key)
      × IsVerified d service account_key

  abbrev pub EnrollmentOutcome : ℕ → SyncManager → Option StoredSyncAccount → Type 0
  EnrollmentOutcome now before account =
      (account ≡ before.account)
      ⊎ ((pending : PendingEnrollment) × (stored : StoredSyncAccount) × (before.pending_enrollment
            ≡ some pending)
          × (now < pending.expires_at)
          × (account ≡ some stored)
          × IsEnrolled pending stored)

  module _ (now : ℕ) (before : SyncManager) where
    abbrev Outcome : Option StoredSyncAccount → Type 0
    Outcome = EnrollmentOutcome now before

    abbrev Kept : Managing (Unit {0}) → Type 0
    Kept m = Keeps (Holds d service Outcome) Keep.Any m

    Keeps-check : (test : Bool) (e : String) → Kept (throw_if test e)
    Keeps-check true e = record { at = λ s j. j }
    Keeps-check false e = record { at = λ s j. (j, tt) }

    Keeps-enrolled : Kept (modify (λ s. clear_transient (record s { pending_enrollment = none })))
    Keeps-enrolled = record { at = λ s j. (j, tt) }

    module _ (pending : PendingEnrollment) (waiting : before.pending_enrollment ≡ some pending)
        (early : now < pending.expires_at) where
      Keeps-take_delivery :
          (delivery : EnrollmentDelivery)
          → IsAnswer d service service.delivery (some delivery)
          → Kept (take_delivery d service pending delivery)
      unfolding take_delivery
      Keeps-take_delivery delivery answered =
          Keeps-then (Holds d service Outcome)
            (Keeps-check (not (enrollment_claim delivery)) "Invalid response")
            (Keeps-then (Holds d service Outcome)
              (Keeps-check (not (str_eq delivery.device_id pending.device_id))
                "Enrollment was issued to another device")
              (Keeps-bind (Holds d service Outcome)
                (Keeps-from_result (Holds d service Outcome)
                  {Q = λ k. d.unwrap_account_key delivery.wrapped_account_key pending.device ≡ ok k}
                  (d.unwrap_account_key delivery.wrapped_account_key pending.device) (λ k e. e))
                (λ account_key unwrapped.
                  Keeps-bind (Holds d service Outcome)
                    (Keeps-Holds d service Outcome (λ a.
                      verify_recovered_account_key-IsVerified d service a delivery.device_token
                        account_key))
                    (λ u verified.
                      Keeps-then (Holds d service Outcome)
                        (Keeps-save_account d service Outcome pending.service_url
                          delivery.account_id pending.device_id pending.device delivery.device_token
                          account_key delivery.key_version
                          (λ stored e1 e2 e3 e4 e5. inr (
                            pending,
                            stored,
                            waiting,
                            early,
                            refl,
                            (delivery, account_key, answered, e1, e2, unwrapped, e5, verified),
                          )))
                        (Keeps-then (Holds d service Outcome) Keeps-enrolled (
                          Keeps-Holds d service Outcome
                            (λ a. Keeps-refresh_devices d service a)))))))

      Keeps-take_answer :
          (answer : Option EnrollmentDelivery)
          → IsAnswer d service service.delivery answer
          → Kept (take_answer d service pending answer)
      unfolding take_answer
      Keeps-take_answer none h = record { at = λ s j. (j, tt) }
      Keeps-take_answer (some delivery) h = Keeps-take_delivery delivery h

      Keeps-ask_delivery : Kept (ask_delivery d service pending)
      unfolding ask_delivery
      Keeps-ask_delivery =
          Keeps-bind (Holds d service Outcome)
            (Keeps-Holds d service Outcome (λ a.
              Keeps-ask d service a service.delivery
                (claim_enrollment pending.enrollment_id pending.approval_code)))
            Keeps-take_answer

    Keeps-expire : Kept (expire d service)
    unfolding expire
    Keeps-expire = record { at = λ s j. j }

    Keeps-claim_pending :
        (pending : Option PendingEnrollment)
        → before.pending_enrollment ≡ pending
        → Kept (claim_pending d service now pending)
    unfolding claim_pending
    Keeps-claim_pending none h = record { at = λ s j. (j, tt) }
    Keeps-claim_pending (some pending) h = elim (Bool-cases (leb pending.expires_at now)) [
      | inl e ↦ rw e Keeps-expire
      | inr e ↦ rw e (Keeps-ask_delivery pending h (ground arith))
    ]

    -- However the service answers, a check of the enrollment leaves the account of the profile as it is, or
    -- connects the profile: only where an enrollment is pending that has not expired, to the account that the
    -- service delivers for it, under this device's own identifier, with a key that the device's private key
    -- unwraps and that decrypts a verifier record which the service has sent.
    pub claim_device_enrollment-account :
        EnrollmentOutcome now before (claim_device_enrollment d service now before).1.account
    unfolding claim_device_enrollment
    claim_device_enrollment-account =
        Ends-state (Holds d service Outcome) Keep.Any
          (claim_pending d service now before.pending_enrollment before)
          ((Keeps-claim_pending before.pending_enrollment refl).at before (inl refl))

  -- The account has a newer key, which is verified, and is otherwise the same.
  abbrev pub IsRekeyed : StoredSyncAccount → StoredSyncAccount → Type 0
  IsRekeyed account stored =
      (account.key_version < stored.key_version)
      × (stored.account_id ≡ account.account_id)
      × (stored.device_id ≡ account.device_id)
      × (stored.encrypted_device_token ≡ account.encrypted_device_token)
      × ((account_key : String) × (d.cipher_encrypt account_key ≡ ok stored.encrypted_account_key)
          × IsVerified d service account_key)

  abbrev pub RefreshOutcome : StoredSyncAccount → Option StoredSyncAccount → Type 0
  RefreshOutcome account after =
      (after ≡ some account)
      ⊎ ((stored : StoredSyncAccount) × (after ≡ some stored) × IsRekeyed account stored)

  module _ (account : StoredSyncAccount) (token : String) where
    abbrev Refreshing : Managing (Unit {0}) → Type 0
    Refreshing m = Keeps (Holds d service (RefreshOutcome account)) Keep.Any m

    Keeps-keep_key : Refreshing (keep_key d service account)
    unfolding keep_key
    Keeps-keep_key = Keeps-Holds d service (RefreshOutcome account) (λ a.
        Keeps-bind (HasAccount d service a)
          (Keeps-lift d service a (d.cipher_decrypt account.encrypted_account_key))
          (λ key _. Keeps-pure (HasAccount d service a) tt))

    Keeps-adopt_key :
        (state : AccountKeyState)
        → account.key_version < state.version
        → Refreshing (adopt_key d service account token state)
    unfolding adopt_key
    Keeps-adopt_key state newer =
        let I = Holds d service (RefreshOutcome account) in
        Keeps-bind I
          (Keeps-or_throw I {Q = Keep.Any} (unless_empty state.wrapped_account_key)
            "This device has not received the newest sync key" (λ w e. tt))
          (λ wrapped _.
            Keeps-bind I
              (Keeps-Holds d service (RefreshOutcome account) (λ a.
                Keeps-lift d service a (d.cipher_decrypt account.encrypted_device_private_key)))
              (λ private_key _.
                Keeps-bind I
                  (Keeps-Holds d service (RefreshOutcome account) (λ a. Keeps-lift d service a (
                    d.unwrap_account_key wrapped (record {
                      public_key = account.device_public_key;
                      private_key = private_key;
                    }))))
                  (λ account_key _.
                    Keeps-bind I
                      (Keeps-Holds d service (RefreshOutcome account) (λ a.
                        verify_recovered_account_key-IsVerified d service a token account_key))
                      (λ u verified.
                        Keeps-bind I
                          (Keeps-from_result I {Q = λ k. d.cipher_encrypt account_key ≡ ok k}
                            (d.cipher_encrypt account_key) (λ k e. e))
                          (λ encrypted e. record {
                            at = λ s j. (
                              inr (
                                record account {
                                  encrypted_account_key = encrypted;
                                  key_version = state.version;
                                  status = connected;
                                  last_error = none;
                                },
                                refl,
                                (newer, refl, refl, refl, (account_key, e, verified)),
                              ),
                              tt,
                            );
                          })))))

    Keeps-take_key_state :
        (state : AccountKeyState) → Refreshing (take_key_state d service account token state)
    unfolding take_key_state
    Keeps-take_key_state state = elim (Bool-cases (ltb state.version account.key_version)) [
      | inl e ↦ rw e (record { at = λ s j. j })
      | inr e ↦ elim (Bool-cases (state.version == account.key_version)) [
        | inl f ↦ rw (e, f) Keeps-keep_key
        | inr f ↦ rw (e, f) (Keeps-adopt_key state (ground arith))
      ]
    ]

    -- However the service answers, the account key is replaced only by one of a greater version that decrypts a
    -- verifier record which the service has sent; the version never goes back, and the account, the device and
    -- its token stay.
    pub refresh_account_key-account :
        (s : SyncManager)
        → s.account ≡ some account
        → RefreshOutcome account (refresh_account_key d service account token s).1.account
    unfolding refresh_account_key
    refresh_account_key-account s h =
        let I = Holds d service (RefreshOutcome account) in
        Ends-state I Keep.Any (refresh_account_key d service account token s) (
          (Keeps-bind I
              (Keeps-Holds d service (RefreshOutcome account)
                (λ a. Keeps-ask d service a service.key_state (get_key token)))
              (λ state _. Keeps-take_key_state state)).at
            s (inl h))
