-- ===== src/Sync/Manager/Sound.antt =====
-- What the manager saves as the account of the profile.
use locus_browser.Base.{
  ℕ, zero, suc, ◌≡◌, refl, String, Bool, true, false, not, leb, Option, none, some, List, [], ◌∷◌,
  Result, ok, err, raise, throw_if, Bool-cases, inl, inr, arith, Any, sym,
}
use locus_browser.Base.Keeps.{Keeps, Ends, Keeps-bind, Keeps-then, Keeps-if, Keeps-from_result}
use locus_browser.Sync.Manager.{
  SyncManager, Device, SyncService, StoredSyncAccount, EncryptedRecord, PullPage, ApiCall, Managing,
  ask, get_page,
}
use locus_browser.Sync.Manager.Verifier.{
  next_page, check_page, verify_pages, verify_recovered_account_key, find_verifier, is_verifier,
  verifier_value, assert_sync_key_verifier,
}

find_verifier-is_verifier :
    (records : List EncryptedRecord) (r : EncryptedRecord)
    → find_verifier records ≡ some r
    → Any (λ q. r ≡ q) records × (is_verifier r ≡ true)
unfolding find_verifier
find_verifier-is_verifier [] r h = cc
find_verifier-is_verifier (q ∷ records) r h = elim (Bool-cases (is_verifier q)) [
  | inl e ↦ let same : q ≡ r = ground arith in (inl (sym same), cc)
  | inr e ↦ let (there, v) = find_verifier-is_verifier records r (rw e at h) in (inr there, v)
]

module _ (d : Device) (service : SyncService) where
  -- A record stands on a page of the service.
  abbrev pub IsSent : EncryptedRecord → Type 0
  IsSent r =
      (calls : List ApiCall) × (pulled : PullPage) × (service.page calls ≡ ok pulled)
      × Any (λ q. r ≡ q) pulled.records

  -- An answer of the service to some requests.
  abbrev pub IsAnswer : {A : Type 0} → (List ApiCall → Result String A) → A → Type 0
  IsAnswer answer a = (calls : List ApiCall) × (answer calls ≡ ok a)

  -- The service has sent a record by which the key is checked, and the key decrypts it.
  abbrev pub IsVerified : String → Type 0
  IsVerified account_key =
      (r : EncryptedRecord) × IsSent r
      × (is_verifier r ≡ true)
      × (verifier_value (d.decrypt_record account_key r) ≡ true)

  assert_sync_key_verifier-ok :
      (account_key : String) (r : EncryptedRecord) (u : Unit {0})
      → assert_sync_key_verifier d account_key r ≡ ok u
      → verifier_value (d.decrypt_record account_key r) ≡ true
  unfolding assert_sync_key_verifier
  assert_sync_key_verifier-ok account_key r u h = ground arith

  -- Requests leave the account and all else but their log as they are.
  abbrev pub HasAccount : Option StoredSyncAccount → SyncManager → Type 0
  HasAccount account s = s.account ≡ account

  module _ (account : Option StoredSyncAccount) where
    Ends-IsAnswer :
        {A : Type 0} (answer : List ApiCall → Result String A) (calls : List ApiCall)
        (r : Result String A) (s : SyncManager)
        → answer calls ≡ r
        → HasAccount account s
        → Ends (HasAccount account) (IsAnswer answer) (r, s)
    Ends-IsAnswer answer calls (ok a) s e h = (h, (calls, e))
    Ends-IsAnswer answer calls (err e') s e h = h

    pub Keeps-ask :
        {A : Type 0} (answer : List ApiCall → Result String A) (call : ApiCall)
        → Keeps (HasAccount account) (IsAnswer answer) (ask answer call)
    unfolding ask
    Keeps-ask answer call = record {
      at = λ s h.
          Ends-IsAnswer answer (call ∷ s.sent) (answer (call ∷ s.sent))
            (record s { sent = call ∷ s.sent }) refl h;
    }

    pub Keeps-throw_if :
        (test : Bool) (e : String)
        → Keeps (HasAccount account) (λ u. test ≡ false) (throw_if test e)
    Keeps-throw_if true e = record { at = λ s h. h }
    Keeps-throw_if false e = record { at = λ s h. (h, refl) }

    pub Keeps-raise :
        {A : Type 0} (Q : A → Type 0) (e : String) → Keeps (HasAccount account) Q (raise {A = A} e)
    Keeps-raise Q e = record { at = λ s h. h }

    Keeps-next_page :
        (Q : Unit {0} → Type 0) (pulled : PullPage) (cursor : ℕ) (rest : Managing (Unit {0}))
        → Keeps (HasAccount account) Q rest
        → Keeps (HasAccount account) Q (next_page pulled cursor rest)
    unfolding next_page
    Keeps-next_page Q pulled cursor rest h =
        Keeps-if (HasAccount account) (not pulled.has_more) (Keeps-raise Q _)
          (Keeps-if (HasAccount account) (leb pulled.cursor cursor) (Keeps-raise Q _) h)

    Keeps-check_page :
        (account_key : String) (o : Option EncryptedRecord) (rest : Managing (Unit {0}))
        → ((r : EncryptedRecord) → o ≡ some r → IsSent r × (is_verifier r ≡ true))
        → Keeps (HasAccount account) (λ u. IsVerified account_key) rest
        → Keeps (HasAccount account) (λ u. IsVerified account_key) (check_page d account_key o rest)
    unfolding check_page
    Keeps-check_page account_key none rest f h = h
    Keeps-check_page account_key (some r) rest f h =
        Keeps-from_result (HasAccount account) (assert_sync_key_verifier d account_key r)
          (λ u e. (r, (f r refl).0, (f r refl).1, assert_sync_key_verifier-ok account_key r u e))

    verify_pages-IsVerified :
        (pages cursor : ℕ) (token account_key : String)
        → Keeps
            (HasAccount account)
            (λ u. IsVerified account_key)
            (verify_pages d service pages cursor token account_key)
    unfolding verify_pages
    verify_pages-IsVerified zero cursor token account_key = Keeps-raise _ _
    verify_pages-IsVerified (suc pages) cursor token account_key =
        Keeps-bind (HasAccount account) (Keeps-ask service.page (get_page cursor token))
          (λ pulled (calls, got). Keeps-then (HasAccount account) (Keeps-throw_if _ _) (
            Keeps-check_page account_key (find_verifier pulled.records) _
              (λ r e.
                let (there, v) = find_verifier-is_verifier pulled.records r e in
                ((calls, pulled, got, there), v))
              (Keeps-next_page _ pulled cursor _
                (verify_pages-IsVerified pages pulled.cursor token account_key))))

    pub verify_recovered_account_key-IsVerified :
        (token account_key : String)
        → Keeps
            (HasAccount account)
            (λ u. IsVerified account_key)
            (verify_recovered_account_key d service token account_key)
    unfolding verify_recovered_account_key
    verify_recovered_account_key-IsVerified token account_key =
        verify_pages-IsVerified 100 0 token account_key
