-- ===== src/Sync/Memory/Devices/Enrolling.antt =====
-- The life of an enrollment: `approveEnrollment` and `takeEnrollment` of
-- services/sync/src/memoryRepository.ts.
use locus_browser.Base.{
  subst, ℕ, ◌≡◌, ◌≢◌, ◌≤◌, refl, ap, ◌∙◌, String, false, none, some, Option, arith, get, delete,
  get-set_self, get-delete_self, Option-cases, inl, inr, ok, err, eq_iff, truthy,
}
use locus_browser.Sync.Models.{Enrollment}
use locus_browser.Sync.Memory.State.{Repository, Error}
use locus_browser.Sync.Memory.Devices.{
  authenticate, is_stale, pending, approve, approve_enrollment, ready, or_zero, delivery, deliver,
  take_enrollment,
}
use locus_browser.Sync.Memory.Devices.Tokens.{authenticate_lem}

pending-eq-some :
    (o : Option Enrollment) (code : String) (now : ℕ) (e : Enrollment)
    → pending o code now ≡ some e
    → (o ≡ some e) × (is_stale e code now ≡ false) × (truthy e.wrapped_account_key ≡ false)
unfolding pending
pending-eq-some none code now e h = cc
pending-eq-some (some x) code now e h = (ground arith, ground arith, ground arith)

-- A rejected approval changes nothing.
pub approve_enrollment_err :
    (account_id id code wrapped token hash : String) (now : ℕ) (s t : Repository) (e : Error)
    → approve_enrollment account_id id code wrapped token hash now s ≡ (err e, t)
    → t ≡ s
unfolding approve_enrollment
approve_enrollment_err account_id id code wrapped token hash now s t e h = ground arith

approve_enrollment-eq-ok :
    (account_id id code wrapped token hash : String) (now : ℕ) (s t : Repository)
    → approve_enrollment account_id id code wrapped token hash now s ≡ (ok tt, t)
    → (e : Enrollment) × (version : ℕ) × (pending (get s.enrollments id) code now ≡ some e)
      × (get s.key_versions account_id ≡ some version)
      × (approve account_id id e wrapped token hash version now s ≡ t)
unfolding approve_enrollment
approve_enrollment-eq-ok account_id id code wrapped token hash now s t h =
    elim (Option-cases (pending (get s.enrollments id) code now)) [
      | inl e ↦ absurd (ground arith)
      | inr (e, p) ↦ elim (Option-cases (get s.key_versions account_id)) [
        | inl q ↦ absurd (ground arith)
        | inr (version, q) ↦ (e, version, p, q, ground arith)
      ]
    ]

authenticate-approve :
    (account_id id : String) (e : Enrollment) (wrapped token hash : String) (version now later : ℕ)
    (s : Repository)
    → (authenticate hash later (approve account_id id e wrapped token hash version now s)).0
      ≡ ok (some (record { account_id = account_id; device_id = e.device_id }))
unfolding approve
authenticate-approve account_id id e wrapped token hash version now later s =
    (authenticate_lem hash later (approve account_id id e wrapped token hash version now s)).0
    ∙ ap ok (get-set_self s.tokens hash _)

renew_fresh :
    (e : Enrollment) (code : String) (now later : ℕ)
    → is_stale e code now ≡ false
    → later ≤ e.expires_at
    → is_stale e code later ≡ false
unfolding is_stale
renew_fresh e code now later fresh h = ground arith

take_again :
    (id code : String) (later : ℕ) (s : Repository)
    → get s.enrollments id ≡ none
    → take_enrollment id code later s ≡ (ok none, s)
unfolding take_enrollment ready deliver
take_again id code later s h = rw (h, ready) refl

approved : String → Enrollment → String → String → Enrollment
approved account_id e wrapped token = record e {
  account_id = some account_id;
  wrapped_account_key = some wrapped;
  device_token = some token;
}

ready-approved :
    (account_id : String) (e : Enrollment) (wrapped token code : String) (later : ℕ)
    → wrapped ≢ ""
    → token ≢ ""
    → is_stale e code later ≡ false
    → ready (some (approved account_id e wrapped token)) code later
      ≡ some (approved account_id e wrapped token, wrapped, token)
unfolding ready approved is_stale
ready-approved account_id e wrapped token code later some_key some_token fresh =
    ground (arith, eq_iff wrapped "", eq_iff token "")

take_ready :
    (id code : String) (later : ℕ) (s : Repository) (e : Enrollment) (key token : String)
    → ready (get s.enrollments id) code later ≡ some (e, key, token)
    → let u : Repository = record s { enrollments = delete s.enrollments id } in
      take_enrollment id code later s ≡ (ok (delivery u e key token), u)
unfolding take_enrollment deliver
take_ready id code later s e key token h = rw h refl

delivery-approved :
    (account_id : String) (e : Enrollment) (wrapped token : String) (u : Repository)
    → account_id ≢ ""
    → delivery u (approved account_id e wrapped token) wrapped token
      ≡ some (record {
        account_id = account_id;
        device_id = e.device_id;
        wrapped_account_key = wrapped;
        device_token = token;
        key_version = or_zero (get u.key_versions account_id);
      })
unfolding delivery approved
delivery-approved account_id e wrapped token u h = ground (arith, eq_iff account_id "")

take-approve :
    (account_id id code : String) (e : Enrollment) (wrapped token hash : String)
    (version now later : ℕ) (s : Repository)
    → account_id ≢ ""
    → wrapped ≢ ""
    → token ≢ ""
    → is_stale e code later ≡ false
    → get s.key_versions account_id ≡ some version
    → let (r, u) =
        take_enrollment id code later (approve account_id id e wrapped token hash version now s) in
      (r
        ≡ ok (
            some (record {
              account_id = account_id;
              device_id = e.device_id;
              wrapped_account_key = wrapped;
              device_token = token;
              key_version = or_zero (get s.key_versions account_id);
            })))
      × (take_enrollment id code later u ≡ (ok none, u))
unfolding approve approved
take-approve account_id id code e wrapped token hash version now later s some_account some_key
      some_token fresh q =
    let t = approve account_id id e wrapped token hash version now s in
    let e' = approved account_id e wrapped token in
    let u : Repository = record t { enrollments = delete t.enrollments id } in
    let taken : take_enrollment id code later t ≡ (ok (delivery u e' wrapped token), u) =
      take_ready id code later t e' wrapped token (
        ap (λ o. ready o code later) (get-set_self s.enrollments id e')
        ∙ ready-approved account_id e wrapped token code later some_key some_token fresh) in
    rw (taken, delivery-approved account_id e wrapped token u some_account)
      (refl, take_again id code later u (get-delete_self t.enrollments id))

-- After an approval the device's token authenticates it, and the enrollment can be taken with its
-- code until it expires, which delivers the account, the wrapped key, the token and the key
-- version; it can be taken no second time. None of the account, the key and the token is empty.
pub take-approve_enrollment :
    (account_id id code wrapped token hash : String) (now later : ℕ) (s t : Repository)
    (e : Enrollment)
    → account_id ≢ ""
    → wrapped ≢ ""
    → token ≢ ""
    → get s.enrollments id ≡ some e
    → later ≤ e.expires_at
    → approve_enrollment account_id id code wrapped token hash now s ≡ (ok tt, t)
    → let (r, u) = take_enrollment id code later t in
      ((authenticate hash later t).0
        ≡ ok (some (record { account_id = account_id; device_id = e.device_id })))
      × (r
          ≡ ok (
              some (record {
                account_id = account_id;
                device_id = e.device_id;
                wrapped_account_key = wrapped;
                device_token = token;
                key_version = or_zero (get s.key_versions account_id);
              })))
      × (take_enrollment id code later u ≡ (ok none, u))
take-approve_enrollment account_id id code wrapped token hash now later s t e some_account some_key
      some_token there unexpired h =
    let (e', version, p, q, done) =
      approve_enrollment-eq-ok account_id id code wrapped token hash now s t h in
    let (found, fresh, _) = pending-eq-some (get s.enrollments id) code now e' p in
    let same : e' ≡ e = cc in
    let fresh' : is_stale e code now ≡ false =
      subst (λ x. is_stale x code now ≡ false) same fresh in
    let done' : approve account_id id e wrapped token hash version now s ≡ t =
      subst (λ x. approve account_id id x wrapped token hash version now s ≡ t) same done in
    let (taken, again) =
      take-approve account_id id code e wrapped token hash version now later s some_account some_key
        some_token (renew_fresh e code now later fresh' unexpired) q in
    rw (← done')
      (authenticate-approve account_id id e wrapped token hash version now later s, taken, again)
