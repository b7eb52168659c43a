-- ===== src/Sync/Memory/Records/Push.antt =====
-- What `push` of `MemorySyncRepository` (services/sync/src/memoryRepository.ts) does to the records.
use native.Mathlib.Nat.{add-zero}
use locus_browser.Base.{
  ℕ, ◌+◌, ◌≤◌, String, ◌≡◌, refl, sym, ap, subst, ◌∙◌, inl, inr, true, false, some, List, [], ◌∷◌,
  arith, get, eq_iff, opt_eq, text_leb_refl, text_leb_trans, get-set, get-set_self, text_leb_total,
  length, All, Bool-cases, if◌then◌else◌, ok, err, bind-ok,
}
use locus_browser.Sync.Models.{AuthenticatedDevice, OpaqueSyncRecord}
use locus_browser.Sync.Memory.State.{Repository, ownership_mismatch, stored_key}
use locus_browser.Sync.Memory.Records.{PushResult, is_foreign, is_current, offer, push_each, push}

-- The record stored under the key is at least as new as `r`.
abbrev pub IsCurrent : Repository → String → OpaqueSyncRecord → Type 0
IsCurrent s k r = is_current (get s.records k) r ≡ true

offer-IsCurrent :
    (device : AuthenticatedDevice) (now : ℕ) (r : OpaqueSyncRecord) (s : Repository)
    → IsCurrent (offer device now r s).1 (stored_key device.account_id r) r
unfolding offer
offer-IsCurrent device now r s = ground (
  arith,
  text_leb_refl r.clock,
  get-set_self s.records (stored_key device.account_id r)
      (record { body = r; cursor = s.cursor + 1 }),
)

-- A round gives out one number for each record that it stores.
offer-cursor :
    (device : AuthenticatedDevice) (now : ℕ) (r : OpaqueSyncRecord) (s : Repository)
    → (offer device now r s).1.cursor
      ≡ s.cursor + (if is_current (get s.records (stored_key device.account_id r)) r then 0 else 1)
unfolding offer
offer-cursor device now r s = ground arith

offer-same :
    (device : AuthenticatedDevice) (now : ℕ) (r : OpaqueSyncRecord) (s : Repository)
    → is_current (get s.records (stored_key device.account_id r)) r ≡ true
    → (offer device now r s).1 ≡ s
unfolding offer
offer-same device now r s h = rw h

-- A record that was current stays so: clocks under a key only grow.
pub offer-keeps_IsCurrent :
    (device : AuthenticatedDevice) (now : ℕ) (r : OpaqueSyncRecord) (s : Repository) (k : String)
    (q : OpaqueSyncRecord)
    → IsCurrent s k q
    → IsCurrent (offer device now r s).1 k q
unfolding offer
offer-keeps_IsCurrent device now r s k q h =
    grind (arith, text_leb_trans, text_leb_total, get-set, eq_iff)

-- What a round adds to `accepted`.
abbrev pub taken : AuthenticatedDevice → OpaqueSyncRecord → Repository → ℕ
taken device r s = if is_current (get s.records (stored_key device.account_id r)) r then 0 else 1

offer-taken :
    (device : AuthenticatedDevice) (now : ℕ) (r : OpaqueSyncRecord) (s : Repository)
    → offer device now r s ≡ (ok (taken device r s), (offer device now r s).1)
unfolding offer
offer-taken device now r s =
    elim (Bool-cases (is_current (get s.records (stored_key device.account_id r)) r)) [
      | inl e ↦ rw e
      | inr e ↦ rw e
    ]

-- The loop, one round at a time.
pub push_each-cons :
    (device : AuthenticatedDevice) (now : ℕ) (r : OpaqueSyncRecord) (rs : List OpaqueSyncRecord)
    (n : ℕ) (s : Repository)
    → is_foreign device r ≡ false
    → push_each device now (r ∷ rs) n s
      ≡ push_each device now rs (n + taken device r s) (offer device now r s).1
unfolding push_each
push_each-cons device now r rs n s h = rw h (
    bind-ok (offer device now r) (λ count. push_each device now rs (n + count)) s
      (offer-taken device now r s))

pub push_each_foreign :
    (device : AuthenticatedDevice) (now : ℕ) (r : OpaqueSyncRecord) (rs : List OpaqueSyncRecord)
    (n : ℕ) (s : Repository)
    → is_foreign device r ≡ true
    → push_each device now (r ∷ rs) n s ≡ (err ownership_mismatch, s)
unfolding push_each
push_each_foreign device now r rs n s h = rw h

-- What every accepted offer keeps, the whole loop keeps, also when it throws.
pub push_each_induction :
    (P : Repository → Type 0) (device : AuthenticatedDevice) (now : ℕ)
    → ((r : OpaqueSyncRecord) (s : Repository)
        → is_foreign device r ≡ false
        → P s
        → P (offer device now r s).1)
    → (rs : List OpaqueSyncRecord) (n : ℕ) (s : Repository) → P s
    → P (push_each device now rs n s).1
push_each_induction P device now step [] n s h = unfold push_each in h
push_each_induction P device now step (r ∷ rs) n s h = elim (Bool-cases (is_foreign device r)) [
  | inl e ↦ rw (push_each_foreign device now r rs n s e) h
  | inr e ↦
      rw (push_each-cons device now r rs n s e)
        (push_each_induction P device now step rs _ (offer device now r s).1 (step r s e h))
]

-- When the loop returns, it has counted what it stored, and every record of the batch is current.
pub push_each_lem :
    (device : AuthenticatedDevice) (now : ℕ) (rs : List OpaqueSyncRecord) (n m : ℕ)
    (s t : Repository)
    → push_each device now rs n s ≡ (ok m, t)
    → (t.cursor + n ≡ s.cursor + m)
      × (n ≤ m)
      × (m ≤ n + length rs)
      × All (λ r. is_foreign device r ≡ false) rs
      × All (λ r. IsCurrent t (stored_key device.account_id r) r) rs
push_each_lem device now [] n m s t e =
    unfold push_each in (ground arith, ground arith, ground arith, tt, tt)
push_each_lem device now (r ∷ rs) n m s t e = elim (Bool-cases (is_foreign device r)) [
  | inl f ↦ absurd (cc (push_each_foreign device now r rs n s f))
  | inr f ↦
      let again = push_each-cons device now r rs n s f in
      let (a, b, c, d, g) =
        push_each_lem device now rs _ m (offer device now r s).1 t (sym again ∙ e) in
      let same : (push_each device now rs (n + taken device r s) (offer device now r s).1).1 ≡ t =
        ap (λ x. x.1) (sym again ∙ e) in
      let kept : IsCurrent t (stored_key device.account_id r) r =
        subst (λ u. IsCurrent u (stored_key device.account_id r) r) same
          (push_each_induction (λ u. IsCurrent u (stored_key device.account_id r) r) device now
            (λ q u _ h. offer-keeps_IsCurrent device now q u (stored_key device.account_id r) r h)
            rs _ (offer device now r s).1 (offer-IsCurrent device now r s)) in
      (ground (arith, offer-cursor device now r s), ground arith, ground arith, (f, d), (kept, g))
]

-- A batch whose records are all current is accepted and changes nothing.
pub push_each_again :
    (device : AuthenticatedDevice) (now : ℕ) (rs : List OpaqueSyncRecord) (n : ℕ) (s : Repository)
    → All (λ r. is_foreign device r ≡ false) rs
    → All (λ r. IsCurrent s (stored_key device.account_id r) r) rs
    → push_each device now rs n s ≡ (ok n, s)
push_each_again device now [] n s own current = unfold push_each in refl
push_each_again device now (r ∷ rs) n s own current =
    push_each-cons device now r rs n s own.0
    ∙ rw (current.0, offer-same device now r s current.0, add-zero n)
        (push_each_again device now rs n s own.1 current.1)

-- A push that returns went through the version check and the whole loop.
pub push_inversion :
    (device : AuthenticatedDevice) (version : ℕ) (rs : List OpaqueSyncRecord) (now : ℕ)
    (s t : Repository) (result : PushResult)
    → push device version rs now s ≡ (ok result, t)
    → (opt_eq (get s.key_versions device.account_id) (some version) ≡ true)
      × (push_each device now rs 0 s ≡ (ok result.accepted, t))
      × (result.cursor ≡ t.cursor)
unfolding push
push_inversion device version rs now s t result e = (ground arith, ground arith, ground arith)

pub push_intro :
    (device : AuthenticatedDevice) (version : ℕ) (rs : List OpaqueSyncRecord) (now m : ℕ)
    (s t : Repository)
    → opt_eq (get s.key_versions device.account_id) (some version) ≡ true
    → push_each device now rs 0 s ≡ (ok m, t)
    → push device version rs now s ≡ (ok (record { cursor = t.cursor; accepted = m }), t)
unfolding push
push_intro device version rs now m s t h looped = ground arith

-- A push leaves everything but the records, their times and the cursor alone.
pub push_each_others :
    (device : AuthenticatedDevice) (now : ℕ) (rs : List OpaqueSyncRecord) (n : ℕ) (s : Repository)
    → let t = (push_each device now rs n s).1 in
      (t.tokens ≡ s.tokens)
      × (t.devices ≡ s.devices)
      × (t.key_versions ≡ s.key_versions)
      × (t.enrollments ≡ s.enrollments)
      × (t.ceremonies ≡ s.ceremonies)
      × (t.passkeys ≡ s.passkeys)
      × (t.claims ≡ s.claims)
unfolding offer
push_each_others device now rs n s =
    push_each_induction
      (λ t.
        (t.tokens ≡ s.tokens)
        × (t.devices ≡ s.devices)
        × (t.key_versions ≡ s.key_versions)
        × (t.enrollments ≡ s.enrollments)
        × (t.ceremonies ≡ s.ceremonies)
        × (t.passkeys ≡ s.passkeys)
        × (t.claims ≡ s.claims))
      device now (λ r u _ h. ground arith) rs n s (refl, refl, refl, refl, refl, refl, refl)

-- A push fails on the version check, changing nothing, or ends as its loop does.
pub push_state :
    (P : Repository → Type 0) (device : AuthenticatedDevice) (version : ℕ)
    (rs : List OpaqueSyncRecord) (now : ℕ) (s : Repository)
    → P s
    → P (push_each device now rs 0 s).1
    → P (push device version rs now s).1
unfolding push
push_state P device version rs now s h k = ground arith
