-- ===== src/Sync/Memory/Records/Merge.antt =====
-- The merge rule of `push` in services/sync/src/memoryRepository.ts: under each key the record with
-- the greatest clock stays, and a batch that is sent again changes nothing.
use locus_browser.Base.{
  Option-cases, ◌≢◌, none, str_eq, ℕ, ◌+◌, ◌≤◌, String, ◌≡◌, sym, ap, subst, ◌⊎◌, inl, inr, true,
  some, List, [], ◌∷◌, arith, get, eq_iff, text_leb, text_leb_refl, get-set, length, All, All-map,
  Any, Bool-cases, ok,
}
use locus_browser.Sync.Models.{AuthenticatedDevice, OpaqueSyncRecord, CursorRecord}
use locus_browser.Sync.Memory.State.{Repository, stored_key}
use locus_browser.Sync.Memory.Records.{PushResult, is_foreign, is_current, offer, push_each, push}
use locus_browser.Sync.Memory.Records.Push.{
  IsCurrent, push_each-cons, push_each_foreign, push_each_induction, push_each_lem, push_each_again,
  push_inversion, push_intro, push_each_others, offer-keeps_IsCurrent,
}

offer_origin :
    (device : AuthenticatedDevice) (now : ℕ) (r : OpaqueSyncRecord) (s : Repository) (k : String)
    (e : CursorRecord)
    → get (offer device now r s).1.records k ≡ some e
    → (get s.records k ≡ some e) ⊎ ((stored_key device.account_id r ≡ k) × (r ≡ e.body))
unfolding offer
offer_origin device now r s k e h = ground (
  arith,
  eq_iff (stored_key device.account_id r) k,
  get-set s.records (stored_key device.account_id r) k (record { body = r; cursor = s.cursor + 1 }),
)

-- A record that the loop leaves was there, or is in the batch.
push_each_origin :
    (device : AuthenticatedDevice) (now : ℕ) (rs : List OpaqueSyncRecord) (n : ℕ) (s : Repository)
    (k : String) (e : CursorRecord)
    → get (push_each device now rs n s).1.records k ≡ some e
    → (get s.records k ≡ some e) ⊎ Any (λ r. (stored_key device.account_id r ≡ k) × (r ≡ e.body)) rs
push_each_origin device now [] n s k e h = inl (unfold push_each in h)
push_each_origin device now (r ∷ rs) n s k e h = elim (Bool-cases (is_foreign device r)) [
  | inl f ↦ inl (rw (push_each_foreign device now r rs n s f) at h)
  | inr f ↦
      elim (push_each_origin device now rs _ (offer device now r s).1 k e
        (rw (push_each-cons device now r rs n s f) at h)) [
          | inr later ↦ inr (inr later)
          | inl here ↦ elim (offer_origin device now r s k e here) [
            | inl old ↦ inl old
            | inr fresh ↦ inr (inl fresh)
          ]
        ]
]

current_of_get :
    (t : Repository) (k : String) (r : OpaqueSyncRecord) (e : CursorRecord)
    → IsCurrent t k r
    → get t.records k ≡ some e
    → text_leb r.clock e.clock ≡ true
unfolding is_current
current_of_get t k r e c h = ground arith

IsCurrent-old :
    (s : Repository) (k : String) (old : CursorRecord)
    → get s.records k ≡ some old
    → IsCurrent s k old.body
unfolding is_current
IsCurrent-old s k old h = ground (arith, text_leb_refl old.clock)

-- The record is of another key, or its clock is not past that of the record found.
abbrev pub IsOutdone : String → String → CursorRecord → OpaqueSyncRecord → Type 0
IsOutdone account_id k e r = (stored_key account_id r ≢ k) ⊎ (text_leb r.clock e.clock ≡ true)

IsOutdone-IsCurrent :
    (account_id : String) (t : Repository) (k : String) (e : CursorRecord) (r : OpaqueSyncRecord)
    → get t.records k ≡ some e
    → IsCurrent t (stored_key account_id r) r
    → IsOutdone account_id k e r
IsOutdone-IsCurrent account_id t k e r found c =
    elim (Bool-cases (str_eq (stored_key account_id r) k)) [
      | inr other ↦ inl (λ key. cc ((eq_iff (stored_key account_id r) k).1 key))
      | inl same ↦
          let key : stored_key account_id r ≡ k = (eq_iff (stored_key account_id r) k).0 same in
          inr (current_of_get t k r e (subst (λ j. IsCurrent t j r) key c) found)
    ]

-- After a push that returns, each record found under a key was there before or comes from the
-- batch; its clock is at least that of every record of the batch with that key, and of the
-- record that was there, if there was one.
pub push_newest :
    (device : AuthenticatedDevice) (version : ℕ) (rs : List OpaqueSyncRecord) (now : ℕ)
    (s t : Repository) (result : PushResult) (k : String) (e : CursorRecord)
    → push device version rs now s ≡ (ok result, t)
    → get t.records k ≡ some e
    → ((get s.records k ≡ some e)
        ⊎ Any (λ r. (stored_key device.account_id r ≡ k) × (r ≡ e.body)) rs)
      × All (IsOutdone device.account_id k e) rs
      × ((get s.records k ≡ none)
          ⊎ ((old : CursorRecord) × (get s.records k ≡ some old)
              × (text_leb old.clock e.clock ≡ true)))
push_newest device version rs now s t result k e pushed found =
    let (_, looped, _) = push_inversion device version rs now s t result pushed in
    let same : (push_each device now rs 0 s).1 ≡ t = ap (λ x. x.1) looped in
    let (_, _, _, _, current) = push_each_lem device now rs 0 result.accepted s t looped in
    (
      push_each_origin device now rs 0 s k e
          (subst (λ u. get u.records k ≡ some e) (sym same) found),
      All-map _ _ (λ r c. IsOutdone-IsCurrent device.account_id t k e r found c) rs current,
      elim (Option-cases (get s.records k)) [
        | inl absent ↦ inl absent
        | inr (old, was) ↦ inr (
          old,
          was,
          current_of_get t k old.body e
              (subst (λ u. IsCurrent u k old.body) same
                (push_each_induction (λ u. IsCurrent u k old.body) device now
                  (λ q u _ h. offer-keeps_IsCurrent device now q u k old.body h) rs 0 s
                  (IsCurrent-old s k old was)))
              found,
        )
      ],
    )

-- Sending the batch of a push that returned once more, whenever that is, accepts no record and
-- leaves the repository as it is.
pub push_again :
    (device : AuthenticatedDevice) (version : ℕ) (rs : List OpaqueSyncRecord) (now later : ℕ)
    (s t : Repository) (result : PushResult)
    → push device version rs now s ≡ (ok result, t)
    → push device version rs later t ≡ (ok (record { cursor = t.cursor; accepted = 0 }), t)
push_again device version rs now later s t result pushed =
    let (same_version, looped, _) = push_inversion device version rs now s t result pushed in
    let (_, _, _, own, current) = push_each_lem device now rs 0 result.accepted s t looped in
    let same : t.key_versions ≡ s.key_versions =
      subst (λ u. u.key_versions ≡ s.key_versions) (ap (λ x. x.1) looped)
        (push_each_others device now rs 0 s).2 in
    push_intro device version rs later 0 t t (rw same same_version)
      (push_each_again device later rs 0 t own current)

-- A push that returns gives out as many cursors as it accepts records, at most one for each
-- record of the batch, and answers with the last one.
pub push-cursor :
    (device : AuthenticatedDevice) (version : ℕ) (rs : List OpaqueSyncRecord) (now : ℕ)
    (s t : Repository) (result : PushResult)
    → push device version rs now s ≡ (ok result, t)
    → (t.cursor ≡ s.cursor + result.accepted)
      × (result.accepted ≤ length rs)
      × (result.cursor ≡ t.cursor)
push-cursor device version rs now s t result pushed =
    let (_, looped, last) = push_inversion device version rs now s t result pushed in
    let (a, b, c, _, _) = push_each_lem device now rs 0 result.accepted s t looped in
    (omega arith, omega arith, last)
