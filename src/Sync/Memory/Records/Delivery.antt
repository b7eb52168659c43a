-- ===== src/Sync/Memory/Records/Delivery.antt =====
-- A pushed record reaches the account's other devices: `push` and `pull` of
-- services/sync/src/memoryRepository.ts together.
use locus_browser.Base.{
  ℕ, ◌+◌, ◌≤◌, ◌<◌, ◌≡◌, ◌⊎◌, ◌∙◌, refl, sym, ap, subst, String, true, Option, some, List, [], ◌∷◌,
  arith, Dict, get, get-set, set, values, str_eq, eq_iff, text_leb, All, All-map, Any, Option-cases,
  Bool-cases, inl, inr, ok,
}
use locus_browser.Sync.Models.{AuthenticatedDevice, OpaqueSyncRecord, CursorRecord}
use locus_browser.Sync.Memory.State.{Repository, stored_key}
use locus_browser.Sync.Memory.Invariant.{Inv}
use locus_browser.Sync.Memory.Records.{
  PushResult, is_current, store, offer, push, is_newer, available,
}
use locus_browser.Sync.Memory.Records.Push.{
  IsCurrent, push_each_induction, push_each_lem, push_inversion,
}
use locus_browser.Sync.Memory.Records.Isolation.{own_account, push-Inv}
use locus_browser.Sync.Memory.Records.Paging.{available_lem}

-- What stands under a key since the counter was `cursor`: the same as then, or a record of the account
-- that was stored later.
abbrev IsSameOrLater : String → ℕ → Option CursorRecord → Option CursorRecord → Type 0
IsSameOrLater account_id cursor old new =
    (new ≡ old)
    ⊎ ((e : CursorRecord) × (new ≡ some e) × (e.account_id ≡ account_id) × (cursor < e.cursor))

offer-IsSameOrLater :
    (device : AuthenticatedDevice) (now : ℕ) (r : OpaqueSyncRecord) (k : String) (s t : Repository)
    → device.account_id ≡ r.account_id
    → (s.cursor ≤ t.cursor)
      × IsSameOrLater device.account_id s.cursor (get s.records k) (get t.records k)
    → let u = (offer device now r t).1 in
      (s.cursor ≤ u.cursor)
      × IsSameOrLater device.account_id s.cursor (get s.records k) (get u.records k)
unfolding offer store
offer-IsSameOrLater device now r k s t own (le, h) =
    elim (Bool-cases (is_current (get t.records (stored_key device.account_id r)) r)) [
      | inl e ↦ rw e (le, h)
      | inr e ↦ rw e (
        omega arith,
        elim (Bool-cases (str_eq (stored_key device.account_id r) k)) [
          | inl same ↦ inr (
            record { body = r; cursor = t.cursor + 1 },
            get-set t.records (stored_key device.account_id r) k _ ∙ rw same refl,
            sym own,
            omega arith,
          )
          | inr other ↦
              let kept : get
                    (set t.records (stored_key device.account_id r)
                      (record { body = r; cursor = t.cursor + 1 }))
                    k
                  ≡ get t.records k =
                get-set t.records (stored_key device.account_id r) k _ ∙ rw other refl in
              subst (λ o. IsSameOrLater device.account_id s.cursor (get s.records k) o) (sym kept) h
        ],
      )
    ]

-- What `get` finds is among the values.
get-Any :
    (m : Dict CursorRecord) (k : String) (e : CursorRecord)
    → get m k ≡ some e
    → Any (λ q. e ≡ q) (values m)
unfolding get
get-Any [] k e h = cc
get-Any ((j, w) ∷ m) k e h = elim (Bool-cases (str_eq j k)) [
  | inl f ↦ inl (ground (arith, rw f at h))
  | inr f ↦ inr (get-Any m k e (rw f at h))
]

picked :
    (P : CursorRecord → Type 0) (xs : List CursorRecord) (e : CursorRecord)
    → All P xs
    → Any (λ q. e ≡ q) xs
    → P e
picked P [] e h m = absurd m
picked P (x ∷ xs) e h (inl same) = subst P (sym same) h.0
picked P (x ∷ xs) e h (inr later) = picked P xs e h.1 later

found_available :
    (t : Repository) (account_id k : String) (cursor : ℕ) (e : CursorRecord)
    → Inv t
    → get t.records k ≡ some e
    → e.account_id ≡ account_id
    → cursor < e.cursor
    → Any (λ q. e ≡ q) (available t account_id cursor)
found_available t account_id k cursor e v found own later =
    let (_, _, all_there) = available_lem t account_id cursor v in
    elim (picked _ (values t.records) e all_there (get-Any t.records k e found)) [
      | inr there ↦ there
      | inl not_newer ↦
          let newer : is_newer account_id cursor e ≡ true =
            ground (arith, eq_iff e.account_id account_id) in
          absurd (cc (sym newer ∙ not_newer))
    ]

-- The newest form of a pushed record.
abbrev pub IsDelivered : Repository → Repository → String → OpaqueSyncRecord → Type 0
IsDelivered s t account_id r =
    (e : CursorRecord) × (get t.records (stored_key account_id r) ≡ some e)
    × (text_leb r.clock e.clock ≡ true)
    × ((get s.records (stored_key account_id r) ≡ some e)
        ⊎ Any (λ q. e ≡ q) (available t account_id s.cursor))

current_found :
    (t : Repository) (k : String) (r : OpaqueSyncRecord)
    → IsCurrent t k r
    → (e : CursorRecord) × (get t.records k ≡ some e) × (text_leb r.clock e.clock ≡ true)
unfolding is_current
current_found t k r c = elim (Option-cases (get t.records k)) [
  | inl none_there ↦ absurd (cc (rw none_there at c))
  | inr (e, found) ↦ (e, found, ground arith)
]

-- No pushed record is lost: after a push that returns, what is stored under the key of each record of the
-- batch is at least as new as that record, and either the repository had it before, or it is among the
-- records that are left for a client that had seen everything before the push.
pub push_delivers :
    (device : AuthenticatedDevice) (version : ℕ) (rs : List OpaqueSyncRecord) (now : ℕ)
    (s t : Repository) (result : PushResult)
    → Inv s
    → push device version rs now s ≡ (ok result, t)
    → All (IsDelivered s t device.account_id) rs
push_delivers device version rs now s t result v pushed =
    let (_, looped, _) = push_inversion device version rs now s t result pushed in
    let (_, _, _, own, current) = push_each_lem device now rs 0 result.accepted s t looped in
    let w : Inv t = subst Inv (ap (λ x. x.1) pushed) (push-Inv device version rs now s v) in
    All-map _ _
      (λ r c.
        let k = stored_key device.account_id r in
        let (e, found, newer) = current_found t k r c in
        let (_, where_from) =
          subst
            (λ u.
              (s.cursor ≤ u.cursor)
              × IsSameOrLater device.account_id s.cursor (get s.records k) (get u.records k))
            (ap (λ x. x.1) looped)
            (push_each_induction
              (λ u.
                (s.cursor ≤ u.cursor)
                × IsSameOrLater device.account_id s.cursor (get s.records k) (get u.records k))
              device now
              (λ q u mine h. offer-IsSameOrLater device now q k s u (own_account device q mine) h)
              rs 0 s (omega arith, inl refl)) in
        (
          e,
          found,
          newer,
          elim where_from [
            | inl same ↦ inl (sym same ∙ found)
            | inr (x, at_k, of_account, after) ↦
                let it : x ≡ e = cc in
                inr (
                  found_available t device.account_id k s.cursor e w found
                    (subst (λ z. z.account_id ≡ device.account_id) it of_account)
                    (subst (λ z. s.cursor < z.cursor) it after))
          ],
        ))
      rs current
