-- ===== src/Sync/Memory/Records/Isolation.antt =====
-- `push` of services/sync/src/memoryRepository.ts touches the records of its device's account only,
-- and keeps the invariant.
use locus_browser.Base.{
  ℕ, ◌+◌, ◌≤◌, String, ◌≡◌, refl, ◌∙◌, ◌≢◌, false, List, arith, get, join_injective, NoColon,
  get-set_ne, All-map, All-set, eq_iff,
}
use locus_browser.Sync.Models.{AuthenticatedDevice, OpaqueSyncRecord}
use locus_browser.Sync.Memory.State.{Repository, stored_key, record_key}
use locus_browser.Sync.Memory.Invariant.{Inv, HasDistinctCursors-set}
use locus_browser.Sync.Memory.Records.{is_foreign, store, offer, push}
use locus_browser.Sync.Memory.Records.Push.{push_each_induction, push_state}

offer_isolated :
    (device : AuthenticatedDevice) (now : ℕ) (r q : OpaqueSyncRecord) (s : Repository) (b : String)
    → NoColon device.account_id
    → NoColon b
    → device.account_id ≢ b
    → get (offer device now r s).1.records (stored_key b q) ≡ get s.records (stored_key b q)
unfolding offer
offer_isolated device now r q s b plain plain' other =
    let apart : stored_key device.account_id r ≢ stored_key b q = λ e.
      other ((join_injective device.account_id b (record_key r) (record_key q) plain plain' e).0) in
    ground (
      arith,
      get-set_ne s.records (stored_key device.account_id r) (stored_key b q)
          (record { body = r; cursor = s.cursor + 1 }) apart,
    )

-- Whether it returns or throws, a push leaves every record of another account as it was; account
-- identifiers are UUIDs, which have no colon.
pub push_isolated :
    (device : AuthenticatedDevice) (version : ℕ) (rs : List OpaqueSyncRecord) (now : ℕ)
    (s : Repository) (b : String) (q : OpaqueSyncRecord)
    → NoColon device.account_id
    → NoColon b
    → device.account_id ≢ b
    → get (push device version rs now s).1.records (stored_key b q) ≡ get s.records (stored_key b q)
push_isolated device version rs now s b q plain plain' other =
    push_state (λ t. get t.records (stored_key b q) ≡ get s.records (stored_key b q)) device version
      rs now s refl
      (push_each_induction (λ t. get t.records (stored_key b q) ≡ get s.records (stored_key b q))
        device now (λ r t _ same. offer_isolated device now r q t b plain plain' other ∙ same) rs 0
        s refl)

pub own_account :
    (device : AuthenticatedDevice) (r : OpaqueSyncRecord)
    → is_foreign device r ≡ false
    → device.account_id ≡ r.account_id
unfolding is_foreign
own_account device r h = ground (arith, eq_iff r.account_id device.account_id)

pub store-Inv :
    (device : AuthenticatedDevice) (now : ℕ) (r : OpaqueSyncRecord) (s : Repository)
    → device.account_id ≡ r.account_id
    → Inv s
    → Inv (store device.account_id now r s)
unfolding store
store-Inv device now r s own v = record {
  bounded =
      All-set (λ _ e. e.cursor ≤ s.cursor + 1) s.records (stored_key device.account_id r) _
        (All-map _ _ (λ e le. omega arith) s.records v.bounded) (omega arith);
  distinct =
      HasDistinctCursors-set s.records (stored_key device.account_id r) _ s.cursor v.bounded
        (omega arith) v.distinct;
  keyed =
      All-set (λ k e. k ≡ stored_key e.account_id e.body) s.records (stored_key device.account_id r)
        _ v.keyed (rw own);
  named = v.named;
  plain = v.plain;
  live = v.live;
  versioned = v.versioned;
  unique = v.unique;
  tokens_plain = v.tokens_plain;
  ceremonies_plain = v.ceremonies_plain;
  passkeys_plain = v.passkeys_plain;
  passkeys_versioned = v.passkeys_versioned;
}

offer-Inv :
    (device : AuthenticatedDevice) (now : ℕ) (r : OpaqueSyncRecord) (s : Repository)
    → is_foreign device r ≡ false
    → Inv s
    → Inv (offer device now r s).1
unfolding offer
offer-Inv device now r s own v =
    ground (arith, store-Inv device now r s (own_account device r own) v)

-- A push keeps the invariant, also where it throws half way.
pub push-Inv :
    (device : AuthenticatedDevice) (version : ℕ) (rs : List OpaqueSyncRecord) (now : ℕ)
    (s : Repository)
    → Inv s
    → Inv (push device version rs now s).1
push-Inv device version rs now s v =
    push_state Inv device version rs now s v
      (push_each_induction Inv device now (λ r t own h. offer-Inv device now r t own h) rs 0 s v)
