-- ===== src/Sync/Memory/Keys/Stored.antt =====
-- The loop of `rotateAccountKey` (services/sync/src/memoryRepository.ts) that stores the replacements: each of
-- them is found afterwards.
use locus_browser.Base.{
  ℕ, ◌+◌, ◌≡◌, ◌⊎◌, ◌∙◌, refl, ap, String, true, false, not, some, List, [], ◌∷◌, arith, get,
  get-set, get-set_self, Dict, All, All-map, Any, Bool-cases, inl, inr, eq_iff, str_eq, has,
  set_size, IsSubset, IsSubset-set_size, any,
}
use locus_browser.Sync.Models.{OpaqueSyncRecord, CursorRecord}
use locus_browser.Sync.Memory.State.{Repository, stored_key}
use locus_browser.Sync.Memory.Records.{store}
use locus_browser.Sync.Memory.Keys.Install.{IsSubset-any}
use locus_browser.Sync.Memory.Keys.{store_each, is_complete_rotation}

-- The body of the record is one of those that are stored under the key.
abbrev pub IsOneOf : String → String → List OpaqueSyncRecord → CursorRecord → Type 0
IsOneOf account_id key rs e = Any (λ q. (e.body ≡ q) × (stored_key account_id q ≡ key)) rs

-- Under the key of the record stands one of the records, with this key.
abbrev pub IsStored : String → List OpaqueSyncRecord → Dict CursorRecord → OpaqueSyncRecord → Type 0
IsStored account_id rs m r =
    (e : CursorRecord) × (get m (stored_key account_id r) ≡ some e)
    × IsOneOf account_id (stored_key account_id r) rs e

-- What stands under a key stays, or one of the records takes its place.
store_each-kept :
    (account_id : String) (now : ℕ) (key : String) (rs : List OpaqueSyncRecord) (s : Repository)
    (e : CursorRecord)
    → get s.records key ≡ some e
    → (e' : CursorRecord) × (get (store_each account_id now rs s).records key ≡ some e')
      × ((e' ≡ e) ⊎ IsOneOf account_id key rs e')
unfolding store_each store
store_each-kept account_id now key [] s e h = (e, h, inl refl)
store_each-kept account_id now key (r ∷ rs) s e h =
    let new : CursorRecord = record { body = r; cursor = s.cursor + 1 } in
    let t = store account_id now r s in
    elim (Bool-cases (str_eq (stored_key account_id r) key)) [
      | inl p ↦
          let same = (eq_iff (stored_key account_id r) key).0 p in
          let found : get t.records key ≡ some new =
            get-set s.records (stored_key account_id r) key new ∙ rw p refl in
          let (e', left, origin) = store_each-kept account_id now key rs t new found in
          (
            e',
            left,
            elim origin [ inl q ↦ inr (inl (ap (λ x. x.body) q, same)) | inr m ↦ inr (inr m) ],
          )
      | inr p ↦
          let found : get t.records key ≡ some e =
            get-set s.records (stored_key account_id r) key new ∙ rw p h in
          let (e', left, origin) = store_each-kept account_id now key rs t e found in
          (e', left, elim origin [ inl q ↦ inl q | inr m ↦ inr (inr m) ])
    ]

pub store_each-IsStored :
    (account_id : String) (now : ℕ) (rs : List OpaqueSyncRecord) (s : Repository)
    → All (IsStored account_id rs (store_each account_id now rs s).records) rs
unfolding store_each store
store_each-IsStored account_id now [] s = tt
store_each-IsStored account_id now (r ∷ rs) s =
    let new : CursorRecord = record { body = r; cursor = s.cursor + 1 } in
    let t = store account_id now r s in
    let key = stored_key account_id r in
    let (e, left, origin) =
      store_each-kept account_id now key rs t new (get-set_self s.records key new) in
    (
      (e, left, elim origin [ inl q ↦ inl (ap (λ x. x.body) q, refl) | inr m ↦ inr m ]),
      All-map _ _ (λ q (f, found, m). (f, found, inr m)) rs
          (store_each-IsStored account_id now rs t),
    )

-- The replacements that pass the check name every record that was there, and no other.
pub is_complete_rotation_lem :
    (existing replacement : List String)
    → is_complete_rotation existing replacement ≡ true
    → IsSubset existing replacement × IsSubset replacement existing
unfolding is_complete_rotation
is_complete_rotation_lem existing replacement h =
    let same : set_size existing ≡ set_size replacement = ground arith in
    let covered : any (λ key. not (has replacement key)) existing ≡ false = ground arith in
    let subset = IsSubset-any existing replacement covered in
    (subset, IsSubset-set_size existing replacement subset same)
