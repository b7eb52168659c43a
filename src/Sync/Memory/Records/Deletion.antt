-- ===== src/Sync/Memory/Records/Deletion.antt =====
-- Loops that delete records (services/sync/src/memoryRepository.ts): `deleteCloudData`, and the loops of
-- `cleanupExpired` and `rotateAccountKey`.
use locus_browser.Base.{
  ◌≡◌, ◌≢◌, ◌∙◌, refl, sym, String, Bool, false, get, NoColon, All, All-delete_where,
  delete_where_sound, get-delete_where_keeps, get-delete_where-none, get-All, Option-cases,
  Bool-cases, inl, inr, eq_iff, str_eq, join_injective,
}
use locus_browser.Sync.Models.{OpaqueSyncRecord, CursorRecord}
use locus_browser.Sync.Memory.State.{Repository, stored_key, record_key}
use locus_browser.Sync.Memory.Invariant.{Inv, HasDistinctCursors-delete_where}
use locus_browser.Sync.Memory.Records.{delete_records, is_of_account}

pub delete_records-Inv :
    (p : String → CursorRecord → Bool) (s : Repository) → Inv s → Inv (delete_records p s)
unfolding delete_records
delete_records-Inv p s v = record {
  bounded = All-delete_where (λ e. _) p s.records v.bounded;
  distinct = HasDistinctCursors-delete_where p s.records v.distinct;
  keyed = All-delete_where (λ e. e.0 ≡ stored_key e.1.account_id e.1.body) p s.records v.keyed;
  named = v.named;
  plain = v.plain;
  live = v.live;
  versioned = v.versioned;
  unique = v.unique;
  tokens_plain = v.tokens_plain;
  ceremonies_plain = v.ceremonies_plain;
  passkeys_plain = v.passkeys_plain;
  passkeys_versioned = v.passkeys_versioned;
}

-- No record of the account is left.
pub delete_records_sound :
    (account_id : String) (s : Repository)
    → All
        (λ e. str_eq e.1.account_id account_id ≡ false)
        (delete_records (is_of_account account_id) s).records
unfolding delete_records
delete_records_sound account_id s = delete_where_sound (is_of_account account_id) s.records

other_account :
    (account_id b : String) (q : OpaqueSyncRecord) (e : CursorRecord)
    → NoColon account_id
    → NoColon b
    → account_id ≢ b
    → stored_key b q ≡ stored_key e.account_id e.body
    → is_of_account account_id (stored_key b q) e ≡ false
other_account account_id b q e plain plain' other key =
    elim (Bool-cases (str_eq e.account_id account_id)) [
      | inr no_match ↦ no_match
      | inl own ↦
          let same : e.account_id ≡ account_id = (eq_iff e.account_id account_id).0 own in
          absurd (
            other (
              (join_injective account_id b (record_key e.body) (record_key q) plain plain'
                (sym (key ∙ rw same refl))).0))
    ]

-- The records of other accounts stay as they are.
pub delete_records_isolated :
    (account_id b : String) (q : OpaqueSyncRecord) (s : Repository)
    → NoColon account_id
    → NoColon b
    → account_id ≢ b
    → Inv s
    → get (delete_records (is_of_account account_id) s).records (stored_key b q)
      ≡ get s.records (stored_key b q)
unfolding delete_records
delete_records_isolated account_id b q s plain plain' other v =
    elim (Option-cases (get s.records (stored_key b q))) [
      | inl none_there ↦
          get-delete_where-none (is_of_account account_id) s.records (stored_key b q) none_there
          ∙ sym none_there
      | inr (e, found) ↦
          get-delete_where_keeps (is_of_account account_id) s.records (stored_key b q) e found (
            other_account account_id b q e plain plain' other (
              get-All (λ k x. k ≡ stored_key x.account_id x.body) s.records (stored_key b q) e
                v.keyed found))
          ∙ sym found
    ]
