-- ===== src/Sync/Memory/Account/Expiry.antt =====
-- What `cleanupExpired` of services/sync/src/memoryRepository.ts removes.
use locus_browser.Base.{
  ℕ, ◌+◌, ◌≤◌, ◌≡◌, ◌⊎◌, refl, Bool, true, false, ◌&&◌, arith, get, ltb, All, All-map,
  All-delete_where, delete_where_sound, inl, inr,
}
use locus_browser.Sync.Memory.State.{Repository}
use locus_browser.Sync.Memory.Invariant.{Inv, IsPlainAccount, frame-Inv}
use locus_browser.Sync.Memory.Records.{delete_records}
use locus_browser.Sync.Memory.Records.Deletion.{delete_records-Inv}
use locus_browser.Sync.Memory.Account.{cleanup_expired, is_old_tombstone, or_now, tombstone_age}

-- Cleaning up keeps the invariant.
pub cleanup_expired-Inv : (now : ℕ) (s : Repository) → Inv s → Inv (cleanup_expired now s)
unfolding cleanup_expired delete_records
cleanup_expired-Inv now s v =
    let t = delete_records (is_old_tombstone now s.record_updated_at) s in
    frame-Inv t _ _ _ t.record_updated_at
      (All-delete_where (λ e. IsPlainAccount e.1.account_id) _ t.ceremonies v.ceremonies_plain)
      (delete_records-Inv (is_old_tombstone now s.record_updated_at) s v)

not_before : (m n : ℕ) → ltb m n ≡ false → n ≤ m
not_before m n e = ground (arith)

young :
    (now at : ℕ) (tombstone : Bool)
    → (tombstone && ltb (at + tombstone_age) now) ≡ false
    → (tombstone ≡ false) ⊎ (now ≤ at + tombstone_age)
young now at true h = inr (not_before (at + tombstone_age) now h)
young now at false h = inl refl

-- After a clean-up at `now` every enrollment, ceremony and claim expires at `now` or later, and a tombstone
-- that is left is at most 90 days old.
pub cleanup_expired_sound :
    (now : ℕ) (s : Repository)
    → let t = cleanup_expired now s in
      All (λ e. now ≤ e.1.expires_at) t.enrollments
      × All (λ e. now ≤ e.1.expires_at) t.ceremonies
      × All (λ e. now ≤ e.1.expires_at) t.claims
      × All
          (λ e.
            (e.1.tombstone ≡ false)
            ⊎ (now ≤ or_now now (get s.record_updated_at e.0) + tombstone_age))
          t.records
unfolding cleanup_expired delete_records
cleanup_expired_sound now s = (
  All-map _ _ (λ e h. not_before e.1.expires_at now h) _
      (delete_where_sound (λ id e. ltb e.expires_at now) s.enrollments),
  All-map _ _ (λ e h. not_before e.1.expires_at now h) _
      (delete_where_sound (λ id e. ltb e.expires_at now) s.ceremonies),
  All-map _ _ (λ e h. not_before e.1.expires_at now h) _
      (delete_where_sound (λ id e. ltb e.expires_at now) s.claims),
  All-map _ _ (λ e h. young now (or_now now (get s.record_updated_at e.0)) e.1.tombstone h) _
      (delete_where_sound (is_old_tombstone now s.record_updated_at) s.records),
)
