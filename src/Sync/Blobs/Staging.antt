-- ===== src/Sync/Blobs/Staging.antt =====
-- What is staged can be read again: `stage`, `stageBatch` and `hydrate` of
-- services/sync/src/opaqueRecordStorage.ts.
use Prim.Native.String.{◌++◌ as text_append}
use text.Mathlib.TextLemmas.{cons-append}
use locus_browser.Base.{
  ℕ, ◌≡◌, ◌⊎◌, ◌∙◌, ◌≤◌, refl, sym, subst, String, true, false, ◌||◌, Option, none, some, arith,
  ltb, truthy, str_eq, eq_iff, ok, bind-eq-ok, Bool-cases, inl, inr,
}
use locus_browser.Sync.Models.{OpaqueSyncRecord}
use locus_browser.Sync.Blobs.{
  OpaqueBlobStore, StoredOpaquePayload, opaque_object_key, stage_in, stage, hydrate,
}

truthy-append : (s : String) → truthy (some (text_append "v1/" s)) ≡ true
truthy-append s = elim (Bool-cases (str_eq (text_append "v1/" s) "")) [
  | inr e ↦ rw e refl
  | inl e ↦ absurd (cc (sym (cons-append "v" "1/" s) ∙ (eq_iff (text_append "v1/" s) "").0 e))
]

-- How a staged payload relates to its record: it is inline and nothing was written, or it has the key of
-- the object, for a record that is no tombstone and not small.
abbrev pub IsStaged :
    {S : Type 0} → (String → String) → ℕ → OpaqueSyncRecord → StoredOpaquePayload → S → S → Type 0
IsStaged digest threshold r p s t =
    ((p.object_key ≡ none) × (p.ciphertext ≡ some r.ciphertext) × (t ≡ s))
    ⊎ ((p.ciphertext ≡ none)
        × (r.tombstone ≡ false)
        × (threshold ≤ r.size)
        × (p.object_key ≡ some (opaque_object_key digest r)))

module _ {S E : Type 0} (digest : String → String) (threshold : ℕ) (unavailable : E) where
  inline_read :
      (blobs : Option (OpaqueBlobStore S E)) (r : OpaqueSyncRecord) (s t : S)
      (p : StoredOpaquePayload)
      → record { ciphertext = some r.ciphertext; object_key = none } ≡ p
      → s ≡ t
      → (hydrate digest blobs threshold unavailable p t ≡ (ok r.ciphertext, t))
        × IsStaged digest threshold r p s t
  unfolding hydrate
  inline_read blobs r s t p e d =
      subst
        (λ q.
          (hydrate digest blobs threshold unavailable q t ≡ (ok r.ciphertext, t))
          × IsStaged digest threshold r q s t)
        e (refl, inl (refl, refl, sym d))

  object_read :
      (store : OpaqueBlobStore S E) (r : OpaqueSyncRecord) (t : S)
      → store.fetch (opaque_object_key digest r) t ≡ (ok r.ciphertext, t)
      → hydrate digest
          (some store)
          threshold
          unavailable
          (record { ciphertext = none; object_key = some (opaque_object_key digest r) })
          t
        ≡ (ok r.ciphertext, t)
  unfolding hydrate opaque_object_key
  object_read store r t h =
      let there : truthy (some (opaque_object_key digest r)) ≡ true = truthy-append _ in rw there h

  -- What `hydrate` reads from a staged payload is the record's ciphertext, if the store gives back what it
  -- was just given. The payload holds the ciphertext and nothing was written, or it holds the key of the
  -- object, and then the record is no tombstone and has at least the threshold's size.
  pub hydrate-stage :
      (blobs : Option (OpaqueBlobStore S E)) (r : OpaqueSyncRecord) (s t : S)
      (p : StoredOpaquePayload)
      → ((store : OpaqueBlobStore S E) (k c : String) (u v : S)
          → blobs ≡ some store
          → store.put k c u ≡ (ok tt, v)
          → store.fetch k v ≡ (ok c, v))
      → stage digest blobs threshold unavailable r s ≡ (ok p, t)
      → (hydrate digest blobs threshold unavailable p t ≡ (ok r.ciphertext, t))
        × IsStaged digest threshold r p s t
  unfolding stage stage_in
  hydrate-stage none r s t p law h = inline_read none r s t p (cc) (cc)
  hydrate-stage (some store) r s t p law h =
      elim (Bool-cases (r.tombstone || ltb r.size threshold)) [
        | inl f ↦ let h' = rw f at h in inline_read (some store) r s t p (cc) (cc)
        | inr f ↦
            let h' = rw f at h in
            let (_, v, written, ended) =
              bind-eq-ok (store.put (opaque_object_key digest r) r.ciphertext)
                (λ _ u. (
                  ok (record { ciphertext = none; object_key = some (opaque_object_key digest r) }),
                  u,
                ))
                s t h' in
            let same : v ≡ t = cc in
            let payload : record {
              ciphertext = none;
              object_key = some (opaque_object_key digest r);
            }
                ≡ p =
              cc in
            let read = object_read store r t (
              subst (λ u. store.fetch (opaque_object_key digest r) u ≡ (ok r.ciphertext, u)) same
                (law store (opaque_object_key digest r) r.ciphertext s v refl written)) in
            subst
              (λ q.
                (hydrate digest (some store) threshold unavailable q t ≡ (ok r.ciphertext, t))
                × IsStaged digest threshold r q s t)
              payload (read, inr (refl, ground arith, ground arith, refl))
      ]
