-- ===== src/Sync/Blobs.antt =====
-- services/sync/src/opaqueRecordStorage.ts: `OpaqueRecordStorage`, which keeps large ciphertexts in a
-- blob store. The store and the digest of node's crypto module are parameters. `Promise.allSettled` runs
-- the stages in the order of the records.
pub mod Staging
mod Tests
use Prim.Native.String.{◌++◌ as text_append, [] as empty_text, ◌∷◌ as char_cons}
use locus_browser.Base.{
  ℕ, zero, suc, ◌*◌, String, Bool, true, false, not, ◌&&◌, ◌||◌, Option, none, some, List, [], ◌∷◌,
  map, ltb, unique, if◌then◌else◌, Result, ok, err, Exec, ◌>>=◌, ◌>>◌, pure, raise, truthy,
}
use locus_browser.Sync.Models.{OpaqueSyncRecord, collection_name}

abbrev pub large_opaque_record_threshold : ℕ
large_opaque_record_threshold = 256 * 1024

-- `OpaqueBlobStore`, over the states `S` of what stores the blobs.
pub record OpaqueBlobStore (S E : Type 0) : Type 0 where
  pub put : String → String → Exec S E (Unit {0})
  pub fetch : String → Exec S E String
  pub remove : List String → Exec S E (Unit {0})

pub record StoredOpaquePayload : Type 0 where
  pub ciphertext : Option String
  pub object_key : Option String

-- `text.slice(0, n)`.
unfoldable pub first : ℕ → String → String
first zero s = empty_text
first (suc n) empty_text = empty_text
first (suc n) (char_cons c s) = char_cons c (first n s)

-- `${a}\0${b}`.
abbrev zero_join : String → String → String
zero_join a b = text_append a (text_append "\0" b)

-- `opaqueObjectKey`.
unfoldable pub opaque_object_key : (String → String) → OpaqueSyncRecord → String
unfolding first
opaque_object_key digest r = text_append "v1/" (
    text_append (first 32 (digest r.account_id)) (
      text_append "/" (
        text_append (first 40 (digest (zero_join (collection_name r.collection) r.record_id)))
          (text_append "/" (digest (zero_join r.clock r.ciphertext))))))

-- `keys.filter((key) => Boolean(key))`.
abbrev pub given_keys : List (Option String) → List String
given_keys [] = []
given_keys (none ∷ keys) = given_keys keys
given_keys (some k ∷ keys) = if truthy (some k) then k ∷ given_keys keys else given_keys keys

module _ {S E : Type 0} (digest : String → String) (blobs : Option (OpaqueBlobStore S E))
    (threshold : ℕ) (unavailable : E) where
  abbrev pub inline : OpaqueSyncRecord → StoredOpaquePayload
  inline r = record { ciphertext = some r.ciphertext; object_key = none }

  -- The store to use for the record, if it does not stay inline.
  abbrev pub store_for :
      OpaqueSyncRecord → Option (OpaqueBlobStore S E) → Option (OpaqueBlobStore S E)
  store_for r none = none
  store_for r (some store) = if r.tombstone || ltb r.size threshold then none else some store

  unfoldable pub stage_in :
      Option (OpaqueBlobStore S E) → OpaqueSyncRecord → Exec S E StoredOpaquePayload
  stage_in none r = pure (inline r)
  stage_in (some store) r = do
    store.put (opaque_object_key digest r) r.ciphertext
    pure (record { ciphertext = none; object_key = some (opaque_object_key digest r) })

  unfoldable pub stage : OpaqueSyncRecord → Exec S E StoredOpaquePayload
  stage r = stage_in (store_for r blobs) r

  unfoldable pub hydrate : StoredOpaquePayload → Exec S E String
  hydrate payload = elim payload.ciphertext [
    | some ciphertext ↦ pure ciphertext
    | none ↦ elim blobs [
      | none ↦ raise unavailable
      | some store ↦ elim payload.object_key [
        | none ↦ raise unavailable
        | some key ↦ if truthy (some key) then store.fetch key else raise unavailable
      ]
    ]
  ]

  unfoldable pub remove_all : OpaqueBlobStore S E → List String → Exec S E (Unit {0})
  remove_all store [] = pure tt
  remove_all store (k ∷ ks) = store.remove (k ∷ ks)

  unfoldable pub discard : List (Option String) → Exec S E (Unit {0})
  discard keys = elim blobs [
    | none ↦ pure tt
    | some store ↦ remove_all store (unique (given_keys keys))
  ]

  -- `Promise.allSettled` of the stages: the payloads of those that succeed, and the first failure.
  abbrev pub add_result :
      Result E StoredOpaquePayload
      → List StoredOpaquePayload × Option E
      → List StoredOpaquePayload × Option E
  add_result (ok p) (staged, failure) = (p ∷ staged, failure)
  add_result (err e) (staged, failure) = (staged, some e)

  unfoldable pub stage_all : List OpaqueSyncRecord → S → (List StoredOpaquePayload × Option E) × S
  stage_all [] s = (([], none), s)
  stage_all (r ∷ rs) s =
      let (result, t) = stage r s in let (rest, u) = stage_all rs t in (add_result result rest, u)

  -- A failure of `discard` is ignored.
  unfoldable pub settle : List StoredOpaquePayload × Option E → Exec S E (List StoredOpaquePayload)
  settle (staged, none) s = (ok staged, s)
  settle (staged, some e) s = (err e, (discard (map (λ p. p.object_key) staged) s).1)

  unfoldable pub stage_batch : List OpaqueSyncRecord → Exec S E (List StoredOpaquePayload)
  stage_batch records s = let (results, t) = stage_all records s in settle results t
