-- ===== src/Sync/Blobs/Tests.antt =====
-- services/sync/src/opaqueRecordStorage.ts with a store that keeps its blobs in a map.
use locus_browser.Base.{
  ◌≡◌, refl, sym, ap, subst, String, false, Option, none, some, List, [], ◌∷◌, Dict, get, set,
  delete, get-set_self, ok, err, Result,
}
use locus_browser.Sync.Models.{OpaqueSyncRecord, bookmarks}
use locus_browser.Sync.Blobs.{
  OpaqueBlobStore, StoredOpaquePayload, opaque_object_key, stage, stage_in, hydrate,
}
use locus_browser.Sync.Blobs.Staging.{hydrate-stage, IsStaged}

abbrev or_missing : Option String → Result String String
or_missing none = err "missing"
or_missing (some c) = ok c

abbrev remove_each : List String → Dict String → Dict String
remove_each [] m = m
remove_each (k ∷ ks) m = remove_each ks (delete m k)

abbrev map_store : OpaqueBlobStore (Dict String) String
map_store = record {
  put = λ k c m. (ok tt, set m k c);
  fetch = λ k m. (or_missing (get m k), m);
  remove = λ ks m. (ok tt, remove_each ks m);
}

-- Any function stands for the digest.
abbrev same_text : String → String
same_text s = s

abbrev large : OpaqueSyncRecord
large = record {
  version = 1;
  account_id = "ada";
  device_id = "laptop";
  collection = bookmarks;
  record_id = "b1";
  clock = "5";
  nonce = "nonce";
  ciphertext = "cipher";
  tombstone = false;
  size = 300000;
}

abbrev large_payload : StoredOpaquePayload
large_payload = record { ciphertext = none; object_key = some (opaque_object_key same_text large) }

abbrev with_large : Dict String
with_large = set [] (opaque_object_key same_text large) "cipher"

staged_large :
    stage same_text (some map_store) 262144 "unavailable" large [] ≡ (ok large_payload, with_large)
unfolding stage stage_in
staged_large = refl

reads_back :
    (store : OpaqueBlobStore (Dict String) String) (k c : String) (u v : Dict String)
    → some map_store ≡ some store
    → store.put k c u ≡ (ok tt, v)
    → store.fetch k v ≡ (ok c, v)
reads_back store k c u v e h =
    let same : map_store ≡ store = cc in
    let h' : map_store.put k c u ≡ (ok tt, v) =
      subst (λ x. x.put k c u ≡ (ok tt, v)) (sym same) h in
    let after : set u k c ≡ v = ap (λ x. x.1) h' in
    subst (λ x. x.fetch k v ≡ (ok c, v)) same
      (subst (λ m. map_store.fetch k m ≡ (ok c, m)) after (rw (get-set_self u k c) refl))

hydrate-stage_example :
    (hydrate same_text (some map_store) 262144 "unavailable" large_payload with_large
      ≡ (ok "cipher", with_large))
    × IsStaged same_text 262144 large large_payload [] with_large
hydrate-stage_example =
    hydrate-stage same_text 262144 "unavailable" (some map_store) large [] with_large large_payload
      reads_back staged_large
