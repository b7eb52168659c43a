-- ===== src/Extensions/Archive/Sound.antt =====
-- What a verified archive holds.
use locus_browser.Base.{
  ◌≡◌, ◌⊎◌, refl, ap, ◌∙◌, subst, sym, String, true, not, ◌==◌, some, List, [], ◌∷◌, Dict, get, has,
  keys, map, ok, All, Any, All-Any, str_eq, eq_iff, ==_iff, Bool-cases, inl, inr,
}
use locus_browser.Base.Results.{
  of_not, fail_if-ok, check_each, >>=-eq-ok, fail_if-eq-ok, or_fail-eq-ok, check_each-All,
}
use locus_browser.Extensions.Texts.{archive_path}
use locus_browser.Extensions.Code.{extension_file}
use locus_browser.Extensions.Manifest.{ExtensionManifest, extension_local_resources}
use locus_browser.Extensions.Archive.Schemas.{InventoryItem, Signatures, inventory_schema}
use locus_browser.Extensions.Archive.{
  Toolkit, VerifiedExtension, verify_locusx, check_contents, check_item, check_path, check_resource,
  unsafe_path, missing, size_mismatch, digest_mismatch, parsed_file,
}
use locus_browser.Extensions.Archive.Steps.{IsSigned, verify_locusx-Steps}

get-keys :
    {V : Type 0} (P : String → Type 0) (m : Dict V) (k : String) (v : V)
    → All P (keys m)
    → get m k ≡ some v
    → P k
unfolding get
get-keys P [] k v a h = cc
get-keys P ((j, w) ∷ m) k v a h = elim (Bool-cases (str_eq j k)) [
  | inl e ↦ subst P ((eq_iff j k).0 e) a.0
  | inr e ↦ get-keys P m k v a.1 (rw e at h)
]

has-map-Any :
    (items : List InventoryItem) (path : String)
    → has (map (λ item. item.path) items) path ≡ true
    → Any (λ item. item.path ≡ path) items
unfolding has
has-map-Any [] path h = cc
has-map-Any (item ∷ items) path h = elim (Bool-cases (str_eq item.path path)) [
  | inl e ↦ inl ((eq_iff item.path path).0 e)
  | inr e ↦ inr (has-map-Any items path (rw e at h))
]

Any-map :
    {A : Type 0} (P Q : A → Type 0) (xs : List A) → ((x : A) → P x → Q x) → Any P xs → Any Q xs
Any-map P Q [] f h = elim h [ ]
Any-map P Q (x ∷ xs) f (inl p) = inl (f x p)
Any-map P Q (x ∷ xs) f (inr h) = inr (Any-map P Q xs f h)

module _ {Json Bytes : Type 0} (t : Toolkit Json Bytes) where
  -- The item is about the path, and names the size and the digest of the bytes. The path is safe, and the
  -- bytes are no code that is forbidden.
  abbrev pub Describes : String → Bytes → InventoryItem → Type 0
  Describes path bytes item =
      (item.path ≡ path)
      × (t.byte_length bytes ≡ item.size)
      × (t.sha256 bytes ≡ item.sha256)
      × (archive_path path ≡ true)
      × (extension_file path (t.decode_utf8 bytes) ≡ true)

  pub check_item-Describes :
      (files : Dict Bytes) (item : InventoryItem)
      → check_item t files item ≡ ok tt
      → (bytes : Bytes) × (get files item.path ≡ some bytes) × Describes item.path bytes item
  unfolding check_item
  check_item-Describes files item h =
      let (safe, h1) =
        fail_if-eq-ok (not (archive_path item.path)) (unsafe_path item.path) _ tt h in
      let (bytes, found, h2) = or_fail-eq-ok (get files item.path) (missing item.path) _ tt h1 in
      let (size, h3) =
        fail_if-eq-ok (not (t.byte_length bytes == item.size)) (size_mismatch item.path) _ tt h2 in
      let (digest, h4) =
        fail_if-eq-ok (not (str_eq (t.sha256 bytes) item.sha256)) (digest_mismatch item.path) _ tt
          h3 in
      let code = fail_if-ok _ _ tt h4 in
      (
        bytes,
        found,
        (
          refl,
          (==_iff (t.byte_length bytes) item.size).0 (of_not _ size),
          (eq_iff (t.sha256 bytes) item.sha256).0 (of_not _ digest),
          of_not _ safe,
          of_not _ code,
        ),
      )

  pub check_item-get :
      (files : Dict Bytes) (item : InventoryItem) (path : String) (bytes : Bytes)
      → check_item t files item ≡ ok tt
      → item.path ≡ path
      → get files path ≡ some bytes
      → Describes path bytes item
  check_item-get files item path bytes h same found =
      let (others, there, d) = check_item-Describes files item h in
      let eq : others ≡ bytes = some_eq others bytes (sym there ∙ ap (get files) same ∙ found) in
      let named : Describes path others item =
        subst
          (λ p.
            (item.path ≡ p)
            × (t.byte_length others ≡ item.size)
            × (t.sha256 others ≡ item.sha256)
            × (archive_path p ≡ true)
            × (extension_file p (t.decode_utf8 others) ≡ true))
          same d in
      subst (λ b. Describes path b item) eq named
    where
      some_eq : (a b : Bytes) → some a ≡ some b → a ≡ b
      some_eq a b e = cc

  -- The parts of `check_contents`.
  pub check_contents-parts :
      (files : Dict Bytes) (manifest : ExtensionManifest) (items : List InventoryItem)
      → check_contents t files manifest items ≡ ok tt
      → All (λ item. check_item t files item ≡ ok tt) items
        × All (λ path. check_path t items path ≡ ok tt) (keys files)
        × All (λ path. check_resource t files path ≡ ok tt) (extension_local_resources manifest)
  unfolding check_contents
  check_contents-parts files manifest items h =
      let (a, e1, h1) = >>=-eq-ok (check_each (check_item t files) items) _ tt h in
      let (b, e2, h2) = >>=-eq-ok (check_each (check_path t items) (keys files)) _ tt h1 in
      (check_each-All _ items a e1, check_each-All _ _ b e2, check_each-All _ _ tt h2)

  pub inventoried :
      (files : Dict Bytes) (manifest : ExtensionManifest) (items : List InventoryItem)
      → check_contents t files manifest items ≡ ok tt
      → (path : String) (bytes : Bytes) → get files path ≡ some bytes
      → (path ≡ "inventory.json") ⊎ (path ≡ "signatures.json") ⊎ Any (Describes path bytes) items
  unfolding check_path has
  inventoried files manifest items h path bytes found =
      let (described, listed, present) = check_contents-parts files manifest items h in
      let passed = get-keys (λ p. check_path t items p ≡ ok tt) files path bytes listed found in
      let test = fail_if-ok _ _ tt passed in
      elim (Bool-cases (str_eq "inventory.json" path)) [
        | inl e ↦ inl (sym ((eq_iff "inventory.json" path).0 e))
        | inr e ↦ elim (Bool-cases (str_eq "signatures.json" path)) [
          | inl f ↦ inr (inl (sym ((eq_iff "signatures.json" path).0 f)))
          | inr f ↦
              let named = has-map-Any items path (of_not _ (rw (e, f) at test)) in
              let both = All-Any _ _ items described named in
              inr (
                inr (
                  Any-map _ _ items (λ item (a, b). check_item-get files item path bytes a b found)
                    both))
        ]
      ]

  -- Every file of an archive that verifies is the inventory, the signatures, or one that the archive's own
  -- inventory lists, with its exact size and SHA-256 digest; its path is safe, and if it is code it passes the
  -- scan for dynamic and remote code.
  pub verify_locusx-inventoried :
      (archive : Bytes) (trusted : List String) (e : VerifiedExtension Bytes) (path : String)
      (bytes : Bytes)
      → verify_locusx t archive trusted ≡ ok e
      → get e.files path ≡ some bytes
      → (path ≡ "inventory.json")
        ⊎ (path ≡ "signatures.json")
        ⊎ ((inventory_bytes : Bytes) × (items : List InventoryItem) × (get e.files "inventory.json"
              ≡ some inventory_bytes)
            × (parsed_file t (inventory_schema t.reader) inventory_bytes ≡ ok items)
            × Any (Describes path bytes) items)
  verify_locusx-inventoried archive trusted e path bytes h found =
      let s = verify_locusx-Steps t archive trusted e h in
      elim (inventoried e.files e.manifest s.items s.contents path bytes found) [
        | inl a ↦ inl a
        | inr (inl a) ↦ inr (inl a)
        | inr (inr a) ↦ inr (inr (s.inventory_bytes, s.items, s.has_inventory, s.listed, a))
      ]

  -- An archive that verifies is signed: the manifest and the inventory that it holds by the publisher whose key
  -- the manifest carries, and that signature and key by a gallery whose fingerprint is trusted.
  pub verify_locusx-IsSigned :
      (archive : Bytes) (trusted : List String) (e : VerifiedExtension Bytes)
      → verify_locusx t archive trusted ≡ ok e
      → (manifest_bytes : Bytes) × (inventory_bytes : Bytes) × (signatures : Signatures) × (get
            e.files "manifest.json"
          ≡ some manifest_bytes)
        × (get e.files "inventory.json" ≡ some inventory_bytes)
        × IsSigned t e.id e.manifest manifest_bytes inventory_bytes trusted signatures
            (e.publisher_fingerprint, e.gallery_fingerprint)
  verify_locusx-IsSigned archive trusted e h =
      let s = verify_locusx-Steps t archive trusted e h in
      (s.manifest_bytes, s.inventory_bytes, s.signatures, s.has_manifest, s.has_inventory, s.signed)
