-- ===== src/Extensions/Archive/Tamper.antt =====
-- Archives that share an inventory.
use locus_browser.Base.{
  ◌≡◌, ◌≢◌, ◌∙◌, sym, ap, subst, String, some, List, [], ◌∷◌, get, Result, ok, Any, All-Any, inl,
  inr,
}
use locus_browser.Extensions.Archive.Schemas.{InventoryItem, inventory_schema}
use locus_browser.Extensions.Archive.{
  Toolkit, VerifiedExtension, verify_locusx, parsed_file, ArchiveError,
}
use locus_browser.Extensions.Archive.Steps.{verify_locusx-Steps}
use locus_browser.Extensions.Archive.Sound.{
  Describes, check_item-Describes, check_contents-parts, inventoried,
}

Any-exists : {A : Type 0} (P : A → Type 0) (xs : List A) → Any P xs → (x : A) × P x
Any-exists P [] h = elim h [ ]
Any-exists P (x ∷ xs) (inl p) = (x, p)
Any-exists P (x ∷ xs) (inr h) = Any-exists P xs h

module _ {Json Bytes : Type 0} (t : Toolkit Json Bytes) (first_archive second_archive : Bytes)
    (trusted : List String) (first second : VerifiedExtension Bytes) (path : String)
    (bytes : Bytes) where
  -- If two archives verify and hold the same inventory.json, each file of the first but inventory.json and
  -- signatures.json is in the second under the same path, with the same size and SHA-256 digest.
  pub verify_locusx-same_inventory :
      verify_locusx t first_archive trusted ≡ ok first
      → verify_locusx t second_archive trusted ≡ ok second
      → get first.files "inventory.json" ≡ get second.files "inventory.json"
      → path ≢ "inventory.json"
      → path ≢ "signatures.json"
      → get first.files path ≡ some bytes
      → (other : Bytes) × (get second.files path ≡ some other)
        × (t.byte_length other ≡ t.byte_length bytes)
        × (t.sha256 other ≡ t.sha256 bytes)
  verify_locusx-same_inventory h k same a b found =
      let s = verify_locusx-Steps t first_archive trusted first h in
      let r = verify_locusx-Steps t second_archive trusted second k in
      let same_bytes = some_eq _ _ (sym s.has_inventory ∙ same ∙ r.has_inventory) in
      let same_items =
        ok_eq s.items r.items
          (sym s.listed ∙ ap (parsed_file t (inventory_schema t.reader)) same_bytes ∙ r.listed) in
      elim (inventoried t first.files first.manifest s.items s.contents path bytes found) [
        | inl e ↦ absurd (a e)
        | inr (inl e) ↦ absurd (b e)
        | inr (inr d) ↦
            let checked =
              (check_contents-parts t second.files second.manifest r.items r.contents).0 in
            let both =
              All-Any _ _ r.items checked (subst (Any (Describes t path bytes)) same_items d) in
            let (item, (c, (named, size, digest, safe, code))) = Any-exists _ r.items both in
            let (other, there, (named', size', digest', safe', code')) =
              check_item-Describes t second.files item c in
            (
              other,
              subst (λ p. get second.files p ≡ some other) named there,
              size' ∙ sym size,
              digest' ∙ sym digest,
            )
      ]
    where
      some_eq : (x y : Bytes) → some x ≡ some y → x ≡ y
      some_eq x y e = cc

      ok_eq :
          (x y : List InventoryItem)
          → ◌≡◌ {A = Result ArchiveError (List InventoryItem)} (ok x) (ok y)
          → x ≡ y
      ok_eq x y e = cc
