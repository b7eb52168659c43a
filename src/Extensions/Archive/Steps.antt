-- ===== src/Extensions/Archive/Steps.antt =====
-- What each step of `verifyLocusx` has established when it returns.
use locus_browser.Base.{
  eq_iff, ap, ◌∙◌, ◌*◌, ◌≡◌, refl, String, true, false, not, ltb, Option, none, some, List, [], get,
  has, Result, ok, subst,
}
use locus_browser.Base.Results.{of_not, >>=-eq-ok, fail_if-eq-ok, or_fail-eq-ok}
use locus_browser.Extensions.Manifest.{ExtensionManifest}
use locus_browser.Extensions.ManifestCheck.{validate_manifest}
use locus_browser.Extensions.Archive.Schemas.{
  InventoryItem, Signatures, inventory_schema, signatures_schema,
}
use locus_browser.Extensions.Archive.{
  Toolkit, VerifiedExtension, verify_locusx, check_contents, check_signatures,
  public_key_fingerprint, locusx_publisher_message, locusx_gallery_message, filter_files,
  parsed_file, megabyte, is_key, missing, malformed, in_archive, invalid_key,
  invalid_publisher_signature, key_mismatch, invalid_countersignature, untrusted_gallery,
  archive_too_large,
}

ok_injective : {E A : Type 0} (a b : A) → ◌≡◌ {A = Result E A} (ok a) (ok b) → a ≡ b
ok_injective a b h = cc

is_key-eq : (o : Option String) (s : String) → is_key o s ≡ true → o ≡ some s
is_key-eq none s h = cc
is_key-eq (some key) s h = ap some ((eq_iff key s).0 h)

module _ {Json Bytes : Type 0} (t : Toolkit Json Bytes) where
  -- The signatures are good: the publisher's of the identifier, the manifest and the inventory, and the
  -- gallery's of the publisher's message, key and signature.
  pub record IsSigned (id : String) (manifest : ExtensionManifest)
      (manifest_bytes inventory_bytes : Bytes) (trusted : List String) (signatures : Signatures)
      (fingerprints : String × String) : Type 0 where
    pub der : Bytes
    pub publisher_signed :
        t.verify
          (locusx_publisher_message t id manifest_bytes inventory_bytes)
          signatures.publisher_key
          (t.decode_base64 signatures.publisher_signature)
        ≡ some true
    pub is_public_key : t.public_key_der signatures.publisher_key ≡ some der
    pub own_key : manifest.key ≡ some (t.encode_base64 der)
    pub gallery_signed :
        t.verify
          (locusx_gallery_message t
            (locusx_publisher_message t id manifest_bytes inventory_bytes)
            fingerprints.0
            (t.decode_base64 signatures.publisher_signature))
          signatures.gallery_key
          (t.decode_base64 signatures.gallery_signature)
        ≡ some true
    pub publisher_named : fingerprints.0 ≡ public_key_fingerprint t signatures.publisher_key
    pub gallery_named : fingerprints.1 ≡ public_key_fingerprint t signatures.gallery_key
    pub gallery_trusted : has trusted fingerprints.1 ≡ true

  pub record Steps (archive : Bytes) (trusted : List String) (e : VerifiedExtension Bytes)
      : Type 0 where
    pub manifest_bytes : Bytes
    pub inventory_bytes : Bytes
    pub items : List InventoryItem
    pub signatures : Signatures
    pub small : ltb (50 * megabyte) (t.byte_length archive) ≡ false
    pub filtered : filter_files (t.directory archive) [] 0 0 ≡ ok tt
    pub unzipped : t.unzip archive ≡ some e.files
    pub has_manifest : get e.files "manifest.json" ≡ some manifest_bytes
    pub has_inventory : get e.files "inventory.json" ≡ some inventory_bytes
    pub listed : parsed_file t (inventory_schema t.reader) inventory_bytes ≡ ok items
    pub contents : check_contents t e.files e.manifest items ≡ ok tt
    pub signed :
        IsSigned e.id e.manifest manifest_bytes inventory_bytes trusted signatures
          (e.publisher_fingerprint, e.gallery_fingerprint)

  check_signatures-IsSigned :
      (manifest : ExtensionManifest) (manifest_bytes inventory_bytes : Bytes)
      (signatures : Signatures) (trusted : List String) (fingerprints : String × String)
      → check_signatures t manifest manifest_bytes inventory_bytes signatures trusted
        ≡ ok fingerprints
      → IsSigned signatures.extension_id manifest manifest_bytes inventory_bytes trusted signatures
          fingerprints
  unfolding check_signatures
  check_signatures-IsSigned manifest mb ib s trusted fingerprints h =
      let message = locusx_publisher_message t s.extension_id mb ib in
      let publisher_signature = t.decode_base64 s.publisher_signature in
      let gallery_message =
        locusx_gallery_message t message (public_key_fingerprint t s.publisher_key)
          publisher_signature in
      let (signed, e1, h1) =
        or_fail-eq-ok (t.verify message s.publisher_key publisher_signature) invalid_key _
          fingerprints h in
      let (c1, h2) = fail_if-eq-ok (not signed) invalid_publisher_signature _ fingerprints h1 in
      let (der, e2, h3) =
        or_fail-eq-ok (t.public_key_der s.publisher_key) invalid_key _ fingerprints h2 in
      let (c2, h4) =
        fail_if-eq-ok (not (is_key manifest.key (t.encode_base64 der))) key_mismatch _ fingerprints
          h3 in
      let (countersigned, e3, h5) =
        or_fail-eq-ok (t.verify gallery_message s.gallery_key (t.decode_base64 s.gallery_signature))
          invalid_key _ fingerprints h4 in
      let (c3, h6) = fail_if-eq-ok (not countersigned) invalid_countersignature _ fingerprints h5 in
      let (c4, done) =
        fail_if-eq-ok (not (has trusted (public_key_fingerprint t s.gallery_key))) untrusted_gallery
          _ fingerprints h6 in
      subst (IsSigned s.extension_id manifest mb ib trusted s) (ok_injective _ _ done) (record {
        der = der;
        publisher_signed = e1 ∙ ap some (of_not signed c1);
        is_public_key = e2;
        own_key = is_key-eq manifest.key (t.encode_base64 der) (of_not _ c2);
        gallery_signed = e3 ∙ ap some (of_not countersigned c3);
        publisher_named = refl;
        gallery_named = refl;
        gallery_trusted = of_not _ c4;
      })

  pub verify_locusx-Steps :
      (archive : Bytes) (trusted : List String) (e : VerifiedExtension Bytes)
      → verify_locusx t archive trusted ≡ ok e
      → Steps archive trusted e
  unfolding verify_locusx
  verify_locusx-Steps archive trusted e h =
      let (small, h1) =
        fail_if-eq-ok (ltb (50 * megabyte) (t.byte_length archive)) archive_too_large _ e h in
      let (u, filtered, h2) = >>=-eq-ok (filter_files (t.directory archive) [] 0 0) _ e h1 in
      let (files, unzipped, h3) = or_fail-eq-ok (t.unzip archive) malformed _ e h2 in
      let (manifest_bytes, m1, h4) =
        or_fail-eq-ok (get files "manifest.json") (missing "manifest.json") _ e h3 in
      let (inventory_bytes, m2, h5) =
        or_fail-eq-ok (get files "inventory.json") (missing "inventory.json") _ e h4 in
      let (signatures_bytes, m3, h6) =
        or_fail-eq-ok (get files "signatures.json") (missing "signatures.json") _ e h5 in
      let (manifest_json, m4, h7) =
        or_fail-eq-ok (t.reader.parse (t.decode_utf8 manifest_bytes)) malformed _ e h6 in
      let (manifest, m5, h8) =
        >>=-eq-ok (in_archive (validate_manifest t.reader manifest_json)) _ e h7 in
      let (items, listed, h9) =
        >>=-eq-ok (parsed_file t (inventory_schema t.reader) inventory_bytes) _ e h8 in
      let (signatures, m6, h10) =
        >>=-eq-ok (parsed_file t (signatures_schema t.reader) signatures_bytes) _ e h9 in
      let (v, contents, h11) = >>=-eq-ok (check_contents t files manifest items) _ e h10 in
      let (fingerprints, signed, done) =
        >>=-eq-ok (check_signatures t manifest manifest_bytes inventory_bytes signatures trusted) _
          e h11 in
      let made : VerifiedExtension Bytes = record {
        id = signatures.extension_id;
        manifest = manifest;
        files = files;
        publisher_fingerprint = fingerprints.0;
        gallery_fingerprint = fingerprints.1;
      } in
      subst (Steps archive trusted) {x = made} (ok_injective made e done) (record {
        manifest_bytes = manifest_bytes;
        inventory_bytes = inventory_bytes;
        items = items;
        signatures = signatures;
        small = small;
        filtered = filtered;
        unzipped = unzipped;
        has_manifest = m1;
        has_inventory = m2;
        listed = listed;
        contents = contents;
        signed =
            check_signatures-IsSigned manifest manifest_bytes inventory_bytes signatures trusted
              fingerprints signed;
      })
