-- ===== src/Extensions/Archive.antt =====
-- packages/extensions/src/archive.ts, crypto.ts and contract.ts: `verifyLocusx`.
use Prim.Native.String.{◌++◌}
use locus_browser.Base.{
  ℕ, ◌+◌, ◌*◌, ◌==◌, String, Bool, true, false, not, ◌||◌, ◌&&◌, ltb, leb, Option, none, some, List,
  [], ◌∷◌, Dict, get, keys, has, Result, ok, err, str_eq, if◌then◌else◌, map,
}
use locus_browser.Base.Results.{◌>>=◌, ◌>>◌, fail_if, or_fail, check_each}
use locus_browser.Base.Patterns.{strip_spaces}
use locus_browser.Extensions.Texts.{archive_path}
use locus_browser.Extensions.Code.{extension_file}
use locus_browser.Extensions.Manifest.{ExtensionManifest, extension_local_resources}
use locus_browser.Extensions.ManifestCheck.{ManifestError, validate_manifest}
use locus_browser.Extensions.Reading.{Reader}
use locus_browser.Extensions.Archive.Schemas.{
  InventoryItem, Signatures, inventory_schema, signatures_schema,
}
pub mod Schemas
mod Steps
pub mod Sound
pub mod Tamper
pub mod Filter
mod Tests

pub data ArchiveError : Type 0 where
  archive_too_large too_many_files expanded_too_large : ArchiveError
  unsafe_path duplicate_path file_too_large missing : String → ArchiveError
  size_mismatch digest_mismatch forbidden_code uninventoried : String → ArchiveError
  -- the library that unzips, `JSON.parse` or a schema throws
  malformed : ArchiveError
  refused_manifest : ManifestError → ArchiveError
  -- the cryptographic library throws at a key
  invalid_key : ArchiveError
  invalid_publisher_signature key_mismatch invalid_countersignature untrusted_gallery : ArchiveError

-- What the library that unzips tells its filter of a file.
pub record FileInfo : Type 0 where
  pub name : String
  pub original_size : ℕ

-- The libraries for archives, JSON and cryptography.
pub record Toolkit (Json Bytes : Type 0) : Type 0 where
  pub reader : Reader Json
  pub byte_length : Bytes → ℕ
  -- the files that `unzipSync` asks its filter about, in the order in which it does
  pub directory : Bytes → List FileInfo
  -- `Object.entries(unzipSync(archive))`, with a filter that takes every file, if it does not throw
  pub unzip : Bytes → Option (Dict Bytes)
  -- `strFromU8` and `Buffer.from(text, "utf8")`
  pub decode_utf8 : Bytes → String
  pub encode_utf8 : String → Bytes
  -- `Buffer.from(text, "base64")` and `bytes.toString("base64")`
  pub decode_base64 : String → Bytes
  pub encode_base64 : Bytes → String
  -- in hexadecimal digits
  pub sha256 : Bytes → String
  -- `verify(null, message, publicKeyPem, signature)`, if the key is one
  pub verify : Bytes → String → Bytes → Option Bool
  -- `createPublicKey(pem).export({ format: "der", type: "spki" })`, if the text is a key
  pub public_key_der : String → Option Bytes

pub record VerifiedExtension (Bytes : Type 0) : Type 0 where
  pub id : String
  pub manifest : ExtensionManifest
  pub files : Dict Bytes
  pub publisher_fingerprint : String
  pub gallery_fingerprint : String

abbrev pub megabyte : ℕ
megabyte = 1024 * 1024

-- The calls of the filter: the paths, the number and the bytes of the files before.
unfoldable pub filter_files : List FileInfo → List String → ℕ → ℕ → Result ArchiveError (Unit {0})
filter_files [] paths count bytes = ok tt
filter_files (file ∷ files) paths count bytes = do
  fail_if (not (archive_path file.name)) (unsafe_path file.name)
  fail_if (has paths file.name) (duplicate_path file.name)
  fail_if (ltb 5002 (count + 1)) too_many_files
  fail_if (ltb (25 * megabyte) file.original_size) (file_too_large file.name)
  fail_if (ltb (50 * megabyte) (bytes + file.original_size)) expanded_too_large
  filter_files files (file.name ∷ paths) (count + 1) (bytes + file.original_size)

-- `locusxContractVersion`, as a text.
abbrev pub contract_version : String
contract_version = "2"

-- `manifest.key === expected`.
abbrev pub is_key : Option String → String → Bool
is_key none expected = false
is_key (some key) expected = str_eq key expected

-- The errors of `validateManifest` pass through.
abbrev pub in_archive : {A : Type 0} → Result ManifestError A → Result ArchiveError A
in_archive (ok a) = ok a
in_archive (err e) = err (refused_manifest e)

abbrev pub then_read : {A B : Type 0} → Option A → (A → Option B) → Option B
then_read none f = none
then_read (some a) f = f a

module _ {Json Bytes : Type 0} (t : Toolkit Json Bytes) where
  -- `required`.
  abbrev pub required : Dict Bytes → String → Result ArchiveError Bytes
  required files path = or_fail (get files path) (missing path)

  -- `Schema.parse(JSON.parse(strFromU8(bytes)))`.
  abbrev pub parsed_file : {A : Type 0} → (Json → Option A) → Bytes → Result ArchiveError A
  parsed_file schema bytes =
      or_fail (then_read (t.reader.parse (t.decode_utf8 bytes)) schema) malformed

  unfoldable pub public_key_fingerprint : String → String
  unfolding strip_spaces
  public_key_fingerprint pem = t.sha256 (t.encode_utf8 (strip_spaces pem))

  unfoldable pub locusx_publisher_message : String → Bytes → Bytes → Bytes
  locusx_publisher_message extension_id manifest_bytes inventory_bytes = t.encode_utf8 (
      contract_version
      ++ ":"
      ++ extension_id
      ++ ":"
      ++ t.sha256 manifest_bytes
      ++ ":"
      ++ t.sha256 inventory_bytes)

  unfoldable pub locusx_gallery_message : Bytes → String → Bytes → Bytes
  locusx_gallery_message publisher_message publisher_fingerprint publisher_signature =
      t.encode_utf8 (
        t.sha256 publisher_message
        ++ ":"
        ++ publisher_fingerprint
        ++ ":"
        ++ t.sha256 publisher_signature)

  -- One round of the loop over the inventory.
  unfoldable pub check_item : Dict Bytes → InventoryItem → Result ArchiveError (Unit {0})
  check_item files item = do
    fail_if (not (archive_path item.path)) (unsafe_path item.path)
    bytes ← required files item.path
    fail_if (not (t.byte_length bytes == item.size)) (size_mismatch item.path)
    fail_if (not (str_eq (t.sha256 bytes) item.sha256)) (digest_mismatch item.path)
    fail_if (not (extension_file item.path (t.decode_utf8 bytes))) (forbidden_code item.path)

  -- One round of the loop over the paths of the files.
  unfoldable pub check_path : List InventoryItem → String → Result ArchiveError (Unit {0})
  check_path items path =
      fail_if
        (not (has ("inventory.json" ∷ "signatures.json" ∷ []) path)
          && not (has (map (λ item. item.path) items) path))
        (uninventoried path)

  unfoldable pub check_resource : Dict Bytes → String → Result ArchiveError (Unit {0})
  check_resource files path = do bytes ← required files path; ok tt

  -- What is read of the three files that describe the archive.
  unfoldable pub check_contents :
      Dict Bytes → ExtensionManifest → List InventoryItem → Result ArchiveError (Unit {0})
  unfolding check_each
  check_contents files manifest items = do
    check_each (check_item files) items
    check_each (check_path items) (keys files)
    check_each (check_resource files) (extension_local_resources manifest)

  -- The signatures, with the fingerprints of their keys.
  unfoldable pub check_signatures :
      ExtensionManifest
      → Bytes
      → Bytes
      → Signatures
      → List String
      → Result ArchiveError (String × String)
  unfolding public_key_fingerprint locusx_publisher_message locusx_gallery_message
  check_signatures manifest manifest_bytes inventory_bytes signatures trusted = do
    let publisher_fingerprint = public_key_fingerprint signatures.publisher_key
    let publisher_signature = t.decode_base64 signatures.publisher_signature
    let publisher_message =
        locusx_publisher_message signatures.extension_id manifest_bytes inventory_bytes
    signed ←
        or_fail (t.verify publisher_message signatures.publisher_key publisher_signature)
          invalid_key
    fail_if (not signed) invalid_publisher_signature
    der ← or_fail (t.public_key_der signatures.publisher_key) invalid_key
    fail_if (not (is_key manifest.key (t.encode_base64 der))) key_mismatch
    let gallery_message =
        locusx_gallery_message publisher_message publisher_fingerprint publisher_signature
    countersigned ←
        or_fail
          (t.verify gallery_message signatures.gallery_key
            (t.decode_base64 signatures.gallery_signature))
          invalid_key
    fail_if (not countersigned) invalid_countersignature
    let gallery_fingerprint = public_key_fingerprint signatures.gallery_key
    fail_if (not (has trusted gallery_fingerprint)) untrusted_gallery
    ok (publisher_fingerprint, gallery_fingerprint)

  unfoldable pub verify_locusx : Bytes → List String → Result ArchiveError (VerifiedExtension Bytes)
  unfolding filter_files check_contents check_signatures
  verify_locusx archive trusted = do
    fail_if (ltb (50 * megabyte) (t.byte_length archive)) archive_too_large
    filter_files (t.directory archive) [] 0 0
    files ← or_fail (t.unzip archive) malformed
    manifest_bytes ← required files "manifest.json"
    inventory_bytes ← required files "inventory.json"
    signatures_bytes ← required files "signatures.json"
    manifest_json ← or_fail (t.reader.parse (t.decode_utf8 manifest_bytes)) malformed
    manifest ← in_archive (validate_manifest t.reader manifest_json)
    items ← parsed_file (inventory_schema t.reader) inventory_bytes
    signatures ← parsed_file (signatures_schema t.reader) signatures_bytes
    check_contents files manifest items
    fingerprints ← check_signatures manifest manifest_bytes inventory_bytes signatures trusted
    ok (record {
      id = signatures.extension_id;
      manifest = manifest;
      files = files;
      publisher_fingerprint = fingerprints.0;
      gallery_fingerprint = fingerprints.1;
    })
