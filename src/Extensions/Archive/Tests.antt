-- ===== src/Extensions/Archive/Tests.antt =====
-- The verification of a small archive, and its theorems on it.
use locus_browser.Base.{
  ℕ, ◌≡◌, ◌≢◌, ◌⊎◌, ◌↔◌, ◌≤◌, ◌*◌, refl, String, Bool, true, false, Option, none, some, List, [],
  ◌∷◌, get, has, unique, unique_from, keys, length, All, Any, IsDistinct, Result, ok, err, arith,
}
use locus_browser.Base.Patterns.{split_slash, after, all_codes}
use locus_browser.Extensions.Texts.{
  archive_path, version_text, base64_text, sha256_text, extension_id_text, host_pattern,
  after_scheme, host_name, relative_path,
}
use locus_browser.Extensions.Code.{extension_file}
use locus_browser.Extensions.Reading.{parse_each}
use locus_browser.Extensions.Manifest.{extension_local_resources}
use locus_browser.Extensions.ManifestSchema.{manifest_schema}
use locus_browser.Extensions.ManifestCheck.{validate_manifest}
use locus_browser.Extensions.Archive.Schemas.{
  InventoryItem, Signatures, inventory_schema, signatures_schema,
}
use locus_browser.Extensions.Archive.Steps.{IsSigned}
use locus_browser.Extensions.Archive.Sound.{
  Describes, verify_locusx-inventoried, verify_locusx-IsSigned,
}
use locus_browser.Extensions.Archive.Tamper.{verify_locusx-same_inventory}
use locus_browser.Extensions.Archive.Filter.{IsAdmissible, names, expanded_size, filter_files_lem}
use locus_browser.Extensions.Archive.{
  VerifiedExtension, check_item, check_path, check_resource, verify_locusx, filter_files,
  parsed_file, megabyte,
}
use locus_browser.Extensions.Archive.Tests.Data.{
  Content, script_file, archive, toolkit, trusted, digest, archive_directory, archive_files,
}
mod Data

abbrev sample : VerifiedExtension Content
sample = record {
  id = "notes.example";
  manifest = record {
    keys = "manifest_version" ∷ "name" ∷ "version" ∷ "key" ∷ "content_scripts" ∷ [];
    name = "Notes";
    version = "1.0.0";
    description = none;
    key = some "AAAA";
    content_scripts =
        record {
          matches = "https://a.example/*" ∷ [];
          exclude_matches = none;
          js = some ("a.js" ∷ []);
          css = none;
        }
        ∷ [];
    permissions = [];
    optional_permissions = [];
    host_permissions = [];
    optional_host_permissions = [];
    icons = none;
  };
  files = archive_files;
  publisher_fingerprint = digest;
  gallery_fingerprint = digest;
}

sample_verified : verify_locusx toolkit archive trusted ≡ ok sample
unfolding verify_locusx validate_manifest manifest_schema inventory_schema signatures_schema
    check_item check_path check_resource get has archive_path version_text base64_text sha256_text
    extension_id_text extension_file extension_local_resources parse_each host_pattern after_scheme
    host_name split_slash after all_codes relative_path unique unique_from
sample_verified = refl

a_script : get archive_files "a.js" ≡ some script_file
unfolding get
a_script = refl

verify_locusx-inventoried_example :
    (◌≡◌ {A = String} "a.js" "inventory.json")
    ⊎ (◌≡◌ {A = String} "a.js" "signatures.json")
    ⊎ ((inventory_bytes : Content) × (items : List InventoryItem) × (get sample.files
            "inventory.json"
          ≡ some inventory_bytes)
        × (parsed_file toolkit (inventory_schema toolkit.reader) inventory_bytes ≡ ok items)
        × Any (Describes toolkit "a.js" script_file) items)
verify_locusx-inventoried_example =
    verify_locusx-inventoried toolkit archive trusted sample "a.js" script_file sample_verified
      a_script

verify_locusx-IsSigned_example :
    (manifest_bytes : Content) × (inventory_bytes : Content) × (signatures : Signatures) × (get
        sample.files "manifest.json"
      ≡ some manifest_bytes)
    × (get sample.files "inventory.json" ≡ some inventory_bytes)
    × IsSigned toolkit sample.id sample.manifest manifest_bytes inventory_bytes trusted signatures
        (digest, digest)
verify_locusx-IsSigned_example =
    verify_locusx-IsSigned toolkit archive trusted sample sample_verified

verify_locusx-same_inventory_example :
    (other : Content) × (get sample.files "a.js" ≡ some other)
    × (toolkit.byte_length other ≡ toolkit.byte_length script_file)
    × (toolkit.sha256 other ≡ toolkit.sha256 script_file)
verify_locusx-same_inventory_example =
    verify_locusx-same_inventory toolkit archive archive trusted sample sample "a.js" script_file
      sample_verified sample_verified refl (λ e. cc) (λ e. cc) a_script

filter_files_lem_example : (filter_files archive_directory [] 0 0 ≡ ok tt) ↔ (
    All IsAdmissible archive_directory
    × IsDistinct (names archive_directory)
    × (length archive_directory ≤ 5002)
    × (expanded_size archive_directory ≤ 50 * megabyte))
filter_files_lem_example = filter_files_lem archive_directory
