-- ===== src/Extensions/Tests.antt =====
-- packages/extensions/src on a concrete manifest and a concrete revocation.
use locus_browser.Base.{
  refl, true, false, ◌≡◌, ◌↔◌, ok, not, ◌&&◌, none, some, [], ◌∷◌, has, IsDistinct,
}
use locus_browser.Extensions.Manifest.{ExtensionManifest, permission_expansion}
use locus_browser.Extensions.ManifestCheck.{check_manifest}
use locus_browser.Base.Patterns.{after, all_codes, split_slash}
use locus_browser.Extensions.Texts.{relative_path, host_pattern, after_scheme, host_name}
use locus_browser.Extensions.ManifestSound.{IsSupported, check_manifest_lem}
use locus_browser.Extensions.Expansion.{asks, permission_expansion_lem}
use locus_browser.Extensions.Revocation.{Extension, ExtensionRevocation}

abbrev notes : ExtensionManifest
notes = record {
  keys = "manifest_version" ∷ "name" ∷ "version" ∷ "content_scripts" ∷ "permissions" ∷ [];
  name = "Notes";
  version = "1.0.0";
  description = none;
  key = none;
  content_scripts =
      record {
        matches = "https://a.example/*" ∷ [];
        exclude_matches = none;
        js = some ("a.js" ∷ []);
        css = none;
      }
      ∷ [];
  permissions = "storage" ∷ [];
  optional_permissions = [];
  host_permissions = [];
  optional_host_permissions = [];
  icons = none;
}

abbrev notes_next : ExtensionManifest
notes_next = record notes {
  permissions = "storage" ∷ "tabs" ∷ [];
  host_permissions = "https://a.example/*" ∷ [];
}

permission_expansion_lem_example :
    (has (permission_expansion notes notes_next) "tabs"
      ≡ (asks notes_next "tabs" && not (asks notes "tabs")))
    × IsDistinct (permission_expansion notes notes_next)
permission_expansion_lem_example = permission_expansion_lem notes notes_next "tabs"

abbrev reader : Extension
reader = record {
  id = "reader";
  version = "1.0.0";
  package_sha256 = "aa";
  publisher_fingerprint = "bb";
}

abbrev takedown : ExtensionRevocation
takedown = record {
  id = "r1";
  extension_id = "reader";
  version = some "1.0.0";
  package_sha256 = none;
  publisher_fingerprint = none;
  reason = "takedown";
  effective_at = 10;
}

check_manifest_lem_example : (check_manifest notes ≡ ok tt) ↔ IsSupported notes
check_manifest_lem_example = check_manifest_lem notes

-- A path that would leave the extension.
climbing_path : relative_path "images/../../key.pem" ≡ false
unfolding relative_path after has
climbing_path = refl

one_host : host_pattern "https://*.example.org/a" ≡ true
unfolding host_pattern after_scheme host_name split_slash after all_codes
one_host = refl

other_scheme : host_pattern "file://example.org/a" ≡ false
unfolding host_pattern after_scheme after
other_scheme = refl
