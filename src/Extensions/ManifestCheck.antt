-- ===== src/Extensions/ManifestCheck.antt =====
-- packages/extensions/src/manifest.ts and contract.ts: `validateManifest`.
use locus_browser.Base.{
  String, Bool, true, false, not, ◌&&◌, List, [], ◌∷◌, ◌++◌, keep, has, unique, Result, ok,
}
use locus_browser.Base.Results.{◌>>=◌, ◌>>◌, fail_if, or_fail, check_each}
use locus_browser.Extensions.Texts.{host_pattern, relative_path, icon_size}
use locus_browser.Extensions.Manifest.{ContentScript, ExtensionManifest, or_empty}
use locus_browser.Extensions.Reading.{Reader}
use locus_browser.Extensions.ManifestSchema.{manifest_schema}

pub data ManifestError : Type 0 where
  -- a `z.ZodError`
  invalid_manifest no_content_files invalid_icons : ManifestError
  unsupported_keys unsupported_permissions : List String → ManifestError
  unsupported_host_pattern unsafe_resource_path : String → ManifestError

abbrev pub supported_manifest_keys : List String
supported_manifest_keys =
    "manifest_version" ∷ "name" ∷ "version" ∷ "description" ∷ "icons" ∷ "author" ∷ "short_name"
    ∷ "default_locale" ∷ "minimum_chrome_version" ∷ "key" ∷ "content_scripts" ∷ "permissions"
    ∷ "host_permissions" ∷ "optional_permissions" ∷ "optional_host_permissions" ∷ []

abbrev pub registered_permissions : List String
registered_permissions = "activeTab" ∷ "scripting" ∷ "storage" ∷ "tabs" ∷ "webRequest" ∷ []

abbrev pub is_empty : List String → Bool
is_empty [] = true
is_empty (x ∷ xs) = false

unfoldable pub validate_host_pattern : String → Result ManifestError (Unit {0})
validate_host_pattern pattern =
    fail_if (not (host_pattern pattern)) (unsupported_host_pattern pattern)

unfoldable pub validate_relative_extension_path : String → Result ManifestError (Unit {0})
validate_relative_extension_path path =
    fail_if (not (relative_path path)) (unsafe_resource_path path)

unfoldable pub validate_script : ContentScript → Result ManifestError (Unit {0})
unfolding check_each validate_host_pattern validate_relative_extension_path
validate_script script = do
  check_each validate_host_pattern (script.matches ++ or_empty script.exclude_matches)
  check_each validate_relative_extension_path (or_empty script.js ++ or_empty script.css)
  fail_if (is_empty (or_empty script.js) && is_empty (or_empty script.css)) no_content_files

unfoldable pub validate_icon : String × String → Result ManifestError (Unit {0})
unfolding validate_relative_extension_path
validate_icon (size, path) = do
  fail_if (not (icon_size size)) invalid_icons
  validate_relative_extension_path path

-- After its schema.
unfoldable pub check_manifest : ExtensionManifest → Result ManifestError (Unit {0})
unfolding check_each validate_host_pattern validate_script validate_icon
check_manifest m = do
  let unknown_keys = keep (λ key. not (has supported_manifest_keys key)) m.keys
  fail_if (not (is_empty unknown_keys)) (unsupported_keys unknown_keys)
  let unsupported =
      keep (λ permission. not (has registered_permissions permission))
        (m.permissions ++ m.optional_permissions)
  fail_if (not (is_empty unsupported)) (unsupported_permissions (unique unsupported))
  check_each validate_host_pattern (m.host_permissions ++ m.optional_host_permissions)
  check_each validate_script m.content_scripts
  check_each validate_icon (or_empty m.icons)

-- On what `JSON.parse` returns.
unfoldable pub validate_manifest :
    {Json : Type 0} → Reader Json → Json → Result ManifestError ExtensionManifest
unfolding check_manifest
validate_manifest r raw = do
  parsed ← or_fail (manifest_schema r raw) invalid_manifest
  check_manifest parsed
  ok parsed
