-- ===== src/Extensions/ManifestSchema.antt =====
-- packages/extensions/src/manifest.ts: `ContentScriptsSchema` and `ManifestSchema`.
use locus_browser.Base.{String, Bool, ◌||◌, Option, some, List, [], ◌∷◌, get, keys, str_eq}
use locus_browser.Base.Options.{◌>>=◌, ◌>>◌}
use locus_browser.Extensions.Texts.{base64_text, version_text, locale_text, dotted_numbers}
use locus_browser.Extensions.Manifest.{ContentScript, ExtensionManifest}
use locus_browser.Extensions.Reading.{
  Reader, if_present, if_required, defaulted, strict, text_between, trimmed_between, matching,
  matching_max, number_literal, list_between, texts_of,
}

abbrev run_at_values : String → Bool
run_at_values s = str_eq s "document_start" || str_eq s "document_end" || str_eq s "document_idle"

module _ {Json : Type 0} (r : Reader Json) where
  unfoldable pub strings : Json → Option (List String)
  unfolding list_between
  strings = list_between r r.string 0 200

  unfoldable pub content_script_schema : Json → Option ContentScript
  unfolding list_between strict matching strings
  content_script_schema j = do
    fields ← r.object j
    strict
        ("matches" ∷ "exclude_matches" ∷ "js" ∷ "css" ∷ "run_at" ∷ "all_frames"
          ∷ "match_about_blank" ∷ [])
        fields
    matches ← if_required (list_between r r.string 1 200) (get fields "matches")
    exclude_matches ← if_present strings (get fields "exclude_matches")
    js ← if_present strings (get fields "js")
    css ← if_present strings (get fields "css")
    run_at ← if_present (matching r run_at_values) (get fields "run_at")
    all_frames ← if_present r.boolean (get fields "all_frames")
    match_about_blank ← if_present r.boolean (get fields "match_about_blank")
    some (record { matches = matches; exclude_matches = exclude_matches; js = js; css = css })

  unfoldable pub manifest_schema : Json → Option ExtensionManifest
  unfolding list_between matching matching_max number_literal text_between trimmed_between texts_of
      strings content_script_schema
  manifest_schema j = do
    fields ← r.object j
    manifest_version ← if_required (number_literal r 3) (get fields "manifest_version")
    name ← if_required (trimmed_between r 1 80) (get fields "name")
    version ← if_required (matching r version_text) (get fields "version")
    description ← if_present (text_between r 0 500) (get fields "description")
    icons ← if_present (texts_of r) (get fields "icons")
    author ← if_present (text_between r 0 200) (get fields "author")
    short_name ← if_present (trimmed_between r 1 40) (get fields "short_name")
    default_locale ← if_present (matching r locale_text) (get fields "default_locale")
    chrome ← if_present (matching r (dotted_numbers 3)) (get fields "minimum_chrome_version")
    key ← if_present (matching_max r base64_text 8192) (get fields "key")
    content_scripts ←
        defaulted [] (list_between r content_script_schema 0 200) (get fields "content_scripts")
    permissions ← defaulted [] strings (get fields "permissions")
    optional_permissions ← defaulted [] strings (get fields "optional_permissions")
    host_permissions ← defaulted [] strings (get fields "host_permissions")
    optional_host_permissions ← defaulted [] strings (get fields "optional_host_permissions")
    some (record {
      keys = keys fields;
      name = name;
      version = version;
      description = description;
      key = key;
      content_scripts = content_scripts;
      permissions = permissions;
      optional_permissions = optional_permissions;
      host_permissions = host_permissions;
      optional_host_permissions = optional_host_permissions;
      icons = icons;
    })
