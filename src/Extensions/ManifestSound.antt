-- ===== src/Extensions/ManifestSound.antt =====
-- Which manifests `validateManifest` lets pass.
use locus_browser.Base.{
  ◌≡◌, ◌↔◌, refl, String, Bool, true, false, not, ◌&&◌, List, [], ◌∷◌, ◌++◌, keep, has, unique, ◌≢◌,
  ◌≤◌, str_eq, eq_iff, arith, Result, ok, err, All, Bool-cases, inl, inr,
}
use locus_browser.Base.Results.{◌>>◌, fail_if, check_each}
use locus_browser.Base.Patterns.{all_codes, is_digit, utf16_length}
use locus_browser.Extensions.Texts.{host_pattern, relative_path, icon_size}
use locus_browser.Extensions.Paths.{IsLocalPath, relative_path_iff}
use locus_browser.Extensions.Hosts.{IsHostPattern, host_pattern_iff}
use locus_browser.Extensions.Manifest.{ContentScript, ExtensionManifest, or_empty}
use locus_browser.Extensions.ManifestCheck.{
  check_manifest, validate_script, validate_icon, validate_host_pattern,
  validate_relative_extension_path, supported_manifest_keys, registered_permissions, is_empty,
  no_content_files, invalid_icons, unsupported_keys, unsupported_permissions,
}

-- A script has a file of its own, and names safe paths and supported patterns only.
pub record IsSafeScript (script : ContentScript) : Type 0 where
  pub patterns : All IsHostPattern (script.matches ++ or_empty script.exclude_matches)
  pub local_paths : All IsLocalPath (or_empty script.js ++ or_empty script.css)
  pub has_file : is_empty (or_empty script.js) && is_empty (or_empty script.css) ≡ false

-- One to four digits.
abbrev pub IsIconSize : String → Type 0
IsIconSize s = (s ≢ "") × (utf16_length s ≤ 4) × (all_codes is_digit s ≡ true)

abbrev pub IsSafeIcon : String × String → Type 0
IsSafeIcon icon = IsIconSize icon.0 × IsLocalPath icon.1

pub record IsSupported (m : ExtensionManifest) : Type 0 where
  pub known_keys : All (λ key. has supported_manifest_keys key ≡ true) m.keys
  pub known_permissions :
      All
        (λ permission. has registered_permissions permission ≡ true)
        (m.permissions ++ m.optional_permissions)
  pub hosts : All IsHostPattern (m.host_permissions ++ m.optional_host_permissions)
  pub scripts : All IsSafeScript m.content_scripts
  pub sized_icons : All IsSafeIcon (or_empty m.icons)

module _ {E : Type 0} where
  -- Two steps pass if both do.
  then_iff : (m k : Result E (Unit {0})) → ((m >> k) ≡ ok tt) ↔ ((m ≡ ok tt) × (k ≡ ok tt))
  then_iff (ok u) k = (λ h. (refl, h), λ (a, b). b)
  then_iff (err e) k = (λ h. cc, λ (a, b). cc)

  unless_iff : (b : Bool) (e : E) → (fail_if (not b) e ≡ ok tt) ↔ (b ≡ true)
  unless_iff true e = (λ h. refl, λ h. refl)
  unless_iff false e = (λ h. cc, λ h. cc)

  fail_if_iff : (b : Bool) (e : E) → (fail_if b e ≡ ok tt) ↔ (b ≡ false)
  fail_if_iff true e = (λ h. cc, λ h. cc)
  fail_if_iff false e = (λ h. refl, λ h. refl)

  check_each_iff :
      {A : Type 0} (P : A → Type 0) (f : A → Result E (Unit {0})) (xs : List A)
      → ((x : A) → (f x ≡ ok tt) ↔ P x)
      → (check_each f xs ≡ ok tt) ↔ All P xs
  unfolding check_each
  check_each_iff P f [] h = (λ e. tt, λ a. refl)
  check_each_iff P f (x ∷ xs) h =
      let (to, of) = then_iff (f x) (check_each f xs) in
      let (first, first') = h x in
      let (rest, rest') = check_each_iff P f xs h in
      (λ e. let (a, b) = to e in (first a, rest b), λ (a, b). of (first' a, rest' b))

is_empty-keep :
    (p : String → Bool) (xs : List String)
    → (not (is_empty (keep (λ x. not (p x)) xs)) ≡ false) ↔ All (λ x. p x ≡ true) xs
is_empty-keep p [] = (λ h. tt, λ h. refl)
is_empty-keep p (x ∷ xs) = elim (Bool-cases (p x)) [
  | inl e ↦ let (to, of) = is_empty-keep p xs in rw e (λ h. (refl, to h), λ (a, b). of b)
  | inr e ↦ rw e (λ h. cc, λ (a, b). cc)
]

iff_trans : {A B C : Type 0} → (A ↔ B) → (B ↔ C) → A ↔ C
iff_trans (to, of) (to', of') = (λ a. to' (to a), λ c. of (of' c))

host_iff : (pattern : String) → (validate_host_pattern pattern ≡ ok tt) ↔ IsHostPattern pattern
unfolding validate_host_pattern
host_iff pattern = iff_trans (unless_iff (host_pattern pattern) _) (host_pattern_iff pattern)

path_iff : (path : String) → (validate_relative_extension_path path ≡ ok tt) ↔ IsLocalPath path
unfolding validate_relative_extension_path
path_iff path = iff_trans (unless_iff (relative_path path) _) (relative_path_iff path)

size_iff : (s : String) → (icon_size s ≡ true) ↔ IsIconSize s
unfolding icon_size
size_iff s = (
  λ h. ((λ e. cc (rw ((eq_iff s "").1 e) at h)), ground arith, ground arith),
  λ (named, short, digits). elim (Bool-cases (str_eq s "")) [
    | inl e ↦ absurd (named ((eq_iff s "").0 e))
    | inr e ↦ ground arith
  ],
)

script_iff : (script : ContentScript) → (validate_script script ≡ ok tt) ↔ IsSafeScript script
unfolding validate_script
script_iff script =
    let patterns =
      check_each_iff IsHostPattern validate_host_pattern
        (script.matches ++ or_empty script.exclude_matches) host_iff in
    let paths =
      check_each_iff IsLocalPath validate_relative_extension_path
        (or_empty script.js ++ or_empty script.css) path_iff in
    let file =
      fail_if_iff (is_empty (or_empty script.js) && is_empty (or_empty script.css))
        no_content_files in
    (
      λ h.
          let (a, h1) = (then_iff _ _).0 h in
          let (b, c) = (then_iff _ _).0 h1 in
          record { patterns = patterns.0 a; local_paths = paths.0 b; has_file = file.0 c },
      λ s.
          (then_iff _ _).1
            (patterns.1 s.patterns, (then_iff _ _).1 (paths.1 s.local_paths, file.1 s.has_file)),
    )

icon_iff : (icon : String × String) → (validate_icon icon ≡ ok tt) ↔ IsSafeIcon icon
unfolding validate_icon
icon_iff (size, path) =
    let numeric = iff_trans (unless_iff (icon_size size) invalid_icons) (size_iff size) in
    let local = path_iff path in
    (
      λ h. let (a, b) = (then_iff _ _).0 h in (numeric.0 a, local.0 b),
      λ (a, b). (then_iff _ _).1 (numeric.1 a, local.1 b),
    )

-- The checks let a manifest pass exactly if all its keys are supported, all its permissions are registered,
-- each content script has a file, and the host patterns, the paths and the icon sizes that it names are
-- of these shapes: a host pattern is `<all_urls>` or a scheme (http, https or `*`), `://`, a host (`*`, or
-- letters, digits, dots and dashes, with or without `*.` before) and a path on one line; a path is not
-- empty, does not start with a slash, has no backslash and no segment `..`, and does not start with a
-- URL scheme and a colon; an icon size has one to four digits.
pub check_manifest_lem : (m : ExtensionManifest) → (check_manifest m ≡ ok tt) ↔ IsSupported m
unfolding check_manifest
check_manifest_lem m =
    let asked = m.permissions ++ m.optional_permissions in
    let keys = is_empty-keep (has supported_manifest_keys) m.keys in
    let unknown =
      fail_if_iff (not (is_empty (keep (λ key. not (has supported_manifest_keys key)) m.keys)))
        (unsupported_keys (keep (λ key. not (has supported_manifest_keys key)) m.keys)) in
    let registered = is_empty-keep (has registered_permissions) asked in
    let refused =
      fail_if_iff
        (not (is_empty (keep (λ permission. not (has registered_permissions permission)) asked)))
        (unsupported_permissions
          (unique (keep (λ permission. not (has registered_permissions permission)) asked))) in
    let hosts =
      check_each_iff IsHostPattern validate_host_pattern
        (m.host_permissions ++ m.optional_host_permissions) host_iff in
    let scripts = check_each_iff IsSafeScript validate_script m.content_scripts script_iff in
    let icons = check_each_iff IsSafeIcon validate_icon (or_empty m.icons) icon_iff in
    (
      λ h.
          let (a, h1) = (then_iff _ _).0 h in
          let (b, h2) = (then_iff _ _).0 h1 in
          let (c, h3) = (then_iff _ _).0 h2 in
          let (d, e) = (then_iff _ _).0 h3 in
          record {
            known_keys = keys.0 (unknown.0 a);
            known_permissions = registered.0 (refused.0 b);
            hosts = hosts.0 c;
            scripts = scripts.0 d;
            sized_icons = icons.0 e;
          },
      λ s. (then_iff _ _).1 (
        unknown.1 (keys.1 s.known_keys),
        (then_iff _ _).1 (
          refused.1 (registered.1 s.known_permissions),
          (then_iff _ _).1
              (hosts.1 s.hosts, (then_iff _ _).1 (scripts.1 s.scripts, icons.1 s.sized_icons)),
        ),
      ),
    )
