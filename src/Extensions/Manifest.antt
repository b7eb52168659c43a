-- ===== src/Extensions/Manifest.antt =====
-- packages/extensions/src/manifest.ts: the manifest of an extension, and what `permissionExpansion`,
-- `extensionContentScriptMatches` and `extensionLocalResources` read off it.
use locus_browser.Base.{String, not, Option, none, some, List, [], ◌∷◌, ◌++◌, has, unique, keep}

pub record ContentScript : Type 0 where
  pub matches : List String
  pub exclude_matches : Option (List String)
  pub js : Option (List String)
  pub css : Option (List String)

-- The fields that are read.
pub record ExtensionManifest : Type 0 where
  -- `Object.keys`
  pub keys : List String
  pub name : String
  pub version : String
  pub description : Option String
  pub key : Option String
  pub content_scripts : List ContentScript
  pub permissions : List String
  pub optional_permissions : List String
  pub host_permissions : List String
  pub optional_host_permissions : List String
  -- size and path
  pub icons : Option (List (String × String))

-- `list ?? []`.
abbrev pub or_empty {ℓ} : {A : Type ℓ} → Option (List A) → List A
or_empty none = []
or_empty (some xs) = xs

-- `flatMap`.
abbrev pub flat_map {ℓ} : {A : Type ℓ} → (A → List String) → List A → List String
flat_map f [] = []
flat_map f (x ∷ xs) = f x ++ flat_map f xs

unfoldable pub extension_content_script_matches : ExtensionManifest → List String
extension_content_script_matches m = unique (flat_map (λ script. script.matches) m.content_scripts)

abbrev pub paths : List (String × String) → List String
paths [] = []
paths ((size, path) ∷ icons) = path ∷ paths icons

unfoldable pub extension_local_resources : ExtensionManifest → List String
extension_local_resources m = unique (
    flat_map (λ script. or_empty script.js ++ or_empty script.css) m.content_scripts
    ++ paths (or_empty m.icons))

-- What a manifest asks for.
unfoldable pub all_permissions : ExtensionManifest → List String
all_permissions m =
    m.permissions
    ++ (m.optional_permissions
        ++ (m.host_permissions
            ++ (m.optional_host_permissions ++ extension_content_script_matches m)))

unfoldable pub permission_expansion : ExtensionManifest → ExtensionManifest → List String
permission_expansion previous next =
    unique
      (keep (λ permission. not (has (all_permissions previous) permission)) (all_permissions next))
