-- ===== src/Extensions/Expansion.antt =====
-- What `permissionExpansion` of packages/extensions/src/manifest.ts lists.
use locus_browser.Base.{
  ◌≡◌, ◌∙◌, refl, ap, String, Bool, not, ◌&&◌, ◌||◌, List, [], ◌∷◌, ◌++◌, arith, has, has-unique,
  unique-IsDistinct, IsDistinct, keep, any, str_eq, eq_iff, Bool-cases, inl, inr,
}
use locus_browser.Extensions.Manifest.{
  ContentScript, ExtensionManifest, flat_map, extension_content_script_matches, all_permissions,
  permission_expansion,
}

has-append : (xs ys : List String) (a : String) → has (xs ++ ys) a ≡ (has xs a || has ys a)
unfolding has
has-append [] ys a = refl
has-append (x ∷ xs) ys a = ground (arith, has-append xs ys a)

has-keep :
    (p : String → Bool) (xs : List String) (a : String) → has (keep p xs) a ≡ (has xs a && p a)
unfolding has
has-keep p [] a = refl
has-keep p (x ∷ xs) a = elim (Bool-cases (str_eq x a)) [
  | inr e ↦ ground (arith, has-keep p xs a)
  | inl e ↦ let same : p x ≡ p a = ap p ((eq_iff x a).0 e) in ground (arith, has-keep p xs a)
]

has-flat_map :
    (scripts : List ContentScript) (a : String)
    → has (flat_map (λ script. script.matches) scripts) a
      ≡ any (λ script. has script.matches a) scripts
unfolding has
has-flat_map [] a = refl
has-flat_map (s ∷ scripts) a = ground (
  arith,
  has-append s.matches (flat_map (λ script. script.matches) scripts) a,
  has-flat_map scripts a,
)

-- A manifest asks for a permission in one of its four lists, or by a pattern of a content script.
abbrev pub asks : ExtensionManifest → String → Bool
asks m a =
    has m.permissions a
    || (has m.optional_permissions a
        || (has m.host_permissions a
            || (has m.optional_host_permissions a
                || any (λ script. has script.matches a) m.content_scripts)))

all_permissions-asks : (m : ExtensionManifest) (a : String) → has (all_permissions m) a ≡ asks m a
unfolding all_permissions extension_content_script_matches
all_permissions-asks m a =
    has-append m.permissions _ a
    ∙ ap (λ b. has m.permissions a || b)
        (has-append m.optional_permissions _ a
          ∙ ap (λ b. has m.optional_permissions a || b)
              (has-append m.host_permissions _ a
                ∙ ap (λ b. has m.host_permissions a || b)
                    (has-append m.optional_host_permissions _ a
                      ∙ ap (λ b. has m.optional_host_permissions a || b)
                          (has-unique _ a ∙ has-flat_map m.content_scripts a))))

-- The expansion lists, once each, exactly the permissions and host patterns that the next manifest asks
-- for and the previous one does not.
pub permission_expansion_lem :
    (previous next : ExtensionManifest) (a : String)
    → (has (permission_expansion previous next) a ≡ (asks next a && not (asks previous a)))
      × IsDistinct (permission_expansion previous next)
unfolding permission_expansion
permission_expansion_lem previous next a = (
  has-unique _ a
      ∙ has-keep _ (all_permissions next) a
      ∙ rw (all_permissions-asks next a, all_permissions-asks previous a) refl,
  unique-IsDistinct _,
)
