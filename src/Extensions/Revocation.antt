-- ===== src/Extensions/Revocation.antt =====
-- packages/extensions/src/gallery.ts: `extensionIsRevoked`. Times are seconds.
use locus_browser.Base.{
  ℕ, ◌≤◌, ◌≡◌, ◌⊎◌, ◌↔◌, refl, ap, String, Bool, true, ◌&&◌, Option, none, some, List, [], ◌∷◌,
  arith, leb, str_eq, eq_iff, All, Any, Bool-cases, inl, inr, if◌then◌else◌,
}

-- The fields that are compared.
pub record Extension : Type 0 where
  pub id : String
  pub version : String
  pub package_sha256 : String
  pub publisher_fingerprint : String

pub record ExtensionRevocation : Type 0 where
  pub id : String
  pub extension_id : String
  pub version : Option String
  pub package_sha256 : Option String
  pub publisher_fingerprint : Option String
  pub reason : String
  pub effective_at : ℕ

-- `!wanted || wanted === value`.
abbrev pub fits : Option String → String → Bool
fits none value = true
fits (some wanted) value = if str_eq wanted "" then true else str_eq wanted value

unfoldable pub applies : Extension → ℕ → ExtensionRevocation → Bool
applies e now r =
    leb r.effective_at now
    && str_eq r.extension_id e.id
    && fits r.version e.version
    && fits r.package_sha256 e.package_sha256
    && fits r.publisher_fingerprint e.publisher_fingerprint

unfoldable pub extension_is_revoked :
    Extension → List ExtensionRevocation → ℕ → Option ExtensionRevocation
extension_is_revoked e [] now = none
extension_is_revoked e (r ∷ rs) now =
    let rest = extension_is_revoked e rs now in if applies e now r then some r else rest

-- A revocation names the extension, is in force, and each of its three conditions is absent or fits.
abbrev pub Fits : Option String → String → Type 0
Fits wanted value = (wanted ≡ none) ⊎ (wanted ≡ some "") ⊎ (wanted ≡ some value)

abbrev pub Applies : Extension → ℕ → ExtensionRevocation → Type 0
Applies e now r =
    (r.effective_at ≤ now)
    × (r.extension_id ≡ e.id)
    × Fits r.version e.version
    × Fits r.package_sha256 e.package_sha256
    × Fits r.publisher_fingerprint e.publisher_fingerprint

fits_iff :
    (wanted : Option String) (value : String) → (fits wanted value ≡ true) ↔ Fits wanted value
fits_iff none value = (λ h. inl refl, λ h. refl)
fits_iff (some w) value = (
  λ h. elim (Bool-cases (str_eq w "")) [
    | inl e ↦ inr (inl (ap some ((eq_iff w "").0 e)))
    | inr e ↦ inr (inr (ap some ((eq_iff w value).0 (rw e at h))))
  ],
  λ h. elim h [
    | inl e ↦ absurd (cc e)
    | inr (inl e) ↦ empty_fits w value (of_some w "" e)
    | inr (inr e) ↦ same_fits w value (of_some w value e)
  ],
)
  where
    of_some : (x y : String) → some x ≡ some y → x ≡ y
    of_some x y e = cc

    empty_fits : (x y : String) → x ≡ "" → fits (some x) y ≡ true
    empty_fits x y e = rw ((eq_iff x "").1 e) refl

    same_fits : (x y : String) → x ≡ y → fits (some x) y ≡ true
    same_fits x y e = ground (arith, (eq_iff x y).1 e)

applies_iff :
    (e : Extension) (now : ℕ) (r : ExtensionRevocation) → (applies e now r ≡ true) ↔ Applies e now r
unfolding applies
applies_iff e now r =
    let (to_version, of_version) = fits_iff r.version e.version in
    let (to_sha, of_sha) = fits_iff r.package_sha256 e.package_sha256 in
    let (to_publisher, of_publisher) = fits_iff r.publisher_fingerprint e.publisher_fingerprint in
    (
      λ h. (
        ground arith,
        (eq_iff r.extension_id e.id).0 (ground arith),
        to_version (ground arith),
        to_sha (ground arith),
        to_publisher (ground arith),
      ),
      λ (now_or_before, same, v, s, p).
          let named = (eq_iff r.extension_id e.id).1 same in
          let a = of_version v in
          let b = of_sha s in let c = of_publisher p in ground (arith, named, a, b, c),
    )

-- An extension is revoked exactly if some revocation applies to it, and the answer is the first one that
-- does: it is on the list and applies.
pub extension_is_revoked_lem :
    (e : Extension) (rs : List ExtensionRevocation) (now : ℕ)
    → ((extension_is_revoked e rs now ≡ none) × All (λ r. ¬ Applies e now r) rs)
      ⊎ ((r : ExtensionRevocation) × (extension_is_revoked e rs now ≡ some r)
          × Applies e now r
          × Any (λ q. r ≡ q) rs)
unfolding extension_is_revoked
extension_is_revoked_lem e [] now = inl (refl, tt)
extension_is_revoked_lem e (r ∷ rs) now = elim (Bool-cases (applies e now r)) [
  | inl f ↦ rw f (inr (r, refl, (applies_iff e now r).0 f, inl refl))
  | inr f ↦ rw f (elim (extension_is_revoked_lem e rs now) [
    | inl (a, b) ↦ inl (a, ((λ h. cc ((applies_iff e now r).1 h)), b))
    | inr (q, a, b, c) ↦ inr (q, a, b, inr c)
  ])
]
