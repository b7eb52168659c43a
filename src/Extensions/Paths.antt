-- ===== src/Extensions/Paths.antt =====
-- Which paths `validateRelativeExtensionPath` (packages/extensions/src/manifest.ts) lets pass.
use Prim.Native.Char.{Char, code}
use Prim.Native.String.{String, [], ◌∷◌, ◌++◌}
use mathlib.Core.List.{List}
use text.Mathlib.TextLemmas.{nil-append, cons-append}
use locus_browser.Base.{
  ◌≡◌, ◌≢◌, ◌↔◌, ◌∙◌, refl, sym, ap, true, false, not, some, All, has, ◌==◌, str_eq, eq_iff, arith,
  Bool-cases, Option-cases, inl, inr,
}
use locus_browser.Base.Patterns.{all_codes, after, span_codes, split_slashes}
use locus_browser.Base.Consuming.{
  after_sound, after-append, span_codes_lem, span_codes-append, occurs, occurs-append,
}
use locus_browser.Extensions.Texts.{
  passes, includes_code, is_letter, is_scheme_code, has_scheme, relative_path,
}

abbrev pub backslash : Char
backslash = "\\"

abbrev pub colon : Char
colon = ":"

-- The name of a URL scheme: a letter, and letters, digits and `+.-`.
abbrev pub IsScheme : String → Type 0
IsScheme s =
    (c : Char) × (rest : String) × (s ≡ c ∷ rest)
    × (is_letter (code c) ≡ true)
    × (all_codes is_scheme_code rest ≡ true)

-- A path within the extension: it is not empty, does not start at the root, has no backslash, no segment
-- that goes up, and is no URL with a scheme.
pub record IsLocalPath (path : String) : Type 0 where
  pub named : path ≢ ""
  pub relative : (rest : String) → path ≢ "/" ++ rest
  pub slashes : (before rest : String) → path ≢ before ++ (backslash ∷ rest)
  pub inside : All (λ segment. segment ≢ "..") (split_slashes path)
  pub no_url : (scheme rest : String) → IsScheme scheme → path ≢ scheme ++ (colon ∷ rest)

has_iff : (xs : List String) (a : String) → (has xs a ≡ false) ↔ All (λ x. x ≢ a) xs
unfolding has
has_iff List.[] a = (λ h. tt, λ h. refl)
has_iff (List.◌∷◌ x xs) a =
    let (to, of) = has_iff xs a in
    (
      λ h. ((λ e. cc ((eq_iff x a).1 e)), to (ground arith)),
      λ h. elim (Bool-cases (str_eq x a)) [
        | inl e ↦ absurd (h.0 ((eq_iff x a).0 e))
        | inr e ↦ rw e (of h.1)
      ],
    )

passes_iff : (p s : String) → (passes (after p s) ≡ false) ↔ ((rest : String) → s ≢ p ++ rest)
passes_iff p s = (
  λ h rest e. let found : after p s ≡ some rest = rw e (after-append p rest) in cc (rw found at h),
  λ h. elim (Option-cases (after p s)) [
    | inl missing ↦ rw missing refl
    | inr (rest, found) ↦ absurd (h rest (after_sound p s rest found))
  ],
)

empty_iff : (s : String) → (str_eq s "" ≡ false) ↔ (s ≢ "")
empty_iff s = (
  λ h e. cc ((eq_iff s "").1 e),
  λ h. elim (Bool-cases (str_eq s "")) [ inl e ↦ absurd (h ((eq_iff s "").0 e)) | inr e ↦ e ],
)

backslash_iff :
    (s : String)
    → (includes_code b'\\' s ≡ false) ↔ ((before rest : String) → s ≢ before ++ (backslash ∷ rest))
unfolding includes_code
backslash_iff s = (
  λ h before rest e.
      let found : all_codes (λ d. not (d == b'\\')) s ≡ false =
        rw e (occurs-append backslash before rest) in
      cc (rw found at h),
  λ h. elim (Bool-cases (all_codes (λ d. not (d == b'\\')) s)) [
    | inl e ↦ rw e refl
    | inr e ↦ let (before, rest, split) = occurs backslash s e in absurd (h before rest split)
  ],
)

has_scheme_of :
    (scheme rest : String) → IsScheme scheme → has_scheme (scheme ++ (colon ∷ rest)) ≡ true
unfolding has_scheme after
has_scheme_of scheme rest (c, run, split, letter, good) =
    let found : span_codes is_scheme_code (run ++ (colon ∷ rest)) ≡ (run, colon ∷ rest) =
      span_codes-append is_scheme_code run colon rest good refl in
    rw (split, cons-append c run (colon ∷ rest), letter, found) refl

has_scheme_sound :
    (s : String)
    → has_scheme s ≡ true
    → (scheme : String) × (rest : String) × IsScheme scheme × (s ≡ scheme ++ (colon ∷ rest))
unfolding has_scheme
has_scheme_sound [] h = cc
has_scheme_sound (c ∷ s) h =
    let (whole, good) = span_codes_lem is_scheme_code s in
    let run = (span_codes is_scheme_code s).0 in
    let letter : is_letter (code c) ≡ true = ground arith in
    elim (Option-cases (after ":" (span_codes is_scheme_code s).1)) [
      | inl missing ↦ cc (rw (letter, missing) at h)
      | inr (rest, found) ↦
          let stop = after_sound ":" (span_codes is_scheme_code s).1 rest found in
          let colon_next : ":" ++ rest ≡ colon ∷ rest =
            cons-append colon [] rest ∙ ap (◌∷◌ colon) (nil-append rest) in
          (
            c ∷ run,
            rest,
            (c, run, refl, letter, good),
            ap (◌∷◌ c) (whole ∙ ap (λ x. run ++ x) (stop ∙ colon_next))
                ∙ sym (cons-append c run (colon ∷ rest)),
          )
    ]

has_scheme_iff :
    (s : String)
    → (has_scheme s ≡ false)
      ↔ ((scheme rest : String) → IsScheme scheme → s ≢ scheme ++ (colon ∷ rest))
has_scheme_iff s = (
  λ h scheme rest is_scheme e.
      let found : has_scheme s ≡ true = rw e (has_scheme_of scheme rest is_scheme) in
      cc (rw found at h),
  λ h. elim (Bool-cases (has_scheme s)) [
    | inr e ↦ e
    | inl e ↦
        let (scheme, rest, is_scheme, split) = has_scheme_sound s e in
        absurd (h scheme rest is_scheme split)
  ],
)

-- The test lets exactly the paths within the extension pass.
pub relative_path_iff : (path : String) → (relative_path path ≡ true) ↔ IsLocalPath path
unfolding relative_path
relative_path_iff path =
    let (empty, empty') = empty_iff path in
    let (root, root') = passes_iff "/" path in
    let (back, back') = backslash_iff path in
    let (up, up') = has_iff (split_slashes path) ".." in
    let (url, url') = has_scheme_iff path in
    (
      λ h. record {
        named = empty (ground arith);
        relative = root (ground arith);
        slashes = back (ground arith);
        inside = up (ground arith);
        no_url = url (ground arith);
      },
      λ p. rw (empty' p.named, root' p.relative, back' p.slashes, up' p.inside, url' p.no_url) refl,
    )
