-- ===== src/Extensions/Hosts.antt =====
-- Which host patterns `validateHostPattern` (packages/extensions/src/manifest.ts) lets pass.
use Prim.Native.Char.{Char}
use Prim.Native.String.{String, [], ◌∷◌, ◌++◌}
use text.Mathlib.TextLemmas.{nil-append, cons-append, append_assoc}
use locus_browser.Base.{
  ◌≡◌, ◌≢◌, ◌↔◌, ◌⊎◌, ◌∙◌, refl, sym, ap, Bool, true, false, not, ◌&&◌, none, some, ◌==◌, str_eq,
  eq_iff, arith, Bool-cases, Option-cases, inl, inr,
}
use locus_browser.Base.Options.{require}
use locus_browser.Base.Patterns.{all_codes, after, is_host, split_slash}
use locus_browser.Base.Consuming.{
  after_sound, after-append, split_slash_lem, split_slash-append, all_codes-map,
}
use locus_browser.Extensions.Texts.{
  passes, is_inline, optional_s, after_scheme, host_name, host_pattern,
}

abbrev pub IsSchemeText : String → Type 0
IsSchemeText s = (s ≡ "http") ⊎ (s ≡ "https") ⊎ (s ≡ "*")

-- Letters, digits, dots and dashes.
abbrev pub IsDomain : String → Type 0
IsDomain s = (s ≢ "") × (all_codes is_host s ≡ true)

-- All hosts, a domain, or a domain with all its subdomains.
abbrev pub IsHost : String → Type 0
IsHost s = (s ≡ "*") ⊎ ((rest : String) × (s ≡ "*." ++ rest) × IsDomain rest) ⊎ IsDomain s

-- All URLs, or those of a scheme and of some hosts, with any path on one line.
abbrev pub IsHostPattern : String → Type 0
IsHostPattern pattern =
    (pattern ≡ "<all_urls>")
    ⊎ ((scheme : String) × (host : String) × (path : String) × IsSchemeText scheme
        × IsHost host
        × (all_codes is_inline path ≡ true)
        × (pattern ≡ scheme ++ ("://" ++ (host ++ ("/" ++ path)))))

abbrev slash : Char
slash = "/"

abbrev colon : Char
colon = ":"

abbrev dot : Char
dot = "."

abbrev star : Char
star = "*"

no_more : (rest : String) → after "s" rest ≡ none → optional_s rest ≡ rest
no_more rest h = rw (optional_s, h) refl

one_more : (rest more : String) → after "s" rest ≡ some more → optional_s rest ≡ more
one_more rest more h = rw (optional_s, h) refl

scheme_http :
    (s rest : String) → after "http" s ≡ some rest → after_scheme s ≡ after "://" (optional_s rest)
unfolding after_scheme
scheme_http s rest h = rw (after_scheme, h) refl

scheme_star : (s : String) → after "http" s ≡ none → after_scheme s ≡ after "*://" s
unfolding after_scheme
scheme_star s h = rw (after_scheme, h) refl

after_scheme_sound :
    (s r : String)
    → after_scheme s ≡ some r
    → (scheme : String) × IsSchemeText scheme × (s ≡ scheme ++ ("://" ++ r))
unfolding after_scheme
after_scheme_sound s r h = elim (Option-cases (after "http" s)) [
  | inl missing ↦
      let split = after_sound "*://" s r (rw (after_scheme, missing) at h) in
      ("*", inr (inr refl), split ∙ append_assoc "*" "://" r)
  | inr (rest, found) ↦
      let start = after_sound "http" s rest found in
      elim (Option-cases (after "s" rest)) [
        | inl plain ↦
            let split =
              after_sound "://" rest r
                (sym (scheme_http s rest found ∙ ap (after "://") (no_more rest plain)) ∙ h) in
            ("http", inl refl, start ∙ ap (λ x. "http" ++ x) split)
        | inr (more, secure) ↦
            let split =
              after_sound "://" more r (
                sym (scheme_http s rest found ∙ ap (after "://") (one_more rest more secure))
                ∙ h) in
            (
              "https",
              inr (inl refl),
              start
                  ∙ ap (λ x. "http" ++ x)
                      (after_sound "s" rest more secure ∙ ap (λ x. "s" ++ x) split)
                  ∙ sym (append_assoc "http" "s" ("://" ++ r)),
            )
      ]
]

colon_first : (r : String) → "://" ++ r ≡ colon ∷ ("//" ++ r)
colon_first r = cons-append colon "//" r

not_http : (r : String) → after "http" ("*" ++ r) ≡ none
unfolding after
not_http r = rw (cons-append star [] r) refl

not_s : (r : String) → after "s" ("://" ++ r) ≡ none
unfolding after
not_s r = rw (colon_first r) refl

after_scheme_complete :
    (scheme r : String) → IsSchemeText scheme → after_scheme (scheme ++ ("://" ++ r)) ≡ some r
unfolding after_scheme
after_scheme_complete scheme r (inl e) =
    let rest = "://" ++ r in
    rw e (
      scheme_http ("http" ++ rest) rest (after-append "http" rest)
      ∙ ap (after "://") (no_more rest (not_s r))
      ∙ after-append "://" r)
after_scheme_complete scheme r (inr (inl e)) =
    let rest = "://" ++ r in
    rw (e, append_assoc "http" "s" rest)
      (scheme_http ("http" ++ ("s" ++ rest)) ("s" ++ rest) (after-append "http" ("s" ++ rest))
        ∙ ap (after "://") (one_more ("s" ++ rest) rest (after-append "s" rest))
        ∙ after-append "://" r)
after_scheme_complete scheme r (inr (inr e)) =
    let rest = "://" ++ r in
    rw e (
      scheme_star ("*" ++ rest) (not_http rest)
      ∙ ap (after "*://") (sym (append_assoc "*" "://" r))
      ∙ after-append "*://" r)

domain_plain : (s : String) → all_codes is_host s ≡ true → all_codes (λ c. not (c == b'/')) s ≡ true
domain_plain s h = all_codes-map is_host (λ c. not (c == b'/')) s (λ c k. ground arith) h

IsDomain-iff : (s : String) → (not (str_eq s "") && all_codes is_host s ≡ true) ↔ IsDomain s
IsDomain-iff s = (
  λ h. ((λ e. cc (rw ((eq_iff s "").1 e) at h)), ground arith),
  λ (named, good). elim (Bool-cases (str_eq s "")) [
    | inl e ↦ absurd (named ((eq_iff s "").0 e))
    | inr e ↦ rw (e, good) refl
  ],
)

-- A star is no letter of a domain.
no_star : (s : String) → all_codes is_host s ≡ true → after "*." s ≡ none
unfolding after all_codes
no_star [] h = refl
no_star (c ∷ s) h = ground arith

no_domain : (s : String) → all_codes is_host s ≡ true → str_eq s "*" ≡ false
unfolding all_codes
no_domain s h = elim (Bool-cases (str_eq s "*")) [
  | inr e ↦ e
  | inl e ↦ cc (rw ((eq_iff s "*").0 e) at h)
]

host_name_iff : (s : String) → (host_name s ≡ true) ↔ IsHost s
unfolding host_name
host_name_iff s = (
  λ h. elim (Bool-cases (str_eq s "*")) [
    | inl all ↦ inl ((eq_iff s "*").0 all)
    | inr some_only ↦ elim (Option-cases (after "*." s)) [
      | inl missing ↦ inr (inr ((IsDomain-iff s).0 (rw (host_name, some_only, missing) at h)))
      | inr (rest, found) ↦ inr (
          inl (
            rest,
            after_sound "*." s rest found,
            (IsDomain-iff rest).0 (rw (host_name, some_only, found) at h),
          ))
    ]
  ],
  λ h. elim h [
    | inl e ↦ rw e refl
    | inr (inl (rest, e, domain)) ↦ either rest e domain
    | inr (inr domain) ↦
        rw (host_name, no_domain s domain.1, no_star s domain.1) ((IsDomain-iff s).1 domain)
  ],
)
  where
    either : (rest : String) → s ≡ "*." ++ rest → IsDomain rest → host_name s ≡ true
    either rest e domain = elim (Bool-cases (str_eq s "*")) [
      | inl all ↦ rw (host_name, all) refl
      | inr some_only ↦
          let found : after "*." s ≡ some rest = rw e (after-append "*." rest) in
          rw (host_name, some_only, found) ((IsDomain-iff rest).1 domain)
    ]

host_plain : (s : String) → IsHost s → all_codes (λ c. not (c == b'/')) s ≡ true
unfolding all_codes
host_plain s (inl e) = rw e refl
host_plain s (inr (inl (rest, e, domain))) =
    rw (e, cons-append star "." rest, cons-append dot [] rest, nil-append rest)
      (domain_plain rest domain.1)
host_plain s (inr (inr domain)) = domain_plain s domain.1

-- What stands between the host and the path.
slash_first : (path : String) → "/" ++ path ≡ slash ∷ path
slash_first path = cons-append slash [] path ∙ ap (◌∷◌ slash) (nil-append path)

passed : (b : Bool) → passes (require b) ≡ true → b ≡ true
passed true h = refl
passed false h = cc

host_pattern_of : (pattern : String) → host_pattern pattern ≡ true → IsHostPattern pattern
unfolding host_pattern
host_pattern_of pattern h = elim (Bool-cases (str_eq pattern "<all_urls>")) [
  | inl all ↦ inl ((eq_iff pattern "<all_urls>").0 all)
  | inr one ↦ elim (Option-cases (after_scheme pattern)) [
    | inl missing ↦ cc (rw (host_pattern, one, missing) at h)
    | inr (rest, found) ↦
        let host = (split_slash rest).0 in
        elim (Option-cases (after "/" (split_slash rest).1)) [
          | inl missing ↦ cc (rw (host_pattern, one, found, missing) at h)
          | inr (path, rooted) ↦
              let both : (host_name host && all_codes is_inline path) ≡ true =
                passed _ (rw (host_pattern, one, found, rooted) at h) in
              let named : host_name host ≡ true = ground arith in
              let (scheme, is_scheme, start) = after_scheme_sound pattern rest found in
              let end = after_sound "/" (split_slash rest).1 path rooted in
              inr (
                scheme,
                host,
                path,
                is_scheme,
                (host_name_iff host).0 named,
                ground arith,
                start
                    ∙ ap (λ x. scheme ++ ("://" ++ x))
                        (split_slash_lem rest ∙ ap (λ x. host ++ x) end),
              )
        ]
  ]
]

host_pattern_complete :
    (scheme host path : String)
    → IsSchemeText scheme
    → IsHost host
    → all_codes is_inline path ≡ true
    → host_pattern (scheme ++ ("://" ++ (host ++ ("/" ++ path)))) ≡ true
unfolding host_pattern
host_pattern_complete scheme host path is_scheme allowed one_line =
    let rest = host ++ ("/" ++ path) in
    let pattern = scheme ++ ("://" ++ rest) in
    let found : after_scheme pattern ≡ some rest = after_scheme_complete scheme rest is_scheme in
    let cut : split_slash rest ≡ (host, "/" ++ path) =
      rw (slash_first path) (split_slash-append host slash path (host_plain host allowed) refl) in
    let named : host_name host ≡ true = (host_name_iff host).1 allowed in
    elim (Bool-cases (str_eq pattern "<all_urls>")) [
      | inl all ↦ rw (host_pattern, all) refl
      | inr one ↦ rw (host_pattern, one, found, cut, after-append "/" path, named, one_line) refl
    ]

-- The test lets exactly the host patterns pass.
pub host_pattern_iff : (pattern : String) → (host_pattern pattern ≡ true) ↔ IsHostPattern pattern
host_pattern_iff pattern = (
  host_pattern_of pattern,
  λ h. elim h [
    | inl e ↦ rw e (unfold host_pattern in refl)
    | inr (scheme, host, path, is_scheme, allowed, one_line, split) ↦
        rw split (host_pattern_complete scheme host path is_scheme allowed one_line)
  ],
)
