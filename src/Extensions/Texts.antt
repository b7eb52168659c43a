-- ===== src/Extensions/Texts.antt =====
-- The texts that packages/extensions/src/manifest.ts, archive.ts and gallery.ts admit: paths, host patterns
-- and the regular expressions of the schemas.
use Prim.Native.Char.{code}
use Prim.Native.String.{String, [], ◌∷◌}
use locus_browser.Base.{
  ℕ, zero, suc, Bool, true, false, not, ◌&&◌, ◌||◌, ◌==◌, leb, Option, none, some, any, has, str_eq,
  if◌then◌else◌,
}
use locus_browser.Base.Options.{◌>>=◌, require}
use locus_browser.Base.Patterns.{
  is_digit, is_lower_alnum, is_hex, is_base64, is_host, all_codes, after, after_run, span_codes,
  split_slash, split_slashes, utf16_length,
}

abbrev pub passes {ℓ} : {A : Type ℓ} → Option A → Bool
passes none = false
passes (some a) = true

-- `text.includes(character)`.
unfoldable pub includes_code : ℕ → String → Bool
unfolding all_codes
includes_code c s = not (all_codes (λ d. not (d == c)) s)

-- `validateArchivePath`: whether it passes.
unfoldable pub archive_path : String → Bool
unfolding includes_code split_slashes
archive_path path = not (
    str_eq path ""
    || passes (after "/" path)
    || includes_code b'\\' path
    || includes_code 0 path
    || any (λ segment. str_eq segment "" || str_eq segment "." || str_eq segment "..")
        (split_slashes path))

-- `s?`: what follows.
abbrev pub optional_s : String → String
optional_s s = elim (after "s" s) [ none ↦ s | some rest ↦ rest ]

-- `(https?|\*):\/\/`: what follows.
unfoldable pub after_scheme : String → Option String
unfolding after
after_scheme s = elim (after "http" s) [
  | some rest ↦ after "://" (optional_s rest)
  | none ↦ after "*://" s
]

-- `\*|\*\.[A-Za-z0-9.-]+|[A-Za-z0-9.-]+`.
unfoldable pub host_name : String → Bool
unfolding after all_codes
host_name s = str_eq s "*" || elim (after "*." s) [
  | some rest ↦ not (str_eq rest "") && all_codes is_host rest
  | none ↦ not (str_eq s "") && all_codes is_host s
]

-- `.`.
abbrev pub is_inline : ℕ → Bool
is_inline c = not (c == 10 || c == 13 || c == 0x2028 || c == 0x2029)

-- `validateHostPattern`: whether it passes.
unfoldable pub host_pattern : String → Bool
host_pattern pattern =
    str_eq pattern "<all_urls>"
    || passes do
      rest ← after_scheme pattern
      let (host, tail) = split_slash rest
      path ← after "/" tail
      require (host_name host && all_codes is_inline path)

abbrev pub is_letter : ℕ → Bool
is_letter c = (leb b'a' c && leb c b'z') || (leb b'A' c && leb c b'Z')

-- `[a-z0-9+.-]`, in either case.
abbrev pub is_scheme_code : ℕ → Bool
is_scheme_code d = is_letter d || is_digit d || d == b'+' || d == b'.' || d == b'-'

-- `/^[a-z][a-z0-9+.-]*:/i`.
unfoldable pub has_scheme : String → Bool
unfolding span_codes
has_scheme [] = false
has_scheme (c ∷ s) = is_letter (code c) && passes (after ":" (span_codes is_scheme_code s).1)

-- `validateRelativeExtensionPath`: whether it passes.
unfoldable pub relative_path : String → Bool
unfolding includes_code has_scheme split_slashes
relative_path path = not (
    str_eq path ""
    || passes (after "/" path)
    || includes_code b'\\' path
    || has (split_slashes path) ".."
    || has_scheme path)

-- `/^[a-f0-9]{64}$/`.
unfoldable pub sha256_text : String → Bool
unfolding all_codes utf16_length
sha256_text s = all_codes is_hex s && utf16_length s == 64

abbrev first_code : String → ℕ
first_code [] = 0
first_code (c ∷ s) = code c

unfoldable pub last_code : String → ℕ
last_code [] = 0
last_code (c ∷ s) = if str_eq s "" then code c else last_code s

-- `/^[a-z0-9](?:[a-z0-9.-]{1,126}[a-z0-9])?$/`.
unfoldable pub extension_id_text : String → Bool
unfolding all_codes utf16_length last_code
extension_id_text s =
    all_codes (λ c. is_lower_alnum c || c == b'.' || c == b'-') s
    && is_lower_alnum (first_code s)
    && is_lower_alnum (last_code s)
    && (utf16_length s == 1 || (leb 3 (utf16_length s) && leb (utf16_length s) 128))

-- `/^[A-Za-z0-9+/]+={0,2}$/`.
unfoldable pub base64_text : String → Bool
unfolding span_codes
base64_text s =
    let (run, rest) = span_codes is_base64 s in
    not (str_eq run "") && (str_eq rest "" || str_eq rest "=" || str_eq rest "==")

-- `[-+][0-9A-Za-z.-]+`.
abbrev version_suffix : String → Bool
version_suffix [] = false
version_suffix (c ∷ s) =
    (code c == b'-' || code c == b'+') && not (str_eq s "") && all_codes is_host s

-- `/^\d+\.\d+\.\d+(?:[-+][0-9A-Za-z.-]+)?$/`.
unfoldable pub version_text : String → Bool
unfolding after after_run all_codes
version_text s = passes do
  major ← after_run is_digit s
  minor ← after "." major
  minor_end ← after_run is_digit minor
  patch ← after "." minor_end
  rest ← after_run is_digit patch
  require (str_eq rest "" || version_suffix rest)

-- `/^\d{1,4}$/`.
unfoldable pub icon_size : String → Bool
unfolding all_codes utf16_length
icon_size s = not (str_eq s "") && leb (utf16_length s) 4 && all_codes is_digit s

-- `/^[A-Za-z0-9_-]{2,20}$/`.
unfoldable pub locale_text : String → Bool
unfolding all_codes utf16_length
locale_text s =
    all_codes (λ c. is_host c || c == b'_') s
    && not (includes_code b'.' s)
    && leb 2 (utf16_length s)
    && leb (utf16_length s) 20

-- `/^\d+(?:\.\d+){0,n}$/`.
unfoldable pub dotted_numbers : ℕ → String → Bool
unfolding after after_run
dotted_numbers zero s = elim (after_run is_digit s) [ none ↦ false | some rest ↦ str_eq rest "" ]
dotted_numbers (suc n) s = elim (after_run is_digit s) [
  | none ↦ false
  | some rest ↦
      str_eq rest "" || elim (after "." rest) [ none ↦ false | some next ↦ dotted_numbers n next ]
]
