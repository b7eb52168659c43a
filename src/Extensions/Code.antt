-- ===== src/Extensions/Code.antt =====
-- packages/extensions/src/manifest.ts: `validateExtensionFile`, which refuses code that is made at run time
-- or loaded from the network.
use Prim.Native.Char.{code}
use Prim.Native.String.{String, [], ◌∷◌}
use locus_browser.Base.{
  ℕ, ◌+◌, Bool, true, false, not, ◌&&◌, ◌||◌, ◌==◌, leb, Option, none, some, str_eq, if◌then◌else◌,
}
use locus_browser.Base.Options.{◌>>=◌, require}
use locus_browser.Base.Patterns.{is_identifier, is_space, after, after_run, span_codes}
use locus_browser.Extensions.Texts.{passes}

-- A character in lower case, as the flag `i` compares it.
abbrev pub lower : ℕ → ℕ
lower c = if leb b'A' c && leb c b'Z' then c + 32 else c

-- A literal in lower case, in any case: what follows it.
unfoldable pub after_any_case : String → String → Option String
after_any_case [] s = some s
after_any_case (c ∷ p) [] = none
after_any_case (c ∷ p) (d ∷ s) =
    let rest = after_any_case p s in if code c == lower (code d) then rest else none

abbrev pub or_else {ℓ} : {A : Type ℓ} → Option A → Option A → Option A
or_else none o = o
or_else (some a) o = some a

-- Whether the text at its start, or after some of its characters, passes. The test is told the character
-- before.
unfoldable pub somewhere : (ℕ → String → Bool) → ℕ → String → Bool
somewhere test before [] = test before []
somewhere test before (c ∷ s) = let rest = somewhere test (code c) s in test before (c ∷ s) || rest

-- The start of the text, which is no part of a word.
abbrev pub text_start : ℕ
text_start = 0

abbrev pub skip_spaces : String → String
skip_spaces s = (span_codes is_space s).1

-- `["']`: what follows.
unfoldable pub after_quote : String → Option String
unfolding after
after_quote s = or_else (after "\"" s) (after "'" s)

-- `https?:\/\/`, in any case: what follows.
unfoldable pub after_http : String → Option String
unfolding after_any_case
after_http s = do
  rest ← after_any_case "http" s
  or_else (after_any_case "s://" rest) (after_any_case "://" rest)

-- `\b(?:eval|Function)\s*\(` here.
unfoldable pub dynamic_call : ℕ → String → Bool
unfolding after span_codes
dynamic_call before s =
    not (is_identifier before)
    && passes do rest ← or_else (after "eval" s) (after "Function" s); after "(" (skip_spaces rest)

-- `\.(?:js|mjs)(?:[?"']|$)` here, in any case.
unfoldable pub script_end : String → Bool
unfolding after_any_case after_quote
script_end s = passes do
  rest ← or_else (after_any_case ".js" s) (after_any_case ".mjs" s)
  require (str_eq rest "" || passes (after_any_case "?" rest) || passes (after_quote rest))

-- `[^\s"']*`, and a script's end after it.
unfoldable pub runs_to_script : String → Bool
unfolding script_end
runs_to_script [] = false
runs_to_script (c ∷ s) =
    let rest = runs_to_script s in
    script_end (c ∷ s) || (not (is_space (code c) || code c == b'"' || code c == b'\'') && rest)

-- `[^\s"']+`, and a script's end after it.
abbrev pub address_of_script : String → Bool
address_of_script [] = false
address_of_script (c ∷ s) =
    not (is_space (code c) || code c == b'"' || code c == b'\'') && runs_to_script s

-- `https?:\/\/[^\s"']+\.(?:js|mjs)(?:[?"']|$)` here, in any case.
unfoldable pub remote_script : ℕ → String → Bool
unfolding after_http runs_to_script
remote_script before s = passes do rest ← after_http s; require (address_of_script rest)

-- `\bsrc\s*=\s*["']https?:\/\/` here, in any case.
unfoldable pub remote_source : ℕ → String → Bool
unfolding after_any_case after_quote after_http span_codes
remote_source before s =
    not (is_identifier before)
    && passes do
      rest ← after_any_case "src" s
      value ← after_any_case "=" (skip_spaces rest)
      quoted ← after_quote (skip_spaces value)
      after_http quoted

-- `[^>]*`, and such a source after it.
unfoldable pub tag_with_source : ℕ → String → Bool
unfolding remote_source
tag_with_source before [] = false
tag_with_source before (c ∷ s) =
    let rest = tag_with_source (code c) s in
    remote_source before (c ∷ s) || (not (code c == b'>') && rest)

abbrev pub starts_word : String → Bool
starts_word [] = false
starts_word (c ∷ s) = is_identifier (code c)

-- `<script\b[^>]*\bsrc\s*=\s*["']https?:\/\/` here, in any case.
unfoldable pub remote_script_tag : ℕ → String → Bool
unfolding after_any_case tag_with_source
remote_script_tag before s = passes do
  rest ← after_any_case "<script" s
  require (not (starts_word rest) && tag_with_source b't' rest)

-- `import\s*\(|from\s+`, in any case: what follows.
unfoldable pub after_import : String → Option String
unfolding after_any_case after_run span_codes
after_import s =
    or_else (do rest ← after_any_case "import" s; after_any_case "(" (skip_spaces rest))
      (do rest ← after_any_case "from" s; after_run is_space rest)

-- `\b(?:import\s*\(|from\s+)["']https?:\/\/` here, in any case.
unfoldable pub remote_import : ℕ → String → Bool
unfolding after_import after_quote after_http
remote_import before s =
    not (is_identifier before)
    && passes do rest ← after_import s; quoted ← after_quote rest; after_http quoted

-- The literal and the end of the text, in any case.
unfoldable pub is_any_case : String → String → Bool
unfolding after_any_case
is_any_case literal s = passes do rest ← after_any_case literal s; require (str_eq rest "")

-- `\.(?:js|mjs|cjs|html|json)$` here, in any case.
unfoldable pub code_suffix : ℕ → String → Bool
unfolding is_any_case
code_suffix before s =
    is_any_case ".js" s
    || is_any_case ".mjs" s
    || is_any_case ".cjs" s
    || is_any_case ".html" s
    || is_any_case ".json" s

unfoldable pub holds_code : String → Bool
unfolding somewhere code_suffix
holds_code path = somewhere code_suffix text_start path

-- `validateExtensionFile` on a path and the text of its file: whether it passes.
unfoldable pub extension_file : String → String → Bool
unfolding holds_code somewhere dynamic_call remote_script remote_script_tag remote_import
extension_file path source =
    if holds_code path
    then not (
        somewhere dynamic_call text_start source
        || somewhere remote_script text_start source
        || somewhere remote_script_tag text_start source
        || somewhere remote_import text_start source)
    else true
