-- ===== src/Extensions/Reading.antt =====
-- What the schemas of packages/extensions/src are made of: the checks that the schema library chains, over the
-- values that `JSON.parse` returns. `none` is a `z.ZodError`.
use locus_browser.Base.{
  ℕ, String, Bool, ◌&&◌, ◌==◌, leb, Option, none, some, List, [], ◌∷◌, Dict, keys, every, has,
  length,
}
use locus_browser.Base.Options.{◌>>=◌, ◌>>◌, require}
use locus_browser.Base.Patterns.{utf16_length}

-- `JSON.parse`, and what the schema library reads of its values.
pub record Reader (Json : Type 0) : Type 0 where
  pub parse : String → Option Json
  -- the properties of an object that is no array
  pub object : Json → Option (Dict Json)
  pub string : Json → Option String
  -- `z.number().int().nonnegative()`
  pub natural : Json → Option ℕ
  pub boolean : Json → Option Bool
  pub array : Json → Option (List Json)
  -- `String.trim`
  pub trim : String → String

-- The elements of a list, if all of them parse.
unfoldable pub parse_each {ℓ} : {A B : Type ℓ} → (A → Option B) → List A → Option (List B)
parse_each f [] = some []
parse_each f (x ∷ xs) = do y ← f x; ys ← parse_each f xs; some (y ∷ ys)

-- A property that may be absent.
abbrev pub if_present : {Json A : Type 0} → (Json → Option A) → Option Json → Option (Option A)
if_present schema none = some none
if_present schema (some j) = schema j >>= λ a. some (some a)

-- A property that must be there: the schema of an absent one fails.
abbrev pub if_required : {Json A : Type 0} → (Json → Option A) → Option Json → Option A
if_required schema none = none
if_required schema (some j) = schema j

-- `.default(value)`.
abbrev pub defaulted : {Json A : Type 0} → A → (Json → Option A) → Option Json → Option A
defaulted value schema none = some value
defaulted value schema (some j) = schema j

-- `.strict()`: no other properties.
unfoldable pub strict : {Json : Type 0} → List String → Dict Json → Option (Unit {0})
strict names fields = require (every (λ key. has names key) (keys fields))

module _ {Json : Type 0} (r : Reader Json) where
  -- `z.string().min(low).max(high)`.
  unfoldable pub text_between : ℕ → ℕ → Json → Option String
  unfolding utf16_length
  text_between low high j = do
    s ← r.string j
    require (leb low (utf16_length s) && leb (utf16_length s) high)
    some s

  -- `z.string().trim().min(low).max(high)`.
  unfoldable pub trimmed_between : ℕ → ℕ → Json → Option String
  unfolding utf16_length
  trimmed_between low high j = do
    s ← r.string j
    let t = r.trim s
    require (leb low (utf16_length t) && leb (utf16_length t) high)
    some t

  -- `z.string().regex(pattern)`, or an enumeration.
  unfoldable pub matching : (String → Bool) → Json → Option String
  matching pattern j = do s ← r.string j; require (pattern s); some s

  -- `z.string().regex(pattern).max(high)`.
  unfoldable pub matching_max : (String → Bool) → ℕ → Json → Option String
  unfolding utf16_length
  matching_max pattern high j = do
    s ← r.string j
    require (pattern s && leb (utf16_length s) high)
    some s

  -- `z.literal(n)`.
  unfoldable pub number_literal : ℕ → Json → Option ℕ
  number_literal n j = do m ← r.natural j; require (m == n); some m

  -- `z.number().int().min(low).max(high)`.
  unfoldable pub number_between : ℕ → ℕ → Json → Option ℕ
  number_between low high j = do m ← r.natural j; require (leb low m && leb m high); some m

  -- `z.array(element).min(low).max(high)`.
  unfoldable pub list_between : {A : Type 0} → (Json → Option A) → ℕ → ℕ → Json → Option (List A)
  unfolding parse_each
  list_between element low high j = do
    items ← r.array j
    require (leb low (length items) && leb (length items) high)
    parse_each element items

  -- `z.record(z.string(), z.string())`.
  unfoldable pub texts_of : Json → Option (Dict String)
  unfolding parse_each
  texts_of j = do
    fields ← r.object j
    parse_each (λ entry. r.string entry.1 >>= λ s. some (entry.0, s)) fields
