-- ===== src/Sync/Requests/Checks.antt =====
-- What the schemas of services/sync/src/requestContract.ts are made of: the checks that the schema library
-- chains, over its primitives. `none` is a `z.ZodError`.
use locus_browser.Base.{
  ℕ, ◌*◌, leb, String, [], ◌∷◌, not, ◌&&◌, ◌==◌, Option, none, some, List, length, str_eq,
  if◌then◌else◌,
}
use locus_browser.Base.Options.{◌>>=◌, ◌>>◌, require}
use locus_browser.Base.Patterns.{is_word, all_codes, after, after_digits, utf16_length}
use locus_browser.Sync.Models.{
  Collection, bookmarks, history, tab_groups, remote_tabs, settings, extensions,
}
use locus_browser.Sync.Requests.Values.{Platform}

abbrev pub max_record_bytes : ℕ
max_record_bytes = 2 * 1024 * 1024

-- `/^\d{13}-\d{6}-[A-Za-z0-9_-]+$/`.
unfoldable pub clock_text : String → Option (Unit {0})
unfolding after after_digits all_codes
clock_text s = do
  logical ← after_digits 13 s
  digits ← after "-" logical
  rest ← after_digits 6 digits
  node ← after "-" rest
  require (not (str_eq node "") && all_codes is_word node)

-- `z.enum`.
unfoldable pub collection_of : String → Option Collection
collection_of s =
    if str_eq s "bookmarks"
    then some bookmarks
    else if str_eq s "history"
    then some history
    else if str_eq s "tab-groups"
    then some tab_groups
    else if str_eq s "remote-tabs"
    then some remote_tabs
    else if str_eq s "settings"
    then some settings
    else if str_eq s "extensions"
    then some extensions
    else none

-- The elements of an array, if all of them parse.
unfoldable pub each {ℓ} : {A B : Type ℓ} → (A → Option B) → List A → Option (List B)
each f [] = some []
each f (x ∷ xs) = do y ← f x; ys ← each f xs; some (y ∷ ys)

module _ {Json : Type 0} (p : Platform Json) where
  -- `z.string().min(low).max(high)`.
  unfoldable pub bounded : ℕ → ℕ → Json → Option String
  bounded low high j = do
    s ← p.string j
    require (leb low (utf16_length s) && leb (utf16_length s) high)
    some s

  -- `z.string().trim().min(low).max(high)`.
  unfoldable pub trimmed : ℕ → ℕ → Json → Option String
  trimmed low high j = do
    s ← p.string j
    let t = p.trim s
    require (leb low (utf16_length t) && leb (utf16_length t) high)
    some t

  -- `z.string().uuid()`.
  unfoldable pub uuid : Json → Option String
  uuid j = do s ← p.string j; require (p.is_uuid s); some s

  -- `z.literal(n)`.
  unfoldable pub literal : ℕ → Json → Option ℕ
  literal n j = do m ← p.natural j; require (m == n); some m

  -- `z.number().int().min(low)`.
  unfoldable pub at_least : ℕ → Json → Option ℕ
  at_least low j = do m ← p.natural j; require (leb low m); some m

  -- `z.array(element).min(low).max(high)`.
  unfoldable pub list_of : {A : Type 0} → (Json → Option A) → ℕ → ℕ → Json → Option (List A)
  unfolding each
  list_of element low high j = do
    items ← p.array j
    require (leb low (length items) && leb (length items) high)
    each element items

  -- `.default(value)`.
  unfoldable pub with_default : {A : Type 0} → A → (Json → Option A) → Json → Option A
  with_default value schema j = if p.is_undefined j then some value else schema j

  -- `z.record(z.string(), z.unknown())`: any object.
  unfoldable pub any_object : Json → Option Json
  any_object j = do field ← p.object j; some j

  abbrev pub optional : {A : Type 0} → (Json → Option A) → Json → Option (Option A)
  optional schema j = if p.is_undefined j then some none else schema j >>= λ a. some (some a)
