-- ===== src/Base/Patterns.antt =====
-- The regular expressions that the program matches texts with, as functions that consume a text.
use Prim.Native.Char.{Char, code}
use Prim.Native.String.{String, [], ◌∷◌}
use Prim.Native.Nat.{ℕ, zero, suc, ◌+◌}
use mathlib.Core.Bool.{Bool, true, not, ◌&&◌, ◌||◌}
use mathlib.Core.List.{List}
use mathlib.Core.Option.{Option, none, some}
use locus_browser.Base.Tests.{ltb, leb, ◌==◌, if◌then◌else◌, str_eq}

-- `\d`.
abbrev pub is_digit : ℕ → Bool
is_digit c = leb b'0' c && leb c b'9'

-- `[A-Za-z0-9_-]`.
abbrev pub is_word : ℕ → Bool
is_word c =
    (leb b'A' c && leb c b'Z') || (leb b'a' c && leb c b'z') || is_digit c || c == b'_' || c == b'-'

-- Whether the test holds of every character.
unfoldable pub all_codes : (ℕ → Bool) → String → Bool
all_codes p [] = true
all_codes p (c ∷ s) = p (code c) && all_codes p s

-- A literal: what follows it.
unfoldable pub after : String → String → Option String
after [] s = some s
after (c ∷ p) [] = none
after (c ∷ p) (d ∷ s) = let rest = after p s in if code c == code d then rest else none

-- `\d{n}`: what follows.
unfoldable pub after_digits : ℕ → String → Option String
after_digits zero s = some s
after_digits (suc n) [] = none
after_digits (suc n) (c ∷ s) =
    let rest = after_digits n s in if is_digit (code c) then rest else none

-- `[^/]*`, and what follows.
unfoldable pub split_slash : String → String × String
split_slash [] = ([], [])
split_slash (c ∷ s) =
    let (segment, rest) = split_slash s in
    if code c == b'/' then ([], c ∷ s) else (c ∷ segment, rest)

-- `String.length`: a character above U+FFFF counts twice.
unfoldable pub utf16_length : String → ℕ
utf16_length [] = 0
utf16_length (c ∷ s) = (if ltb (code c) 65536 then 1 else 2) + utf16_length s

abbrev whole : String → String × String → Option String
whole suffix (segment, rest) =
    if not (str_eq segment "") && str_eq rest suffix then some segment else none

abbrev whole_after : String → Option String → Option String
whole_after suffix none = none
whole_after suffix (some rest) = whole suffix (split_slash rest)

-- `/^prefix([^/]+)suffix$/`, for a suffix that is empty or starts with a slash: the segment.
unfoldable pub segment_between : String → String → String → Option String
unfolding split_slash after
segment_between prefix suffix path = whole_after suffix (after prefix path)

-- `[class]*`, and what follows: the longest run of the characters that pass the test.
unfoldable pub span_codes : (ℕ → Bool) → String → String × String
span_codes p [] = ([], [])
span_codes p (c ∷ s) =
    let (run, rest) = span_codes p s in if p (code c) then (c ∷ run, rest) else ([], c ∷ s)

-- `[class]+`: what follows.
unfoldable pub after_run : (ℕ → Bool) → String → Option String
unfolding span_codes
after_run p s = let (run, rest) = span_codes p s in if str_eq run "" then none else some rest

-- `\w`.
abbrev pub is_identifier : ℕ → Bool
is_identifier c = is_word c && not (c == b'-')

-- `[0-9A-Za-z.-]`.
abbrev pub is_host : ℕ → Bool
is_host c = (is_word c && not (c == b'_')) || c == b'.'

-- `[a-z0-9]`.
abbrev pub is_lower_alnum : ℕ → Bool
is_lower_alnum c = (leb b'a' c && leb c b'z') || is_digit c

-- `[a-f0-9]`.
abbrev pub is_hex : ℕ → Bool
is_hex c = (leb b'a' c && leb c b'f') || is_digit c

-- `[A-Za-z0-9+/]`.
abbrev pub is_base64 : ℕ → Bool
is_base64 c = (is_word c && not (c == b'_') && not (c == b'-')) || c == b'+' || c == b'/'

-- `\s`.
abbrev pub is_space : ℕ → Bool
is_space c =
    (leb 9 c && leb c 13)
    || c == 32
    || c == 0xa0
    || c == 0x1680
    || (leb 0x2000 c && leb c 0x200a)
    || c == 0x2028
    || c == 0x2029
    || c == 0x202f
    || c == 0x205f
    || c == 0x3000
    || c == 0xfeff

abbrev put_first : Char → List String → List String
put_first c List.[] = List.[]
put_first c (List.◌∷◌ segment segments) = List.◌∷◌ (c ∷ segment) segments

-- `text.split("/")`.
unfoldable pub split_slashes : String → List String
split_slashes [] = List.◌∷◌ "" List.[]
split_slashes (c ∷ s) =
    let rest = split_slashes s in if code c == b'/' then List.◌∷◌ "" rest else put_first c rest

-- `text.replace(/\s+/g, "")`.
unfoldable pub strip_spaces : String → String
strip_spaces [] = []
strip_spaces (c ∷ s) = let rest = strip_spaces s in if is_space (code c) then rest else c ∷ rest
