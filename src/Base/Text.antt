-- ===== src/Base/Text.antt =====
-- Texts: keys joined with a colon, and the order of texts.
use Prim.Native.Char.{Char, code}
use Prim.Native.String.{String, [], ◌∷◌}
use Prim.Native.String
use Prim.Native.Nat.{ℕ}
use mathlib.Core.Path.{◌≡◌, refl, ap, ap₂, sym, ◌∙◌}
use mathlib.Core.Logic.{◌≢◌, inl, inr}
use mathlib.Core.Bool.{Bool, true, false}
use native.Mathlib.Omega.{arith}
use text.Mathlib.Text.{starts_with}
use text.Mathlib.TextEquality.{Char-path, eq_iff, starts_with_iff}
use text.Mathlib.TextLemmas.{nil-append, cons-append, append_assoc}
use text.Mathlib.TextPositions.{starts_with_of_prefix, eq_refl}
use locus_browser.Base.Tests.{ltb, ◌==◌, if◌then◌else◌, str_eq, Bool-cases}

abbrev colon : Char
colon = ":"

-- `${a}:${b}`.
unfoldable pub colon_join : String → String → String
colon_join a b = String.◌++◌ a (colon ∷ b)

-- No character of the text is a colon.
abbrev pub NoColon : String → Type 0
NoColon [] = Unit
NoColon (c ∷ s) = (code c ≢ b':') × NoColon s

-- Texts that the test tells apart differ.
pub str_ne : (a b : String) → str_eq a b ≡ false → a ≢ b
str_ne a b h e = cc ((eq_iff a b).1 e)

join-nil : (b : String) → colon_join "" b ≡ colon ∷ b
unfolding colon_join
join-nil b = nil-append (colon ∷ b)

join-cons : (c : Char) (a b : String) → colon_join (c ∷ a) b ≡ c ∷ colon_join a b
unfolding colon_join
join-cons c a b = cons-append c a (colon ∷ b)

abbrev head_code : String → ℕ
head_code [] = 0
head_code (c ∷ s) = code c

abbrev rest_of : String → String
rest_of [] = []
rest_of (c ∷ s) = s

-- A text without a colon can be read back from a joined key, and so can what follows it.
pub join_injective :
    (a a' b b' : String)
    → NoColon a
    → NoColon a'
    → colon_join a b ≡ colon_join a' b'
    → (a ≡ a') × (b ≡ b')
join_injective [] [] b b' h h' e = (refl, ap rest_of (rw (join-nil b, join-nil b') at e))
join_injective [] (d ∷ a') b b' h h' e =
    absurd (h'.0 (sym (ap head_code (rw (join-nil b, join-cons d a' b') at e))))
join_injective (c ∷ a) [] b b' h h' e =
    absurd (h.0 (ap head_code (rw (join-cons c a b, join-nil b') at e)))
join_injective (c ∷ a) (d ∷ a') b b' h h' e =
    let p : c ∷ colon_join a b ≡ d ∷ colon_join a' b' =
      rw (join-cons c a b, join-cons d a' b') at e in
    let (q, r) = join_injective a a' b b' h.1 h'.1 (ap rest_of p) in (cc, r)

-- `left <= right` on texts. JavaScript compares UTF-16 code units; this is the same order on texts
-- below U+10000.
unfoldable pub text_leb : String → String → Bool
text_leb [] t = true
text_leb (c ∷ s) [] = false
text_leb (c ∷ s) (d ∷ t) =
    let rest = text_leb s t in
    if ltb (code c) (code d) then true else if code c == code d then rest else false

pub text_leb_refl : (s : String) → text_leb s s ≡ true
unfolding text_leb
text_leb_refl [] = refl
text_leb_refl (c ∷ s) = ground (arith, text_leb_refl s)

pub text_leb_trans :
    (s t u : String) → text_leb s t ≡ true → text_leb t u ≡ true → text_leb s u ≡ true
unfolding text_leb
text_leb_trans [] t u h k = refl
text_leb_trans (c ∷ s) [] u h k = cc
text_leb_trans (c ∷ s) (d ∷ t) [] h k = cc
text_leb_trans (c ∷ s) (d ∷ t) (e ∷ u) h k = ground (arith, text_leb_trans s t u)

pub text_leb_total : (s t : String) → text_leb s t ≡ false → text_leb t s ≡ true
unfolding text_leb
text_leb_total [] t h = cc
text_leb_total (c ∷ s) [] h = refl
text_leb_total (c ∷ s) (d ∷ t) h = ground (arith, text_leb_total s t)

pub text_leb_antisym : (s t : String) → text_leb s t ≡ true → text_leb t s ≡ true → s ≡ t
unfolding text_leb
text_leb_antisym [] [] h k = refl
text_leb_antisym [] (d ∷ t) h k = cc
text_leb_antisym (c ∷ s) [] h k = cc
text_leb_antisym (c ∷ s) (d ∷ t) h k =
    let p : code c ≡ code d = ground arith in
    ap₂ ◌∷◌ (Char-path c d p) (text_leb_antisym s t (ground arith) (ground arith))

join_cut : (a b : String) → String.◌++◌ (colon_join a "") b ≡ colon_join a b
unfolding colon_join
join_cut a b =
    append_assoc a (colon ∷ []) b
    ∙ ap (String.◌++◌ a) (cons-append colon [] b ∙ ap (◌∷◌ colon) (nil-append b))

-- A joined key starts with `${a}:` just if its first part is `a`.
pub starts_with-join :
    (a b id : String)
    → NoColon a
    → NoColon b
    → starts_with (colon_join b id) (colon_join a "") ≡ str_eq b a
starts_with-join a b id plain plain' = elim (Bool-cases (str_eq b a)) [
  | inl same ↦
      rw ((eq_iff b a).0 same, eq_refl a)
        (starts_with_of_prefix (colon_join a "") (colon_join a id) (id, join_cut a id))
  | inr other ↦ elim (Bool-cases (starts_with (colon_join b id) (colon_join a ""))) [
    | inr no_prefix ↦ no_prefix ∙ sym other
    | inl found ↦
        let (u, e) = (starts_with_iff (colon_join b id) (colon_join a "")).0 found in
        let same = (join_injective a b u id plain plain' (sym (join_cut a u) ∙ e)).0 in
        absurd (cc ((eq_iff b a).1 (sym same)))
  ]
]
