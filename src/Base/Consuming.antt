-- ===== src/Base/Consuming.antt =====
-- What the functions on patterns consume, in terms of the joining of texts.
use Prim.Native.Char.{Char, code}
use Prim.Native.String.{String, [], ◌∷◌, ◌++◌}
use Prim.Native.Nat.{ℕ}
use mathlib.Core.Path.{◌≡◌, refl, sym, ap, ap₂, ◌∙◌}
use mathlib.Core.Logic.{inl, inr}
use mathlib.Core.Bool.{Bool, true, false, not}
use mathlib.Core.Option.{some}
use native.Mathlib.Omega.{arith}
use text.Mathlib.TextEquality.{Char-path}
use text.Mathlib.TextLemmas.{nil-append, cons-append}
use locus_browser.Base.Tests.{◌==◌, Bool-cases}
use locus_browser.Base.Patterns.{all_codes, after, split_slash, span_codes}

abbrev tail_of : String → String
tail_of [] = []
tail_of (c ∷ s) = s

abbrev head_of : String → ℕ
head_of [] = 0
head_of (c ∷ s) = code c

-- A literal is consumed exactly if the text starts with it.
pub after_sound : (p s r : String) → after p s ≡ some r → s ≡ p ++ r
unfolding after
after_sound [] s r h = rw (nil-append r) (cc)
after_sound (c ∷ p) [] r h = cc
after_sound (c ∷ p) (d ∷ s) r h = elim (Bool-cases (code c == code d)) [
  | inr e ↦ cc (rw e at h)
  | inl e ↦
      let same : code d ≡ code c = ground arith in
      rw (cons-append c p r) (ap₂ ◌∷◌ (Char-path d c same) (after_sound p s r (rw e at h)))
]

pub after-append : (p r : String) → after p (p ++ r) ≡ some r
unfolding after
after-append [] r = rw (nil-append r) refl
after-append (c ∷ p) r =
    let same : (code c == code c) ≡ true = ground arith in
    rw (cons-append c p r, same) (after-append p r)

-- A text is split before its first slash.
pub split_slash_lem : (s : String) → s ≡ (split_slash s).0 ++ (split_slash s).1
unfolding split_slash
split_slash_lem [] = sym (nil-append [])
split_slash_lem (c ∷ s) = elim (Bool-cases (code c == b'/')) [
  | inl e ↦ rw e (sym (nil-append (c ∷ s)))
  | inr e ↦
      rw (e, cons-append c (split_slash s).0 (split_slash s).1) (ap (◌∷◌ c) (split_slash_lem s))
]

pub split_slash-append :
    (host : String) (slash : Char) (rest : String)
    → all_codes (λ c. not (c == b'/')) host ≡ true
    → code slash ≡ b'/'
    → split_slash (host ++ (slash ∷ rest)) ≡ (host, slash ∷ rest)
unfolding split_slash all_codes
split_slash-append [] slash rest h e =
    let same : (code slash == b'/') ≡ true = ground arith in
    rw (nil-append (slash ∷ rest), same) refl
split_slash-append (c ∷ host) slash rest h e =
    let other : (code c == b'/') ≡ false = ground arith in
    rw
      (
        cons-append c host (slash ∷ rest),
        other,
        split_slash-append host slash rest (ground arith) e,
      )
      refl

-- A run ends where the test fails.
pub span_codes_lem :
    (p : ℕ → Bool) (s : String)
    → (s ≡ (span_codes p s).0 ++ (span_codes p s).1) × (all_codes p (span_codes p s).0 ≡ true)
unfolding span_codes all_codes
span_codes_lem p [] = (sym (nil-append []), refl)
span_codes_lem p (c ∷ s) = elim (Bool-cases (p (code c))) [
  | inl e ↦
      let (whole, run) = span_codes_lem p s in
      rw (e, cons-append c (span_codes p s).0 (span_codes p s).1) (ap (◌∷◌ c) whole, rw e run)
  | inr e ↦ rw e (sym (nil-append (c ∷ s)), refl)
]

pub span_codes-append :
    (p : ℕ → Bool) (run : String) (stop : Char) (rest : String)
    → all_codes p run ≡ true
    → p (code stop) ≡ false
    → span_codes p (run ++ (stop ∷ rest)) ≡ (run, stop ∷ rest)
unfolding span_codes all_codes
span_codes-append p [] stop rest h e = rw (nil-append (stop ∷ rest), e) refl
span_codes-append p (c ∷ run) stop rest h e =
    let good : p (code c) ≡ true = ground arith in
    rw (cons-append c run (stop ∷ rest), good, span_codes-append p run stop rest (ground arith) e)
      refl

-- A test that is weaker holds of the text too.
pub all_codes-map :
    (p q : ℕ → Bool) (s : String)
    → ((c : ℕ) → p c ≡ true → q c ≡ true)
    → all_codes p s ≡ true
    → all_codes q s ≡ true
unfolding all_codes
all_codes-map p q [] h k = refl
all_codes-map p q (c ∷ s) h k = elim (Bool-cases (p (code c))) [
  | inl e ↦ rw (h (code c) e) (all_codes-map p q s h (rw e at k))
  | inr e ↦ cc (rw e at k)
]

-- A character is missing just if the text is not split at it anywhere.
pub occurs :
    (c : Char) (s : String)
    → all_codes (λ d. not (d == code c)) s ≡ false
    → (before : String) × (rest : String) × (s ≡ before ++ (c ∷ rest))
unfolding all_codes
occurs c [] h = cc
occurs c (d ∷ s) h = elim (Bool-cases (code d == code c)) [
  | inl e ↦
      let same : code d ≡ code c = ground arith in
      ([], s, ap (λ x. x ∷ s) (Char-path d c same) ∙ sym (nil-append (c ∷ s)))
  | inr e ↦
      let (before, rest, split) = occurs c s (ground arith) in
      (d ∷ before, rest, ap (◌∷◌ d) split ∙ sym (cons-append d before (c ∷ rest)))
]

pub occurs-append :
    (c : Char) (before rest : String)
    → all_codes (λ d. not (d == code c)) (before ++ (c ∷ rest)) ≡ false
unfolding all_codes
occurs-append c [] rest = rw (nil-append (c ∷ rest)) (ground arith)
occurs-append c (d ∷ before) rest =
    rw (cons-append d before (c ∷ rest)) (ground (arith, occurs-append c before rest))
