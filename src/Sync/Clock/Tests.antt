-- ===== src/Sync/Clock/Tests.antt =====
-- packages/sync-crypto/src/clock.ts on concrete fields.
use locus_browser.Base.{
  ℕ, ◌≡◌, ◌⊎◌, ◌∙◌, refl, sym, ap, String, Bool, true, false, not, Option, none, some, [], ◌∷◌,
  Dict, get, set, inl, inr, text_leb, text_leb_refl, text_leb_total, text_leb_antisym, Bool-cases,
  HasUniqueKeys, str_ne,
}
use locus_browser.Sync.Clock.{Field, merge_per_field}

-- The order of texts stands for the comparison by locale.
abbrev is_later_example : String → String → Bool
is_later_example a b = not (text_leb a b)

abbrev mine : Dict (Field ℕ)
mine =
    ("title", record { value = 1; clock = "5" }) ∷ ("color", record { value = 2; clock = "7" }) ∷ []

abbrev theirs : Dict (Field ℕ)
theirs = ("title", record { value = 3; clock = "6" }) ∷ []

mine_once : HasUniqueKeys mine
mine_once = ((str_ne "title" "color" refl, tt), (tt, tt))

theirs_once : HasUniqueKeys theirs
theirs_once = (tt, tt)

newest_title :
    get (merge_per_field is_later_example mine theirs) "title"
    ≡ some (record { value = 3; clock = "6" })
unfolding merge_per_field get set text_leb
newest_title = refl

never_later : (a : String) → is_later_example a a ≡ false
never_later a = rw (text_leb_refl a) refl

later_or_same :
    (a b : String)
    → ((is_later_example a b ≡ true) × (is_later_example b a ≡ false))
      ⊎ ((is_later_example a b ≡ false) × (is_later_example b a ≡ true))
      ⊎ (a ≡ b)
later_or_same a b = elim (Bool-cases (text_leb a b)) [
  | inr e ↦ inl (rw e refl, rw (text_leb_total a b e) refl)
  | inl e ↦ elim (Bool-cases (text_leb b a)) [
    | inr f ↦ inr (inl (rw e refl, rw f refl))
    | inl f ↦ inr (inr (text_leb_antisym a b e f))
  ]
]

no_same_clock :
    (x y : Field ℕ)
    → get mine "title" ≡ some x
    → get theirs "title" ≡ some y
    → x.clock ≡ y.clock
    → x ≡ y
unfolding get
no_same_clock x y h k e =
    let five : "5" ≡ x.clock = ap clock_of h in
    let six : "6" ≡ y.clock = ap clock_of k in absurd (str_ne "5" "6" refl (five ∙ e ∙ sym six))
  where
    clock_of : Option (Field ℕ) → String
    clock_of none = ""
    clock_of (some z) = z.clock
