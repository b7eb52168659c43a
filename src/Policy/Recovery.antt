-- ===== src/Policy/Recovery.antt =====
-- apps/desktop/src/main/TrustedSurfaceRecovery.ts: whether a crashed surface is started again. Times are
-- milliseconds; `timestamp >= now - 60_000` is written without a number below zero.
use locus_browser.Base.{
  ℕ, ◌+◌, ◌*◌, ◌≤◌, ◌≡◌, ◌↔◌, refl, ap, Bool, true, List, [], ◌∷◌, ◌++◌, arith, leb, keep, length,
  if◌then◌else◌, Bool-cases, inl, inr,
}

abbrev pub recovery_window : ℕ
recovery_window = 60000

abbrev pub max_recoveries : ℕ
max_recoveries = 3

pub record Decision : Type 0 where
  pub crashes : List ℕ
  pub recover : Bool
  pub delay_ms : ℕ

abbrev pub is_recent : ℕ → ℕ → Bool
is_recent now timestamp = leb now (timestamp + recovery_window)

unfoldable pub trusted_surface_recovery : List ℕ → ℕ → Decision
trusted_surface_recovery crashes now =
    let recent = keep (is_recent now) crashes ++ (now ∷ []) in
    record {
      crashes = recent;
      recover = leb (length recent) max_recoveries;
      delay_ms = if leb 750 (length recent * 150) then 750 else length recent * 150;
    }

length-snoc : (xs : List ℕ) (x : ℕ) → length (xs ++ (x ∷ [])) ≡ length xs + 1
length-snoc [] x = refl
length-snoc (y ∷ ys) x = omega (arith, length-snoc ys x)

-- A surface is started again exactly if it crashed at most twice in the minute before; the delay is
-- between 150 and 750 milliseconds.
pub trusted_surface_recovery_lem :
    (crashes : List ℕ) (now : ℕ)
    → let d = trusted_surface_recovery crashes now in
      ((d.recover ≡ true) ↔ (length (keep (is_recent now) crashes) ≤ 2))
      × (150 ≤ d.delay_ms)
      × (d.delay_ms ≤ 750)
unfolding trusted_surface_recovery
trusted_surface_recovery_lem crashes now =
    let size = length-snoc (keep (is_recent now) crashes) now in
    (ground (arith, size), ground (arith, size), ground (arith, size))

kept_twice :
    (now later : ℕ) (crashes : List ℕ)
    → now ≤ later
    → keep (is_recent later) (keep (is_recent now) crashes ++ (now ∷ []))
      ≡ keep (is_recent later) (crashes ++ (now ∷ []))
kept_twice now later [] h = refl
kept_twice now later (c ∷ cs) h = elim (Bool-cases (is_recent later c)) [
  | inl f ↦
      let e : is_recent now c ≡ true = ground arith in
      rw (e, f) (ap (λ xs. c ∷ xs) (kept_twice now later cs h))
  | inr f ↦ elim (Bool-cases (is_recent now c)) [
    | inl e ↦ rw (e, f) (kept_twice now later cs h)
    | inr e ↦ rw (e, f) (kept_twice now later cs h)
  ]
]

-- Dropping the old crashes loses nothing: the next decision, at the same time or later, is the one that
-- the whole history would give.
pub trusted_surface_recovery_forgets :
    (crashes : List ℕ) (now later : ℕ)
    → now ≤ later
    → trusted_surface_recovery (trusted_surface_recovery crashes now).crashes later
      ≡ trusted_surface_recovery (crashes ++ (now ∷ [])) later
unfolding trusted_surface_recovery
trusted_surface_recovery_forgets crashes now later h = rw (kept_twice now later crashes h) refl
