-- ===== src/Tabs/Access/Invariant.antt =====
-- What holds of every registry of apps/desktop/src/main/TabAccessRegistry.ts.
use locus_browser.Base.{
  ◌≡◌, ◌≢◌, ◌∙◌, refl, ap, String, some, [], ◌∷◌, arith, Dict, get, set, delete, str_eq, eq_iff,
  eq_refl, All, Any, All-and, All-map, All-set, All-delete, HasUniqueKeys, HasUniqueKeys-set,
  HasUniqueKeys-delete, get-All, Option-cases, Bool-cases, inl, inr,
}
use locus_browser.Tabs.Access.{
  Grant, Registry, AccessLevel, or_new, grant, put_or_drop, revoke_from, revoke, revoke_session,
  access, grants_for_tab,
}

-- Each grant stands under its own session and tab.
abbrev pub IsOwn : String → String → Grant → Type 0
IsOwn session_id tab_id g = (g.session_id ≡ session_id) × (g.tab_id ≡ tab_id)

abbrev pub IsKept : String → Dict Grant → Type 0
IsKept session_id m = HasUniqueKeys m × All (λ e. IsOwn session_id e.0 e.1) m

-- Every session is there once, with at least one grant.
abbrev pub Inv : Registry → Type 0
Inv s = HasUniqueKeys s × All (λ e. (e.1 ≢ []) × IsKept e.0 e.1) s

or_new-IsKept :
    (s : Registry) (session_id : String) → Inv s → IsKept session_id (or_new (get s session_id))
or_new-IsKept s session_id v = elim (Option-cases (get s session_id)) [
  | inl e ↦ rw e (tt, tt)
  | inr (m, e) ↦ rw e (get-All (λ k m'. (m' ≢ []) × IsKept k m') s session_id m v.1 e).1
]

set_nonempty : (m : Dict Grant) (k : String) (g : Grant) → set m k g ≢ []
unfolding set
set_nonempty [] k g = λ e. cc
set_nonempty ((j, h) ∷ m) k g = elim (Bool-cases (str_eq j k)) [
  | inl e ↦ rw e (λ p. cc)
  | inr e ↦ rw e (λ p. cc)
]

pub grant-Inv :
    (session_id tab_id : String) (level : AccessLevel) (source now : String) (s : Registry)
    → Inv s
    → Inv (grant session_id tab_id level source now s).1
unfolding grant
grant-Inv session_id tab_id level source now s v =
    let g = (grant session_id tab_id level source now s).0 in
    let m = or_new (get s session_id) in
    let (once, own) = or_new-IsKept s session_id v in
    (
      HasUniqueKeys-set s session_id (set m tab_id g) v.0,
      All-set (λ k m'. (m' ≢ []) × IsKept k m') s session_id (set m tab_id g) v.1
          (
            set_nonempty m tab_id g,
            (
              HasUniqueKeys-set m tab_id g once,
              All-set (IsOwn session_id) m tab_id g own (refl, refl),
            ),
          ),
    )

put_or_drop-Inv :
    (session_id : String) (m : Dict Grant) (s : Registry)
    → IsKept session_id m
    → Inv s
    → Inv (put_or_drop session_id m s)
unfolding put_or_drop
put_or_drop-Inv session_id [] s h v =
    (HasUniqueKeys-delete s session_id v.0, All-delete _ s session_id v.1)
put_or_drop-Inv session_id (e ∷ m) s h v = (
  HasUniqueKeys-set s session_id (e ∷ m) v.0,
  All-set (λ k m'. (m' ≢ []) × IsKept k m') s session_id (e ∷ m) v.1 (λ p. cc, h),
)

pub revoke-Inv :
    (session_id tab_id : String) (s : Registry) → Inv s → Inv (revoke session_id tab_id s).1
unfolding revoke revoke_from
revoke-Inv session_id tab_id s v = elim (Option-cases (get s session_id)) [
  | inl e ↦ rw e v
  | inr (m, e) ↦
      let (_, (once, own)) = get-All (λ k m'. (m' ≢ []) × IsKept k m') s session_id m v.1 e in
      rw e (
        put_or_drop-Inv session_id (delete m tab_id) s
          (HasUniqueKeys-delete m tab_id once, All-delete _ m tab_id own) v)
]

pub revoke_session-Inv :
    (session_id : String) (s : Registry) → Inv s → Inv (revoke_session session_id s)
unfolding revoke_session
revoke_session-Inv session_id s v =
    (HasUniqueKeys-delete s session_id v.0, All-delete _ s session_id v.1)

-- One call of a method that changes the registry.
pub data Step (s : Registry) : Registry → Type 0 where
  granted :
      (session_id tab_id : String) (level : AccessLevel) (source now : String)
      → Step s (grant session_id tab_id level source now s).1
  revoked : (session_id tab_id : String) → Step s (revoke session_id tab_id s).1
  session_revoked : (session_id : String) → Step s (revoke_session session_id s)

pub data Reach : Registry → Type 0 where
  start : Reach []
  next : {s t : Registry} → Reach s → Step s t → Reach t

Step-Inv : {s t : Registry} → Step s t → Inv s → Inv t
Step-Inv {s} (granted session_id tab_id level source now) v =
    grant-Inv session_id tab_id level source now s v
Step-Inv {s} (revoked session_id tab_id) v = revoke-Inv session_id tab_id s v
Step-Inv {s} (session_revoked session_id) v = revoke_session-Inv session_id s v

-- In every registry that calls lead to, each session is there once and has at least one grant, and
-- each grant stands under its own session and tab.
pub registry-Inv : {s : Registry} → Reach s → Inv s
registry-Inv start = (tt, tt)
registry-Inv (next r step) = Step-Inv step (registry-Inv r)

-- `access` in a registry with one more session in front.
access-skip :
    (session_id tab_id : String) (m : Dict Grant) (s : Registry) (k : String)
    → session_id ≢ k
    → access ((session_id, m) ∷ s) k tab_id ≡ access s k tab_id
unfolding access get
access-skip session_id tab_id m s k other = ground (arith, eq_iff session_id k)

access-first :
    (session_id tab_id : String) (m : Dict Grant) (s : Registry)
    → access ((session_id, m) ∷ s) session_id tab_id ≡ get m tab_id
unfolding access get
access-first session_id tab_id m s = rw (eq_refl session_id) refl

found_in :
    (tab_id : String) (s : Registry) (P : Grant → Type 0)
    → Inv s
    → All (λ e. (g : Grant) → get e.1 tab_id ≡ some g → P g) s
    → All P (grants_for_tab s tab_id)
unfolding grants_for_tab
found_in tab_id [] P v h = tt
found_in tab_id ((k, m) ∷ s) P v h = elim (Option-cases (get m tab_id)) [
  | inl e ↦ rw e (found_in tab_id s P (v.0.1, v.1.1) h.1)
  | inr (g, e) ↦ rw e (h.0 g e, found_in tab_id s P (v.0.1, v.1.1) h.1)
]

-- What stands in the registry is what `access` finds.
access_entries :
    (s : Registry) → Inv s → All (λ e. (tab_id : String) → access s e.0 tab_id ≡ get e.1 tab_id) s
access_entries [] v = tt
access_entries ((k, m) ∷ s) v = (
  λ tab_id. access-first k tab_id m s,
  All-map _ _ (λ e h tab_id. access-skip k tab_id m s e.0 h.0 ∙ h.1 tab_id) s
      (All-and _ _ s v.0.0 (access_entries s (v.0.1, v.1.1))),
)

-- The grants of a tab that the registry lists are those that `access` finds: each belongs to the tab and is
-- the one of its session.
pub grants_for_tab_sound :
    (s : Registry) (tab_id : String)
    → Inv s
    → All
        (λ g. (g.tab_id ≡ tab_id) × (access s g.session_id tab_id ≡ some g))
        (grants_for_tab s tab_id)
grants_for_tab_sound s tab_id v = found_in tab_id s _ v (
    All-map _ _
      (λ e h g found.
        let (own, tab) = get-All (IsOwn e.0) e.1 tab_id g h.1.1.1 found in
        (tab, ap (λ k. access s k tab_id) own ∙ h.0 tab_id ∙ found))
      s (All-and _ _ s (access_entries s v) v.1))

listed_first :
    (k tab_id : String) (m : Dict Grant) (s : Registry) (g : Grant)
    → get m tab_id ≡ some g
    → Any (λ x. x ≡ g) (grants_for_tab ((k, m) ∷ s) tab_id)
unfolding grants_for_tab
listed_first k tab_id m s g h = rw h (inl refl)

listed_later :
    (k tab_id : String) (m : Dict Grant) (s : Registry) (g : Grant)
    → Any (λ x. x ≡ g) (grants_for_tab s tab_id)
    → Any (λ x. x ≡ g) (grants_for_tab ((k, m) ∷ s) tab_id)
unfolding grants_for_tab
listed_later k tab_id m s g h = elim (Option-cases (get m tab_id)) [
  | inl e ↦ rw e h
  | inr (x, e) ↦ rw e (inr h)
]

-- A grant that `access` finds is listed for its tab.
pub grants_for_tab_complete :
    (s : Registry) (session_id tab_id : String) (g : Grant)
    → access s session_id tab_id ≡ some g
    → Any (λ x. x ≡ g) (grants_for_tab s tab_id)
unfolding access get grants_for_tab
grants_for_tab_complete [] session_id tab_id g h = cc
grants_for_tab_complete ((k, m) ∷ s) session_id tab_id g h =
    elim (Bool-cases (str_eq k session_id)) [
      | inl e ↦ listed_first k tab_id m s g (rw e at h)
      | inr e ↦
          listed_later k tab_id m s g (grants_for_tab_complete s session_id tab_id g (rw e at h))
    ]
