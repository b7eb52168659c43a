-- ===== src/Tabs/Access/Lookup.antt =====
-- What `access` and `can` of apps/desktop/src/main/TabAccessRegistry.ts answer after each operation.
use locus_browser.Base.{
  ◌≡◌, ◌∙◌, refl, sym, ap, ◌⊎◌, String, true, false, ◌&&◌, Option, none, some, [], ◌∷◌, arith, Dict,
  get, set, delete, get-set, get-delete, str_eq, eq_iff, if◌then◌else◌, Option-cases, Bool-cases,
  inl, inr,
}
use mathlib.Core.Path.{ap₂}
use locus_browser.Tabs.Access.{
  Grant, Registry, AccessLevel, read, interact, or_new, is_some, grant, put_or_drop, revoke_from,
  revoke, revoke_session, access, can, allows,
}

access-set :
    (session_id : String) (m : Dict Grant) (s : Registry) (a b : String)
    → access (set s session_id m) a b ≡ (if str_eq session_id a then get m b else access s a b)
unfolding access
access-set session_id m s a b = ground (arith, get-set s session_id a m)

-- Where a session's map has changed at one tab only, `access` has changed there only.
at_both :
    (session_id tab_id : String) (o : Option Grant) (m : Dict Grant) (s : Registry) (a b : String)
    → get m b ≡ (if str_eq tab_id b then o else access s session_id b)
    → (if str_eq session_id a then get m b else access s a b)
      ≡ (if str_eq session_id a && str_eq tab_id b then o else access s a b)
at_both session_id tab_id o m s a b h = elim (Bool-cases (str_eq session_id a)) [
  | inr other ↦ rw other refl
  | inl e ↦
      let same : session_id ≡ a = (eq_iff session_id a).0 e in
      rw e (h ∙ ap (λ x. if str_eq tab_id b then o else access s x b) same)
]

-- A grant is what `access` finds from then on at its session and tab, and nothing else changes.
pub access-grant :
    (session_id tab_id : String) (level : AccessLevel) (source now : String) (s : Registry)
    (a b : String)
    → let (g, t) = grant session_id tab_id level source now s in
      access t a b ≡ (if str_eq session_id a && str_eq tab_id b then some g else access s a b)
unfolding access grant
access-grant session_id tab_id level source now s a b =
    let g = (grant session_id tab_id level source now s).0 in
    let m = set (or_new (get s session_id)) tab_id g in
    access-set session_id m s a b
    ∙ at_both session_id tab_id (some g) m s a b (get-set (or_new (get s session_id)) tab_id b g)

access-put_or_drop :
    (session_id : String) (m : Dict Grant) (s : Registry) (a b : String)
    → access (put_or_drop session_id m s) a b
      ≡ (if str_eq session_id a then get m b else access s a b)
unfolding access put_or_drop get
access-put_or_drop session_id [] s a b = ground (arith, get-delete s session_id a)
access-put_or_drop session_id (e ∷ m) s a b = ground (arith, get-set s session_id a (e ∷ m))

-- Nothing is removed where nothing is found.
unchanged :
    (session_id tab_id : String) (s : Registry) (a b : String)
    → access s session_id tab_id ≡ none
    → access s a b ≡ (if str_eq session_id a && str_eq tab_id b then none else access s a b)
unchanged session_id tab_id s a b h = elim (Bool-cases (str_eq session_id a && str_eq tab_id b)) [
  | inr other ↦ rw other refl
  | inl e ↦
      let same : session_id ≡ a = ground (arith, eq_iff session_id a) in
      let same' : tab_id ≡ b = ground (arith, eq_iff tab_id b) in
      rw e (ap₂ (access s) (sym same) (sym same') ∙ h)
]

access-empty : (s : Registry) (a b : String) → get s a ≡ none → access s a b ≡ none
unfolding access get
access-empty s a b h = rw h refl

access-found :
    (s : Registry) (a b : String) (m : Dict Grant) → get s a ≡ some m → access s a b ≡ get m b
unfolding access
access-found s a b m h = rw h refl

-- A revocation removes the grant of that session and tab and no other, and tells whether there was
-- one.
pub access-revoke :
    (session_id tab_id : String) (s : Registry) (a b : String)
    → let (removed, t) = revoke session_id tab_id s in
      (access t a b ≡ (if str_eq session_id a && str_eq tab_id b then none else access s a b))
      × (removed ≡ is_some (access s session_id tab_id))
unfolding revoke revoke_from
access-revoke session_id tab_id s a b = elim (Option-cases (get s session_id)) [
  | inl e ↦ rw e (
    unchanged session_id tab_id s a b (access-empty s session_id tab_id e),
    ap is_some (sym (access-empty s session_id tab_id e)),
  )
  | inr (m, e) ↦ rw e (
    access-put_or_drop session_id (delete m tab_id) s a b
        ∙ at_both session_id tab_id none (delete m tab_id) s a b
            (rw (access-found s session_id b m e) (get-delete m tab_id b)),
    ap is_some (sym (access-found s session_id tab_id m e)),
  )
]

-- After a session is revoked it has access to no tab, and every other session has what it had.
pub access-revoke_session :
    (session_id : String) (s : Registry) (a b : String)
    → access (revoke_session session_id s) a b
      ≡ (if str_eq session_id a then none else access s a b)
unfolding access revoke_session get
access-revoke_session session_id s a b = ground (arith, get-delete s session_id a)

-- A session that may interact with a tab may read it; after a revocation it may do neither, and after a
-- grant it may read, and interact if the grant says so.
pub can_lem :
    (s : Registry) (session_id tab_id : String) (level : AccessLevel) (source now : String)
    → let t = (revoke session_id tab_id s).1 in
      let u = (grant session_id tab_id level source now s).1 in
      ((can s session_id tab_id read ≡ true) ⊎ (can s session_id tab_id interact ≡ false))
      × (can t session_id tab_id read ≡ false)
      × (can t session_id tab_id interact ≡ false)
      × (can u session_id tab_id read ≡ true)
      × (can u session_id tab_id interact ≡ allows interact level)
unfolding can grant
can_lem s session_id tab_id level source now =
    let (gone, _) = access-revoke session_id tab_id s session_id tab_id in
    let given = access-grant session_id tab_id level source now s session_id tab_id in
    let same : (str_eq session_id session_id && str_eq tab_id tab_id) ≡ true =
      ground (arith, eq_iff session_id session_id, eq_iff tab_id tab_id) in
    rw (gone, given, same) (ground arith, refl, refl, refl, refl)
