-- ===== src/Sync/Memory/Records/Paging.antt =====
-- Reading the records page by page with `pull` (services/sync/src/memoryRepository.ts).
use locus_browser.Base.{
  Bool-cases, ◌⊎◌, ℕ, zero, suc, ◌≤◌, ◌<◌, String, ◌≡◌, refl, sym, ap, subst, ◌∙◌, ◌≢◌, ◌↔◌, inl,
  inr, true, false, List, [], ◌∷◌, ◌++◌, arith, values, keep, take, drop, length, ltb, eq_iff, All,
  All-map, All-and, Any, Any-keep, AllPairs, AllPairs-map, AllPairs-keep, AllPairs-and, keep_sound,
  keep-keep, keep-All, take-append-drop, length-take, min, sort_by, All-sort_by, Any-sort_by,
  AllPairs-sort_by, sort_by-IsSorted, keep-sort_by, Dict,
}
use locus_browser.Sync.Models.{CursorRecord}
use locus_browser.Sync.Memory.State.{Repository}
use locus_browser.Sync.Memory.Invariant.{Inv, HasDistinctCursors}
use locus_browser.Sync.Memory.Records.{last_cursor, is_newer, by_cursor, available, pull}

by_cursor_trans :
    (a b c : CursorRecord) → by_cursor a b ≡ true → by_cursor b c ≡ true → by_cursor a c ≡ true
by_cursor_trans a b c h k = ground arith

by_cursor_total : (a b : CursorRecord) → by_cursor a b ≡ false → by_cursor b a ≡ true
by_cursor_total a b h = ground arith

abbrev IsApart : CursorRecord → CursorRecord → Type 0
IsApart a b = a.cursor ≢ b.cursor

All-values :
    (r : CursorRecord) (m : Dict CursorRecord)
    → All (λ e. r.cursor ≢ e.1.cursor) m
    → All (IsApart r) (values m)
All-values r [] h = tt
All-values r ((k, v) ∷ m) h = (h.0, All-values r m h.1)

values-IsApart : (m : Dict CursorRecord) → HasDistinctCursors m → AllPairs IsApart (values m)
values-IsApart [] h = tt
values-IsApart ((k, v) ∷ m) h = (All-values v m h.0, values-IsApart m h.1)

is_newer_sound :
    (account_id : String) (cursor : ℕ) (r : CursorRecord)
    → is_newer account_id cursor r ≡ true
    → (r.account_id ≡ account_id) × (cursor < r.cursor)
is_newer_sound account_id cursor r h =
    (ground (arith, eq_iff r.account_id account_id), ground arith)

is_newer_complete :
    (account_id : String) (cursor : ℕ) (r : CursorRecord)
    → r.account_id ≡ account_id
    → cursor < r.cursor
    → is_newer account_id cursor r ≡ true
is_newer_complete account_id cursor r own newer = ground (arith, eq_iff r.account_id account_id)

is_newer_of_mem :
    (account_id : String) (cursor : ℕ) (r : CursorRecord) (rs : List CursorRecord)
    → Any (λ q. r ≡ q) rs
    → is_newer account_id cursor r ≡ true
    → Any (λ q. (r ≡ q) × (is_newer account_id cursor q ≡ true)) rs
is_newer_of_mem account_id cursor r [] m h = elim m [ ]
is_newer_of_mem account_id cursor r (q ∷ rs) (inl e) h =
    inl (e, subst (λ x. is_newer account_id cursor x ≡ true) e h)
is_newer_of_mem account_id cursor r (q ∷ rs) (inr m) h =
    inr (is_newer_of_mem account_id cursor r rs m h)

All-members : (rs : List CursorRecord) → All (λ r. Any (λ q. r ≡ q) rs) rs
All-members [] = tt
All-members (r ∷ rs) = (inl refl, All-map _ _ (λ q m. inr m) rs (All-members rs))

-- What is left for a client that has seen the cursors up to `cursor`: records of the account with
-- a greater cursor, all of them, in the order of their cursors, no two with the same one.
pub available_lem :
    (s : Repository) (account_id : String) (cursor : ℕ)
    → Inv s
    → AllPairs (λ a b. a.cursor < b.cursor) (available s account_id cursor)
      × All (λ r. (r.account_id ≡ account_id) × (cursor < r.cursor)) (available s account_id cursor)
      × All
          (λ r.
            (is_newer account_id cursor r ≡ false)
            ⊎ Any (λ q. r ≡ q) (available s account_id cursor))
          (values s.records)
unfolding available
available_lem s account_id cursor v =
    let found = keep (is_newer account_id cursor) (values s.records) in
    let apart =
      AllPairs-sort_by IsApart (λ a b h e. h (sym e)) by_cursor found
        (AllPairs-keep IsApart (is_newer account_id cursor) (values s.records)
          (values-IsApart s.records v.distinct)) in
    let sorted = sort_by-IsSorted by_cursor by_cursor_trans by_cursor_total found in
    (
      AllPairs-map _ _ (λ a b h. ground arith) (sort_by by_cursor found)
          (AllPairs-and _ _ _ apart sorted),
      All-map _ _ (is_newer_sound account_id cursor) _ (
          All-sort_by _ by_cursor found
            (keep_sound (is_newer account_id cursor) (values s.records))),
      All-map _ _
          (λ r known. elim (Bool-cases (is_newer account_id cursor r)) [
            | inr old ↦ inl old
            | inl newer ↦ inr (
                Any-sort_by (λ q. r ≡ q) by_cursor found
                  (Any-keep (λ q. r ≡ q) (is_newer account_id cursor) (values s.records)
                    (is_newer_of_mem account_id cursor r (values s.records) known newer)))
          ])
          (values s.records) (All-members (values s.records)),
    )

pub last_cursor-ge :
    (rs : List CursorRecord) (n c : ℕ)
    → All (λ r. c < r.cursor) rs
    → AllPairs (λ a b. a.cursor < b.cursor) rs
    → c ≤ last_cursor (take n rs) c
last_cursor-ge [] zero c h k = omega arith
last_cursor-ge [] (suc n) c h k = omega arith
last_cursor-ge (r ∷ rs) zero c h k = omega arith
last_cursor-ge (r ∷ rs) (suc n) c h k = omega (arith, last_cursor-ge rs n r.cursor k.0 k.1)

-- Filtering once more by a later cursor is asking from that cursor.
available-keep :
    (s : Repository) (account_id : String) (c c' : ℕ)
    → c ≤ c'
    → available s account_id c' ≡ keep (is_newer account_id c') (available s account_id c)
unfolding available
available-keep s account_id c c' h =
    ap (sort_by by_cursor) (
      sym (
        keep-keep (is_newer account_id c) (is_newer account_id c') (values s.records) (λ r p.
          let (own, newer) = is_newer_sound account_id c' r p in
          is_newer_complete account_id c r own (omega arith))))
    ∙ sym (
        keep-sort_by by_cursor by_cursor_trans by_cursor_total (is_newer account_id c')
          (keep (is_newer account_id c) (values s.records)))

keep-drop :
    (account_id : String) (rs : List CursorRecord) (n c : ℕ)
    → All (λ r. (r.account_id ≡ account_id) × (c < r.cursor)) rs
    → AllPairs (λ a b. a.cursor < b.cursor) rs
    → keep (is_newer account_id (last_cursor (take n rs) c)) rs ≡ drop n rs
keep-drop account_id [] zero c h k = refl
keep-drop account_id [] (suc n) c h k = refl
keep-drop account_id (r ∷ rs) zero c h k =
    keep-All (is_newer account_id c) (r ∷ rs)
      (All-map _ _ (λ q p. is_newer_complete account_id c q p.0 p.1) (r ∷ rs) h)
keep-drop account_id (r ∷ rs) (suc n) c h k =
    let passed = last_cursor-ge rs n r.cursor k.0 k.1 in
    let seen : is_newer account_id (last_cursor (take n rs) r.cursor) r ≡ false = ground arith in
    rw seen (
      keep-drop account_id rs n r.cursor
        (All-map _ _ (λ q p. (p.0.0, p.1)) rs (All-and _ _ rs h.1 k.0)) k.1)

pub available-next :
    (s : Repository) (account_id : String) (cursor limit : ℕ)
    → Inv s
    → available s account_id (last_cursor (take limit (available s account_id cursor)) cursor)
      ≡ drop limit (available s account_id cursor)
available-next s account_id cursor limit v =
    let (ordered, own, _) = available_lem s account_id cursor v in
    let reached =
      last_cursor-ge (available s account_id cursor) limit cursor (All-map _ _ (λ r h. h.1) _ own)
        ordered in
    available-keep s account_id cursor _ reached
    ∙ keep-drop account_id (available s account_id cursor) limit cursor own ordered

pub nonempty_drop :
    (n : ℕ) (rs : List CursorRecord)
    → (ltb (length (take n rs)) (length rs) ≡ true) ↔ (drop n rs ≢ [])
nonempty_drop zero [] = (λ h. cc, λ h. absurd (h refl))
nonempty_drop zero (r ∷ rs) = (λ h e. cc, λ h. ground arith)
nonempty_drop (suc n) [] = (λ h. cc, λ h. absurd (h refl))
nonempty_drop (suc n) (r ∷ rs) =
    let (to, from) = nonempty_drop n rs in
    (λ h. to (ground arith), λ h. let more = from h in ground arith)

-- A pull answers with the first `limit` records that are left, or all if there are fewer, and a pull
-- from the cursor that it answers with goes on where it stopped; `hasMore` tells whether anything is
-- left then.
pub pull_lem :
    (s : Repository) (account_id : String) (cursor limit : ℕ)
    → Inv s
    → let page = pull s account_id cursor limit in
      (page.records ++ available s account_id page.cursor ≡ available s account_id cursor)
      × (length page.records ≡ min limit (length (available s account_id cursor)))
      × ((page.has_more ≡ true) ↔ (available s account_id page.cursor ≢ []))
unfolding pull
pull_lem s account_id cursor limit v = rw (available-next s account_id cursor limit v) (
  take-append-drop limit (available s account_id cursor),
  length-take limit (available s account_id cursor),
  nonempty_drop limit (available s account_id cursor),
)
