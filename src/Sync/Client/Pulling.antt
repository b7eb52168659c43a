-- ===== src/Sync/Client/Pulling.antt =====
-- apps/desktop/src/main/SyncAccountManager.ts: the loop of `#runSync` that pulls, against the service's `pull`.
-- `decrypts` tells whether a record passes its schema and is decrypted, so that it is applied.
use locus_browser.Base.{
  ℕ, zero, suc, ◌<◌, ◌≤◌, ◌≡◌, refl, ◌∙◌, ap, String, Bool, true, false, Option, none, some, List,
  [], ◌∷◌, ◌++◌, arith, take, drop, length, keep, ltb, if◌then◌else◌, Bool-cases, inl, inr,
  append_assoc, take-append-drop, take_all, length-drop, length-take,
}
use locus_browser.Sync.Models.{CursorRecord}
use locus_browser.Sync.Memory.State.{Repository}
use locus_browser.Sync.Memory.Invariant.{Inv}
use locus_browser.Sync.Memory.Records.{PullResult, last_cursor, available, pull}
use locus_browser.Sync.Memory.Records.Paging.{available-next}
use locus_browser.Sync.Client.{pages_of, page_size}

pub record SyncProgress : Type 0 where
  pub cursor : ℕ
  -- the records that were applied, in their order
  pub applied : List CursorRecord

module _ (pull_page : ℕ → PullResult) (decrypts : CursorRecord → Bool) where
  abbrev pub apply_page : SyncProgress → PullResult → SyncProgress
  apply_page p page = record {
    cursor = page.cursor;
    applied = p.applied ++ keep decrypts page.records;
  }

  -- `while (true)`, with the rounds that are left: nothing where they run out.
  unfoldable pub pull_loop : ℕ → SyncProgress → Option SyncProgress
  pull_loop zero p = none
  pull_loop (suc rounds) p =
      let page = pull_page p.cursor in
      let rest = pull_loop rounds (apply_page p page) in
      if page.has_more then rest else some (apply_page p page)

keep-append {ℓ} :
    {A : Type ℓ} (p : A → Bool) (xs ys : List A) → keep p (xs ++ ys) ≡ keep p xs ++ keep p ys
keep-append p [] ys = refl
keep-append p (x ∷ xs) ys = ground (arith, keep-append p xs ys)

drop_all {ℓ} : {A : Type ℓ} (n : ℕ) (xs : List A) → length xs ≤ n → drop n xs ≡ []
drop_all zero [] h = refl
drop_all zero (x ∷ xs) h = absurd (omega arith)
drop_all (suc n) [] h = refl
drop_all (suc n) (x ∷ xs) h = drop_all n xs (omega arith)

module _ (s : Repository) (account_id : String) (size : ℕ) (decrypts : CursorRecord → Bool)
    (v : Inv s) (pos : 0 < size) where
  abbrev left : ℕ → List CursorRecord
  left cursor = available s account_id cursor

  abbrev Finishes : ℕ → SyncProgress → Type 0
  Finishes rounds p =
      (end : SyncProgress) × (pull_loop (pages_of s account_id size) decrypts rounds p ≡ some end)
      × (end.applied ≡ p.applied ++ keep decrypts (left p.cursor))
      × (left end.cursor ≡ [])

  step_more :
      (rounds : ℕ) (p : SyncProgress)
      → ltb (length (take size (left p.cursor))) (length (left p.cursor)) ≡ true
      → pull_loop (pages_of s account_id size) decrypts (suc rounds) p
        ≡ pull_loop (pages_of s account_id size) decrypts rounds (record {
          cursor = last_cursor (take size (left p.cursor)) p.cursor;
          applied = p.applied ++ keep decrypts (take size (left p.cursor));
        })
  unfolding pull_loop pull
  step_more rounds p more = rw more refl

  step_last :
      (rounds : ℕ) (p : SyncProgress)
      → ltb (length (take size (left p.cursor))) (length (left p.cursor)) ≡ false
      → pull_loop (pages_of s account_id size) decrypts (suc rounds) p
        ≡ some (record {
          cursor = last_cursor (take size (left p.cursor)) p.cursor;
          applied = p.applied ++ keep decrypts (take size (left p.cursor));
        })
  unfolding pull_loop pull
  step_last rounds p last = rw last refl

  fewer :
      (n : ℕ) (rest : List CursorRecord) (rounds : ℕ) (next : List CursorRecord)
      → length rest < suc rounds
      → ltb (length (take n rest)) (length rest) ≡ true
      → next ≡ drop n rest
      → 0 < n
      → length next < rounds
  fewer n rest rounds next h more e k = rw e (ground (arith, length-drop n rest))

  all_applied :
      (p : SyncProgress) (rest next : List CursorRecord)
      → next ≡ drop size rest
      → (p.applied ++ keep decrypts (take size rest)) ++ keep decrypts next
        ≡ p.applied ++ keep decrypts rest
  all_applied p rest next e =
      rw
        (
          e,
          append_assoc p.applied (keep decrypts (take size rest)) (keep decrypts (drop size rest)),
          ← keep-append decrypts (take size rest) (drop size rest),
          take-append-drop size rest,
        )
        refl

  pull_loop-Finishes :
      (rounds : ℕ) (p : SyncProgress) → length (left p.cursor) < rounds → Finishes rounds p
  unfolding pull_loop
  pull_loop-Finishes zero p h = absurd (omega arith)
  pull_loop-Finishes (suc rounds) p h =
      let rest = left p.cursor in
      let next = available-next s account_id p.cursor size v in
      elim (Bool-cases (ltb (length (take size rest)) (length rest))) [
        | inl more ↦
            let after : SyncProgress = record {
              cursor = last_cursor (take size rest) p.cursor;
              applied = p.applied ++ keep decrypts (take size rest);
            } in
            let shorter : length (left after.cursor) < rounds =
              fewer size rest rounds (left after.cursor) h more next pos in
            let (end, run, applied, done) = pull_loop-Finishes rounds after shorter in
            (
              end,
              step_more rounds p more ∙ run,
              applied ∙ all_applied p rest (left after.cursor) next,
              done,
            )
        | inr last ↦
            let short : length rest ≤ size = ground (arith, length-take size rest) in
            (
              record {
                cursor = last_cursor (take size rest) p.cursor;
                applied = p.applied ++ keep decrypts (take size rest);
              },
              step_last rounds p last,
              ap (λ rs. p.applied ++ keep decrypts rs) (take_all size rest short),
              next ∙ drop_all size rest short,
            )
      ]

-- The pull of a sync ends: against a repository that does not change meanwhile it needs at most one round
-- more than records are left. It applies exactly the records after its cursor that decrypt, each once and in
-- the order of their cursors, and leaves none to pull.
pub pull_loop_ends :
    (s : Repository) (account_id : String) (decrypts : CursorRecord → Bool) (rounds : ℕ)
    (p : SyncProgress)
    → Inv s
    → length (available s account_id p.cursor) < rounds
    → (end : SyncProgress) × (pull_loop (pages_of s account_id page_size) decrypts rounds p
        ≡ some end)
      × (end.applied ≡ p.applied ++ keep decrypts (available s account_id p.cursor))
      × (available s account_id end.cursor ≡ [])
pull_loop_ends s account_id decrypts rounds p v h =
    pull_loop-Finishes s account_id page_size decrypts v (omega arith) rounds p h
