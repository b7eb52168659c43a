-- ===== src/Sync/Client.antt =====
-- apps/desktop/src/main/SyncAccountManager.ts: `#pullAllRecords`, the loop that reads all records of
-- an account before a key rotation, against the service's `pull`.
use locus_browser.Base.{
  ℕ, zero, suc, ◌*◌, ◌≤◌, ◌<◌, String, ◌≡◌, refl, ◌∙◌, ◌≢◌, true, false, List, [], ◌∷◌, ◌++◌, arith,
  take, drop, length, leb, ltb, if◌then◌else◌, Bool-cases, inl, inr, All, All-map, AllPairs, Bool,
  not, ap, sym, ◌&&◌, ◌+◌, every, append_assoc, take-append-drop, take_all, length-drop,
  length-take, ◌-◌,
}
use locus_browser.Sync.Models.{CursorRecord}
use locus_browser.Sync.Manager.{EncryptedRecord}
use locus_browser.Sync.Manager.Verifier.{encrypted_record}
use locus_browser.Sync.Memory.State.{Repository}
use locus_browser.Sync.Memory.Invariant.{Inv}
use locus_browser.Sync.Memory.Records.{PullResult, last_cursor, available, pull}
use locus_browser.Sync.Memory.Records.Paging.{available_lem, available-next, last_cursor-ge}
pub mod Pulling

pub data ScanError : Type 0 where
  invalid_record non_advancing_cursor scan_too_large : ScanError

pub data Scan : Type 0 where
  found : List CursorRecord → Scan
  failed : ScanError → Scan

-- A record as it is sent.
abbrev pub sent_record : CursorRecord → EncryptedRecord
sent_record r = record {
  version = r.version;
  account_id = r.account_id;
  device_id = r.device_id;
  collection = r.collection;
  record_id = r.record_id;
  clock = r.clock;
  nonce = r.nonce;
  ciphertext = r.ciphertext;
  tombstone = r.tombstone;
}

-- `EncryptedRecordSchema.parse` returns.
abbrev pub is_encrypted : CursorRecord → Bool
is_encrypted r = encrypted_record (sent_record r)

abbrev pub page_size : ℕ
page_size = 500

abbrev pub max_pages : ℕ
max_pages = 100

module _ (pull_page : ℕ → PullResult) where
  -- The loop with `pages` rounds left.
  scan : ℕ → List CursorRecord → ℕ → Scan
  scan zero records cursor = failed scan_too_large
  scan (suc pages) records cursor =
      let page = pull_page cursor in
      let rest = scan pages (records ++ page.records) page.cursor in
      if not (every is_encrypted page.records)
      then failed invalid_record
      else if page.has_more
      then (if leb page.cursor cursor then failed non_advancing_cursor else rest)
      else found (records ++ page.records)

  pub pull_all_records : Scan
  pull_all_records = scan max_pages [] 0

-- Against a repository that does not change during the scan.
abbrev pub pages_of : Repository → String → ℕ → ℕ → PullResult
pages_of s account_id size cursor = pull s account_id cursor size

last_cursor-gt :
    (rs : List CursorRecord) (n c : ℕ)
    → All (λ r. c < r.cursor) rs
    → AllPairs (λ a b. a.cursor < b.cursor) rs
    → 0 < n
    → rs ≢ []
    → c < last_cursor (take n rs) c
last_cursor-gt [] n c h k pos some_left = absurd (some_left refl)
last_cursor-gt (r ∷ rs) zero c h k pos some_left = absurd (omega arith)
last_cursor-gt (r ∷ rs) (suc n) c h k pos some_left =
    omega (arith, last_cursor-ge rs n r.cursor k.0 k.1)

empty_not_longer :
    (n : ℕ) (rs : List CursorRecord) → ltb (length (take n rs)) (length rs) ≡ true → rs ≢ []
empty_not_longer n rs h e = ground arith

ltb-sub : (p n len : ℕ) → ltb (suc p * n) (len - n) ≡ ltb (suc (suc p) * n) len
ltb-sub p n len = ground arith

every-take_add :
    (p : CursorRecord → Bool) (n m : ℕ) (rs : List CursorRecord)
    → every p (take (n + m) rs) ≡ (every p (take n rs) && every p (take m (drop n rs)))
every-take_add p zero m rs = let same : 0 + m ≡ m = omega arith in rw same refl
every-take_add p (suc n) m [] =
    let one_more : suc n + m ≡ suc (n + m) = omega arith in rw one_more (rest m)
  where
    rest : (k : ℕ) → true ≡ every p (take k [])
    rest zero = refl
    rest (suc k) = refl
every-take_add p (suc n) m (r ∷ rs) =
    let one_more : suc n + m ≡ suc (n + m) = omega arith in
    rw one_more
      (elim (Bool-cases (p r)) [ inl e ↦ rw e (every-take_add p n m rs) | inr e ↦ rw e refl ])

-- One round looks at a page of the records, and the later ones at the rest.
every-rounds :
    (p : CursorRecord → Bool) (pages n : ℕ) (rs : List CursorRecord)
    → every p (take (suc (suc pages) * n) rs)
      ≡ (every p (take n rs) && every p (take (suc pages * n) (drop n rs)))
every-rounds p pages n rs =
    let split : suc (suc pages) * n ≡ n + suc pages * n = omega arith in
    rw split (every-take_add p n (suc pages * n) rs)

module _ (s : Repository) (account_id : String) (size : ℕ) (v : Inv s) (pos : 0 < size) where
  advances :
      (cursor : ℕ)
      → available s account_id cursor ≢ []
      → cursor < last_cursor (take size (available s account_id cursor)) cursor
  advances cursor some_left =
      let (ordered, own, _) = available_lem s account_id cursor v in
      last_cursor-gt (available s account_id cursor) size cursor (All-map _ _ (λ r h. h.1) _ own)
        ordered pos some_left

  scan_step :
      (pages : ℕ) (records : List CursorRecord) (cursor : ℕ)
      → let left = available s account_id cursor in
        scan (pages_of s account_id size) (suc pages) records cursor ≡ (
          if every is_encrypted (take size left)
          then (if ltb (length (take size left)) (length left)
              then scan
                  (pages_of s account_id size)
                  pages
                  (records ++ take size left)
                  (last_cursor (take size left) cursor)
              else found (records ++ take size left))
          else failed invalid_record)
  unfolding scan pull
  scan_step pages records cursor =
      let left = available s account_id cursor in
      elim (Bool-cases (every is_encrypted (take size left))) [
        | inr bad ↦ rw bad refl
        | inl good ↦ elim (Bool-cases (ltb (length (take size left)) (length left))) [
          | inr last ↦ rw (good, last) refl
          | inl more ↦
              let advanced = advances cursor (λ e. empty_not_longer size left more e) in
              let onwards : leb (last_cursor (take size left) cursor) cursor ≡ false =
                ground arith in
              rw (good, more, onwards) refl
        ]
      ]

  -- The records that are left after a page, in the shape that the next round meets them.
  after_page :
      (pages : ℕ) (records : List CursorRecord) (cursor : ℕ)
      → let left = available s account_id cursor in
        (if ltb (suc pages * size) (length (drop size left))
          then failed scan_too_large
          else found ((records ++ take size left) ++ drop size left))
        ≡ (if ltb (suc (suc pages) * size) (length left)
            then failed scan_too_large
            else found (records ++ left))
  after_page pages records cursor =
      let left = available s account_id cursor in
      rw (
        append_assoc records (take size left) (drop size left),
        take-append-drop size left,
        length-drop size left,
        ltb-sub pages size (length left),
      )

  last_page :
      (pages : ℕ) (records : List CursorRecord) (cursor : ℕ)
      → let left = available s account_id cursor in
        ltb (length (take size left)) (length left) ≡ false
        → found (records ++ take size left) ≡ (
            if ltb (suc pages * size) (length left)
            then failed scan_too_large
            else found (records ++ left))
  last_page pages records cursor last =
      let left = available s account_id cursor in
      let short : length left ≤ size = ground (arith, length-take size left) in
      let fits : ltb (suc pages * size) (length left) ≡ false = ground arith in
      rw (take_all size left short, fits)

  -- What the loop returns if it has `pages` rounds left.
  abbrev scan_result : ℕ → List CursorRecord → ℕ → Scan
  scan_result pages records cursor =
      let left = available s account_id cursor in
      if every is_encrypted (take (pages * size) left)
      then (if ltb (pages * size) (length left)
          then failed scan_too_large
          else found (records ++ left))
      else failed invalid_record

  scan_last :
      (pages : ℕ) (records : List CursorRecord) (cursor : ℕ)
      → let left = available s account_id cursor in
        ltb (length (take size left)) (length left) ≡ false
        → scan (pages_of s account_id size) (suc pages) records cursor
          ≡ scan_result (suc pages) records cursor
  scan_last pages records cursor last =
      let left = available s account_id cursor in
      let short : length left ≤ size = ground (arith, length-take size left) in
      let shorter : length left ≤ suc pages * size = ground arith in
      scan_step pages records cursor
      ∙ rw last (
          ap
            (λ rs.
              if every is_encrypted rs
              then found (records ++ take size left)
              else failed invalid_record)
            (take_all size left short ∙ sym (take_all (suc pages * size) left shorter))
          ∙ ap
              (λ x.
                if every is_encrypted (take (suc pages * size) left)
                then x
                else failed invalid_record)
              (last_page pages records cursor last))

  scan_lem :
      (pages : ℕ) (records : List CursorRecord) (cursor : ℕ)
      → scan (pages_of s account_id size) (suc pages) records cursor
        ≡ scan_result (suc pages) records cursor
  scan_lem zero records cursor =
      let left = available s account_id cursor in
      elim (Bool-cases (ltb (length (take size left)) (length left))) [
        | inr last ↦ scan_last 0 records cursor last
        | inl more ↦
            let one : 1 * size ≡ size = omega arith in
            let over : ltb size (length left) ≡ true = ground (arith, length-take size left) in
            scan_step 0 records cursor ∙ rw (more, one, over) (unfold scan in refl)
      ]
  scan_lem (suc pages) records cursor =
      let left = available s account_id cursor in
      elim (Bool-cases (ltb (length (take size left)) (length left))) [
        | inr last ↦ scan_last (suc pages) records cursor last
        | inl more ↦
            scan_step (suc pages) records cursor
            ∙ rw (more, every-rounds is_encrypted pages size left)
                (elim (Bool-cases (every is_encrypted (take size left))) [
                  | inr bad ↦ rw bad refl
                  | inl good ↦ rw good (
                      scan_lem pages (records ++ take size left)
                        (last_cursor (take size left) cursor)
                      ∙ rw (available-next s account_id cursor size v) (
                          ap
                            (λ x.
                              if every is_encrypted (take (suc pages * size) (drop size left))
                              then x
                              else failed invalid_record)
                            (after_page pages records cursor)))
                ])
      ]

-- The scan returns all records of the account, each once and in the order of their cursors, if there are at
-- most 50000 and all of them are well-formed. If one of the first 50000 is not, it fails for that, and
-- otherwise, if there are more, because they are too many; it never meets a cursor that does not advance.
pub pull_all_records_lem :
    (s : Repository) (account_id : String)
    → Inv s
    → pull_all_records (pages_of s account_id page_size) ≡ (
        if every is_encrypted (take 50000 (available s account_id 0))
        then (if ltb 50000 (length (available s account_id 0))
            then failed scan_too_large
            else found (available s account_id 0))
        else failed invalid_record)
unfolding pull_all_records
pull_all_records_lem s account_id v = scan_lem s account_id page_size v (omega arith) 99 [] 0
