-- ===== src/Policy/Attachments.antt =====
-- apps/desktop/src/main/WorkAttachmentPolicy.ts: the images that may be attached to a message. Bytes are
-- numbers.
use locus_browser.Base.{
  ℕ, zero, suc, ◌+◌, ◌*◌, ◌≤◌, ◌≡◌, ◌↔◌, refl, Bool, true, false, ◌&&◌, ◌||◌, Option, none, some,
  List, [], ◌∷◌, ◌++◌, arith, ltb, ◌==◌, any, length, All, if◌then◌else◌,
}

abbrev pub max_work_attachments : ℕ
max_work_attachments = 10

abbrev pub max_work_attachment_bytes : ℕ
max_work_attachment_bytes = 15 * 1024 * 1024

abbrev pub max_work_attachment_total_bytes : ℕ
max_work_attachment_total_bytes = 25 * 1024 * 1024

pub data ImageType : Type 0 where
  png jpeg gif webp : ImageType

-- `signature.every((value, index) => bytes[index] === value)`.
unfoldable pub starts_with_bytes : List ℕ → List ℕ → Bool
starts_with_bytes bytes [] = true
starts_with_bytes [] (v ∷ signature) = false
starts_with_bytes (b ∷ bytes) (v ∷ signature) = (b == v) && starts_with_bytes bytes signature

-- `bytes[index] === value`.
unfoldable pub has_byte : List ℕ → ℕ → ℕ → Bool
has_byte [] index value = false
has_byte (b ∷ bytes) zero value = b == value
has_byte (b ∷ bytes) (suc index) value = has_byte bytes index value

unfoldable pub detect_image_mime_type : List ℕ → Option ImageType
detect_image_mime_type bytes =
    if starts_with_bytes bytes (0x89 ∷ 0x50 ∷ 0x4e ∷ 0x47 ∷ 0x0d ∷ 0x0a ∷ 0x1a ∷ 0x0a ∷ [])
    then some png
    else (if starts_with_bytes bytes (0xff ∷ 0xd8 ∷ 0xff ∷ [])
        then some jpeg
        else (if starts_with_bytes bytes (0x47 ∷ 0x49 ∷ 0x46 ∷ 0x38 ∷ 0x37 ∷ 0x61 ∷ [])
              || starts_with_bytes bytes (0x47 ∷ 0x49 ∷ 0x46 ∷ 0x38 ∷ 0x39 ∷ 0x61 ∷ [])
            then some gif
            else (if starts_with_bytes bytes (0x52 ∷ 0x49 ∷ 0x46 ∷ 0x46 ∷ [])
                  && has_byte bytes 8 0x57
                  && has_byte bytes 9 0x45
                  && has_byte bytes 10 0x42
                  && has_byte bytes 11 0x50
                then some webp
                else none)))

pub data BudgetIssue : Type 0 where
  too_many too_large too_large_together : BudgetIssue

abbrev pub total : List ℕ → ℕ
total [] = 0
total (x ∷ xs) = x + total xs

unfoldable pub attachment_budget_issue : List ℕ → List ℕ → Option BudgetIssue
attachment_budget_issue existing candidates =
    if ltb max_work_attachments (length existing + length candidates)
    then some too_many
    else (if any (λ size. ltb max_work_attachment_bytes size) candidates
        then some too_large
        else (if ltb max_work_attachment_total_bytes (total (existing ++ candidates))
            then some too_large_together
            else none))

none_larger :
    (xs : List ℕ)
    → (any (λ size. ltb max_work_attachment_bytes size) xs ≡ false)
      ↔ All (λ size. size ≤ max_work_attachment_bytes) xs
none_larger [] = (λ h. tt, λ h. refl)
none_larger (x ∷ xs) =
    let (to, from) = none_larger xs in
    (λ h. (ground arith, to (ground arith)), λ h. ground (arith, h.0, from h.1))

-- The candidates are accepted exactly if there are at most ten images with those that are there, each
-- candidate has at most 15 MB, and all have at most 25 MB together.
pub attachment_budget_issue_lem :
    (existing candidates : List ℕ)
    → (attachment_budget_issue existing candidates ≡ none) ↔ (
        (length existing + length candidates ≤ 10)
        × All (λ size. size ≤ max_work_attachment_bytes) candidates
        × (total (existing ++ candidates) ≤ max_work_attachment_total_bytes))
unfolding attachment_budget_issue
attachment_budget_issue_lem existing candidates =
    let (to, from) = none_larger candidates in
    (
      λ h. (ground arith, to (ground arith), ground arith),
      λ h. let small = from h.1 in ground (arith, small, h.0, h.2),
    )
