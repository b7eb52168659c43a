-- ===== src/Sync/Clock.antt =====
-- `mergePerField` of packages/sync-crypto/src/clock.ts. `HybridLogicalClock` is not modelled.
pub mod Merge
mod Tests
use locus_browser.Base.{
  String, Bool, true, Option, none, some, [], ◌∷◌, Dict, get, set, if◌then◌else◌,
}

-- One field of a merged record: its value and the clock of the write.
pub record Field (V : Type 0) : Type 0 where
  pub value : V
  pub clock : String

module _ {V : Type 0} (is_later : String → String → Bool) where
  -- `!existing || compareClocks(candidate.clock, existing.clock) > 0`; `is_later a b` is
  -- `a.localeCompare(b) > 0`.
  abbrev pub wins : Field V → Option (Field V) → Bool
  wins candidate none = true
  wins candidate (some existing) = is_later candidate.clock existing.clock

  unfoldable pub merge_per_field : Dict (Field V) → Dict (Field V) → Dict (Field V)
  merge_per_field result [] = result
  merge_per_field result ((field, candidate) ∷ rest) =
      merge_per_field
        (if wins candidate (get result field) then set result field candidate else result) rest
