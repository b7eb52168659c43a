-- ===== src/Tabs/Sleeping.antt =====
-- apps/desktop/src/main/TabSleepingPolicy.ts: which tabs are put to sleep. Times are milliseconds; the
-- source's `0 | 15 | 30 | 60` is any number of minutes here.
use locus_browser.Base.{
  ℕ, ◌+◌, ◌*◌, ◌≤◌, ◌<◌, ◌≡◌, ◌↔◌, Bool, true, false, not, ◌&&◌, arith, ltb, leb,
}

pub record TabSleepCandidate : Type 0 where
  pub active : Bool
  pub sleeping : Bool
  pub loading : Bool
  pub audible : Bool
  pub media_playing : Bool
  pub granted : Bool
  pub downloading : Bool

unfoldable pub can_sleep_tab : TabSleepCandidate → Bool
can_sleep_tab c =
    not c.active
    && not c.sleeping
    && not c.loading
    && not c.audible
    && not c.media_playing
    && not c.granted
    && not c.downloading

-- `lastActiveAt <= now - afterMinutes * 60_000`, without a number below zero.
unfoldable pub should_sleep_tab : TabSleepCandidate → ℕ → ℕ → ℕ → Bool
should_sleep_tab c last_active_at now after_minutes =
    ltb 0 after_minutes && leb (last_active_at + after_minutes * 60000) now && can_sleep_tab c

-- A tab is put to sleep exactly if sleeping is on, the tab has been idle for that many minutes, and
-- it is not active, asleep, loading, audible, playing, shared with an agent or downloading.
pub should_sleep_tab_lem :
    (c : TabSleepCandidate) (last_active_at now after_minutes : ℕ)
    → (should_sleep_tab c last_active_at now after_minutes ≡ true) ↔ (
        (0 < after_minutes)
        × (last_active_at + after_minutes * 60000 ≤ now)
        × (c.active ≡ false)
        × (c.sleeping ≡ false)
        × (c.loading ≡ false)
        × (c.audible ≡ false)
        × (c.media_playing ≡ false)
        × (c.granted ≡ false)
        × (c.downloading ≡ false))
unfolding should_sleep_tab can_sleep_tab
should_sleep_tab_lem c last_active_at now after_minutes = ground arith

-- A tab that is not put to sleep with a shorter delay is not put to sleep with a longer one, and a
-- tab that is put to sleep would also be put to sleep later.
pub should_sleep_tab_mono :
    (c : TabSleepCandidate) (last_active_at now later shorter longer : ℕ)
    → now ≤ later
    → 0 < shorter
    → shorter ≤ longer
    → should_sleep_tab c last_active_at now longer ≡ true
    → should_sleep_tab c last_active_at later shorter ≡ true
unfolding should_sleep_tab
should_sleep_tab_mono c last_active_at now later shorter longer h p q e =
    let less : shorter * 60000 ≤ longer * 60000 = omega arith in ground (arith, less)
