-- ===== src/Recording/Media.antt =====
-- Which media `RecordingCoordinator` (apps/desktop/src/main/RecordingCoordinator.ts) keeps.
use locus_browser.Base.{
  ℕ, ◌+◌, ◌≤◌, ◌≡◌, ◌≢◌, refl, true, Option, none, some, List, [], ◌∷◌, arith, eq_iff, length,
}
use locus_browser.Recording.State.{
  Status, recording, CaptureTarget, Frame, Coordinator, is_status, same_target,
  accept_media_message, can_accept_recorded_media,
}
use locus_browser.Recording.Messages.{total_size, trim_frames}

-- A recording runs and captures, the tab in front is the one that is recorded, at the address that
-- its masks were read for, and the masks are at most a second old.
pub record IsAcceptable (current : Option CaptureTarget) (now : ℕ) (s : Coordinator) : Type 0 where
  pub runs : s.status ≡ recording
  pub captures : s.capturing ≡ true
  pub has_id : s.id ≢ none
  pub fresh : now ≤ s.redactions_at + 1000
  pub there :
      (c : CaptureTarget) × (t : CaptureTarget) × (current ≡ some c)
      × (s.target ≡ some t)
      × (c.tab_id ≡ t.tab_id)
      × (c.web_contents_id ≡ t.web_contents_id)
      × (c.url ≡ t.url)

is_status_sound : (s t : Status) → is_status s t ≡ true → s ≡ t
is_status_sound s t h = ground arith

same_target_sound :
    (o p : Option CaptureTarget)
    → same_target o p ≡ true
    → (c : CaptureTarget) × (t : CaptureTarget) × (o ≡ some c)
      × (p ≡ some t)
      × (c.tab_id ≡ t.tab_id)
      × (c.web_contents_id ≡ t.web_contents_id)
      × (c.url ≡ t.url)
same_target_sound none p h = cc
same_target_sound (some c) none h = cc
same_target_sound (some c) (some t) h = (
  c,
  t,
  refl,
  refl,
  ground (arith, eq_iff c.tab_id t.tab_id),
  ground arith,
  ground (arith, eq_iff c.url t.url),
)

pub accept_media_message_sound :
    (current : Option CaptureTarget) (now : ℕ) (s : Coordinator)
    → accept_media_message current now s ≡ true
    → IsAcceptable current now s
unfolding accept_media_message can_accept_recorded_media
accept_media_message_sound current now s h =
    let same : same_target current s.target ≡ true = ground arith in
    record {
      runs = is_status_sound s.status recording (ground arith);
      captures = ground arith;
      has_id = ground arith;
      fresh = ground arith;
      there = same_target_sound current s.target same;
    }

-- What a message leaves of the frames, the audio and the video.
abbrev pub KeepsMedia : Coordinator → Coordinator → Type 0
KeepsMedia s t = (t.frames ≡ s.frames) × (t.speech ≡ s.speech) × (t.video ≡ s.video)

-- The frames that are kept are at most four, of ten million characters together.
abbrev pub AreBounded : List Frame → Type 0
AreBounded fs = (length fs ≤ 4) × (total_size fs ≤ 10000000)

pub trim_frames-AreBounded : (fs : List Frame) → AreBounded (trim_frames fs)
unfolding trim_frames
trim_frames-AreBounded [] = (omega arith, omega arith)
trim_frames-AreBounded (f ∷ fs) =
    let (few, small) = trim_frames-AreBounded fs in (ground (arith, few), ground (arith, small))
