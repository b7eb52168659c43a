-- ===== src/Recording/Tests.antt =====
-- apps/desktop/src/main/RecordingCoordinator.ts on concrete calls and messages.
use locus_browser.Base.{◌≡◌, ◌≢◌, refl, String, true, false, none, some, [], ◌∷◌, ◌++◌, arith}
use locus_browser.Recording.State.{
  idle, starting, recording, CaptureTarget, Coordinator, new, send, suspend, restart,
  accept_media_message, can_accept_recorded_media,
}
use locus_browser.Recording.Messages.{
  started, frame, handle_open, handle_message, accept_frame, trim_frames,
}
use locus_browser.Recording.Control.{
  StartOptions, start_begin, start_loaded, open_recorder, start_ready, pause, refresh_loaded,
  stop_begin, stop_end,
}
use locus_browser.Recording.Quiet.{
  CalmRun, here, then_calm, message_came, AddsNothing, CalmRun-pause,
}
use locus_browser.Recording.Races.{refresh_loaded-pause, refresh_loaded-stop_end, start_accepted}
use locus_browser.Recording.Invariant.{
  Inv, Reach, fresh, next, begun, window_opened, ready_to_start, calm, coordinator-Inv,
}

-- Any function stands for the hash.
abbrev digest_example : String → String
digest_example s = s

abbrev page : CaptureTarget
page = record { tab_id = "tab-1"; web_contents_id = 7; url = "https://example.org/" }

abbrev options : StartOptions
options = record { tab_audio = true; microphone = false; save_video = false }

abbrev begun_once : Coordinator
begun_once = start_ready (open_recorder (start_loaded options page "recording-1" 100 new))

abbrev running : Coordinator
running = handle_message digest_example (some page) 200 started begun_once

running-Reach : Reach digest_example running
running-Reach =
    next
      (next (next (next fresh (begun options page "recording-1" 100)) window_opened) ready_to_start)
      (calm (message_came (some page) 200 started))

running_id : running.id ≢ none
unfolding handle_message handle_open start_ready open_recorder start_loaded send
running_id = λ e. cc

running_busy : running.status ≢ idle
unfolding handle_message handle_open start_ready open_recorder start_loaded send
running_busy = λ e. cc

running_settled : running.refreshing ≡ false
unfolding handle_message handle_open start_ready open_recorder start_loaded send
running_settled = refl

running_alive : running.disposed ≡ false
unfolding handle_message handle_open start_ready open_recorder start_loaded send
running_alive = refl

running_window : running.recorder ≡ true
unfolding handle_message handle_open start_ready open_recorder start_loaded send
running_window = refl

-- A frame is kept a second after the masks were read, and no later.
kept_frame :
    (handle_message digest_example (some page) 1100 (frame "now" "jpeg") running).frames
    ≡ record { captured_at = "now"; content = "jpeg"; hash = "jpeg" } ∷ []
unfolding handle_message handle_open start_ready open_recorder start_loaded send
    accept_media_message can_accept_recorded_media accept_frame trim_frames
kept_frame = refl

late_frame :
    (handle_message digest_example (some page) 1101 (frame "now" "jpeg") running).frames ≡ []
unfolding handle_message handle_open start_ready open_recorder start_loaded send
    accept_media_message can_accept_recorded_media accept_frame trim_frames
late_frame = refl

abbrev after_started : Coordinator
after_started =
    handle_message digest_example (some page) 400 started (pause "Paused by you" running)

started_in_vain : CalmRun digest_example (pause "Paused by you" running) after_started
started_in_vain =
    then_calm (pause "Paused by you" running) here (message_came (some page) 400 started)

CalmRun-pause_example :
    (after_started.status ≢ recording)
    × (after_started.manual_pause ≡ true)
    × AddsNothing running after_started
CalmRun-pause_example =
    CalmRun-pause "Paused by you" running after_started running_id running_busy running_settled
      started_in_vain

refresh_loaded-pause_example :
    let t = refresh_loaded page false 500 (pause "Paused by you" running) in
    let u = handle_message digest_example (some page) 600 started t in
    (t.sent ≡ running.sent ++ (suspend "Paused by you" ∷ restart ∷ []))
    × (t.status ≡ starting)
    × (u.status ≡ recording)
    × (u.capturing ≡ true)
    × (u.manual_pause ≡ true)
refresh_loaded-pause_example =
    refresh_loaded-pause digest_example (some page) 500 600 "Paused by you" page false running
      running_id running_busy running_alive running_window

refresh_loaded-stop_end_example :
    let t = refresh_loaded page false 500 (stop_end running) in
    (t.status ≡ starting)
    × (t.id ≡ none)
    × (start_begin false (some page) t ≡ none)
    × (stop_begin t ≡ (false, t))
    × (pause "Paused by you" t ≡ t)
refresh_loaded-stop_end_example =
    refresh_loaded-stop_end page false false 500 (some page) "Paused by you" running

start_accepted_example :
    let t =
      handle_message digest_example
        (some page)
        200
        started
        (start_ready (open_recorder (start_loaded options page "recording-1" 100 new))) in
    (t.status ≡ recording)
    × (t.id ≡ some "recording-1")
    × (t.manual_pause ≡ false)
    × (accept_media_message (some page) 900 t ≡ true)
start_accepted_example =
    start_accepted digest_example options page "recording-1" 100 200 900 new refl (omega arith)

coordinator-Inv_example : Inv running
coordinator-Inv_example = coordinator-Inv running-Reach
