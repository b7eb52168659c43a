-- ===== src/Recording/Control.antt =====
-- The operations of `RecordingCoordinator` (apps/desktop/src/main/RecordingCoordinator.ts). An `async`
-- method is cut at its `await`s: what other calls do in between comes between its parts. What the
-- method awaits (the privacy masks, the recorder window, the video file) is an argument of the part
-- that goes on.
use locus_browser.Base.{
  ℕ, String, Bool, true, false, not, ◌&&◌, ◌||◌, Option, none, some, [], ◌==◌, str_eq,
  if◌then◌else◌,
}
use locus_browser.Recording.State.{
  idle, starting, stopping, CaptureTarget, Sources, Coordinator, is_status, is_there, start,
  restart, redactions, stop, suspend, send, suspend_capture, AudioSource, tab, microphone,
}

-- What `start` is asked for.
pub record StartOptions : Type 0 where
  pub tab_audio : Bool
  pub microphone : Bool
  pub save_video : Bool

-- `start` up to `#loadRedactions`: the target to go on with, if it does; it returns or throws
-- otherwise, and writes nothing. `others` tells whether another
-- coordinator is active.
unfoldable pub start_begin : Bool → Option CaptureTarget → Coordinator → Option CaptureTarget
start_begin others current s = if not (is_status s.status idle) || others then none else current

-- `start` from the masks to `#ensureRecorder`.
unfoldable pub start_loaded : StartOptions → CaptureTarget → String → ℕ → Coordinator → Coordinator
start_loaded options target id now s = record s {
  sources = record { tab_audio = options.tab_audio; microphone = options.microphone };
  save_video = options.save_video;
  manual_pause = false;
  paused_reason = none;
  error_message = none;
  frames = [];
  id = some id;
  started_at = some now;
  status = starting;
  target = some target;
  redactions_at = now;
  active = true;
  video = if options.save_video then some [] else s.video;
}

-- `#ensureRecorder` up to the loading of a new window. It then waits for the window to be loaded and for the
-- message `ready`, if these have not come before.
unfoldable pub open_recorder : Coordinator → Coordinator
open_recorder s = if s.recorder then s else record s { recorder = true; recorder_ready = false }

-- `start` once the recorder window is ready.
unfoldable pub start_ready : Coordinator → Coordinator
start_ready s = record (send start s) { timer = true }

-- The `catch` block of `start`.
unfoldable pub start_failed : String → Coordinator → Coordinator
start_failed message s = record (send (suspend "Recording could not start") s) {
  timer = false;
  video = none;
  status = idle;
  id = none;
  started_at = none;
  target = none;
  capturing = false;
  redactions_at = 0;
  error_message = some message;
  active = false;
}

unfoldable pub pause : String → Coordinator → Coordinator
pause reason s =
    if not (is_there s.id) || is_status s.status idle
    then s
    else suspend_capture reason true (record s { manual_pause = true })

-- `refreshTarget` up to `#loadRedactions`: the target to go on with, if it does.
unfoldable pub refresh_found :
    Option CaptureTarget → String → Coordinator → Option CaptureTarget × Coordinator
refresh_found none reason s = (
  none,
  record (suspend_capture reason false (record s { refreshing = true })) { refreshing = false },
)
refresh_found (some target) reason s = (some target, record s { refreshing = true })

unfoldable pub refresh_begin :
    Option CaptureTarget → String → Coordinator → Option CaptureTarget × Coordinator
unfolding refresh_found
refresh_begin current reason s =
    if not (is_there s.id) || s.manual_pause || is_status s.status stopping || s.refreshing
    then (none, s)
    else refresh_found current reason s

-- `#target?.tabId !== target.tabId || #target?.webContents.id !== target.webContents.id`.
abbrev pub changed : Option CaptureTarget → CaptureTarget → Bool
changed none target = true
changed (some t) target =
    not (str_eq t.tab_id target.tab_id) || not (t.web_contents_id == target.web_contents_id)

-- `refreshTarget` once the masks are there.
unfoldable pub refresh_loaded : CaptureTarget → Bool → ℕ → Coordinator → Coordinator
refresh_loaded target force now s =
    let t : Coordinator = record s {
      target = some target;
      paused_reason = none;
      redactions_at = now;
      refreshing = false;
    } in
    if not s.capturing || changed s.target target || force
    then send restart (record t { status = starting })
    else send redactions t

-- `refreshTarget` when the masks cannot be read.
unfoldable pub refresh_failed : Coordinator → Coordinator
refresh_failed s = record (suspend_capture "Capture paused while privacy masks refresh" false s) {
  refreshing = false;
}

-- `resume` up to the masks.
unfoldable pub resume_begin :
    Option CaptureTarget → String → Coordinator → Option CaptureTarget × Coordinator
resume_begin current reason s =
    if not (is_there s.id) || is_status s.status idle
    then (none, s)
    else refresh_begin current reason (record s { manual_pause = false; error_message = none })

abbrev pub set_enabled : AudioSource → Bool → Sources → Sources
set_enabled tab enabled sources = record sources { tab_audio = enabled }
set_enabled microphone enabled sources = record sources { microphone = enabled }

-- `setSource` up to the masks.
unfoldable pub set_source_begin :
    AudioSource
    → Bool
    → Option CaptureTarget
    → String
    → Coordinator
    → Option CaptureTarget × Coordinator
set_source_begin source enabled current reason s =
    let t : Coordinator = record s { sources = set_enabled source enabled s.sources } in
    if is_there s.id && not s.manual_pause
    then refresh_begin current reason (record t { capturing = false })
    else (none, t)

-- `stop` up to the wait for the recorder: whether it goes on.
unfoldable pub stop_begin : Coordinator → Bool × Coordinator
stop_begin s =
    if not (is_there s.id) || is_status s.status idle || is_status s.status stopping
    then (false, s)
    else (
      true,
      send stop (record s {
        status = stopping;
        timer = false;
        stop_waiting = s.recorder || s.stop_waiting;
      }),
    )

-- The rest of `stop`.
unfoldable pub stop_end : Coordinator → Coordinator
stop_end s = record s {
  video = none;
  status = idle;
  id = none;
  started_at = none;
  target = none;
  capturing = false;
  paused_reason = none;
  frames = [];
  stop_waiting = false;
  active = false;
}

-- `dispose` without the stop that it may begin with.
unfoldable pub dispose_end : Coordinator → Coordinator
dispose_end s = record s { disposed = true; timer = false; recorder = false }
