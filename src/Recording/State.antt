-- ===== src/Recording/State.antt =====
-- The private fields of `RecordingCoordinator` (apps/desktop/src/main/RecordingCoordinator.ts), what it
-- sends to the recorder window, and `canAcceptRecordedMedia` of apps/desktop/src/shared/recordingPolicy.ts.
use locus_browser.Base.{
  ℕ, ◌+◌, String, Bool, true, false, ◌&&◌, ◌||◌, Option, none, some, List, [], ◌∷◌, ◌++◌, ◌==◌, leb,
  str_eq, if◌then◌else◌,
}

pub data Status : Type 0 where
  idle starting recording paused stopping error : Status

pub record CaptureTarget : Type 0 where
  pub tab_id : String
  pub web_contents_id : ℕ
  pub url : String

pub record Sources : Type 0 where
  pub tab_audio : Bool
  pub microphone : Bool

pub record Frame : Type 0 where
  pub captured_at : String
  pub content : String
  pub hash : String

pub data AudioSource : Type 0 where
  tab microphone : AudioSource

pub record Audio : Type 0 where
  pub source : AudioSource
  pub start_ms : ℕ
  pub end_ms : ℕ
  pub content : String

-- What `#send` is called with.
pub data Event : Type 0 where
  start restart redactions stop : Event
  suspend : String → Event

pub record Coordinator : Type 0 where
  pub sources : Sources
  pub status : Status
  pub id : Option String
  pub started_at : Option ℕ
  pub save_video : Bool
  pub manual_pause : Bool
  pub paused_reason : Option String
  pub error_message : Option String
  pub target : Option CaptureTarget
  pub capturing : Bool
  pub redactions_at : ℕ
  pub frames : List Frame
  -- whether there is a recorder window that is not destroyed
  pub recorder : Bool
  pub recorder_ready : Bool
  pub timer : Bool
  pub refreshing : Bool
  -- the audio that is queued for transcription, with the tab it came from
  pub speech : List (Audio × Option String)
  -- whether `stop` waits for the recorder to say that it has stopped
  pub stop_waiting : Bool
  -- what was written to the stream, if it is open
  pub video : Option (List String)
  pub video_mime_type : String
  pub disposed : Bool
  -- whether this coordinator is `RecordingCoordinator.#active`
  pub active : Bool
  -- what the recorder window was sent
  pub sent : List Event

-- The fields' first values.
abbrev pub new : Coordinator
new = record {
  sources = record { tab_audio = true; microphone = true };
  status = idle;
  id = none;
  started_at = none;
  save_video = false;
  manual_pause = false;
  paused_reason = none;
  error_message = none;
  target = none;
  capturing = false;
  redactions_at = 0;
  frames = [];
  recorder = false;
  recorder_ready = false;
  timer = false;
  refreshing = false;
  speech = [];
  stop_waiting = false;
  video = none;
  video_mime_type = "video/webm";
  disposed = false;
  active = false;
  sent = [];
}

abbrev pub is_status : Status → Status → Bool
is_status idle idle = true
is_status starting starting = true
is_status recording recording = true
is_status paused paused = true
is_status stopping stopping = true
is_status error error = true
is_status _ _ = false

abbrev pub is_there {ℓ} : {A : Type ℓ} → Option A → Bool
is_there none = false
is_there (some a) = true

abbrev pub send_if : Bool → Event → Coordinator → Coordinator
send_if true e s = record s { sent = s.sent ++ (e ∷ []) }
send_if false e s = s

-- `#send`.
unfoldable pub send : Event → Coordinator → Coordinator
send e s = send_if s.recorder e s

-- `canAcceptRecordedMedia`; `now - redactionsAt <= 1_000` without a number below zero.
unfoldable pub can_accept_recorded_media : Status → Bool → ℕ → ℕ → Bool → Bool
can_accept_recorded_media status capturing redactions_at now target_matches =
    is_status status recording && capturing && target_matches && leb now (redactions_at + 1000)

-- `targetMatches` of `#acceptMediaMessage`.
abbrev pub same_target : Option CaptureTarget → Option CaptureTarget → Bool
same_target none _ = false
same_target (some c) none = false
same_target (some c) (some t) =
    str_eq c.tab_id t.tab_id && (c.web_contents_id == t.web_contents_id) && str_eq c.url t.url

-- `#acceptMediaMessage`; `current` is what `getTarget` answers.
unfoldable pub accept_media_message : Option CaptureTarget → ℕ → Coordinator → Bool
accept_media_message current now s =
    is_there s.id
    && can_accept_recorded_media s.status s.capturing s.redactions_at now
        (same_target current s.target)

-- `#suspend`.
unfoldable pub suspend_capture : String → Bool → Coordinator → Coordinator
suspend_capture reason manual s =
    if is_there s.id
    then record (send (suspend reason) s) {
      manual_pause = manual || s.manual_pause;
      paused_reason = some reason;
      status = paused;
      target = none;
      redactions_at = 0;
      capturing = false;
    }
    else s
