-- ===== src/Recording/Messages.antt =====
-- `handleRendererMessage` of apps/desktop/src/main/RecordingCoordinator.ts, for the messages that the
-- schema admits. `current` is what `getTarget` answers, `now` the reading of the clock, and `digest` the
-- hash of node's crypto module.
use Prim.Native.String.{count}
use locus_browser.Base.{
  ℕ, ◌+◌, String, Bool, true, false, not, ◌&&◌, ◌||◌, Option, none, some, List, [], ◌∷◌, ◌++◌, ltb,
  str_eq, length, if◌then◌else◌,
}
use locus_browser.Recording.State.{
  starting, recording, stopping, error, CaptureTarget, Frame, Audio, AudioSource, tab, microphone,
  Coordinator, is_status, is_there, accept_media_message,
}

pub data Message : Type 0 where
  ready started suspended stopped : Message
  frame : String → String → Message
  audio : Audio → Message
  video_chunk : String → String → Message
  failed : String → Message

-- The data lengths together; the data are base64, so that characters are code units.
abbrev pub total_size : List Frame → ℕ
total_size [] = 0
total_size (f ∷ fs) = count f.content + total_size fs

-- `while (frames.length > 4 || total > 10_000_000) frames.shift()`.
unfoldable pub trim_frames : List Frame → List Frame
trim_frames [] = []
trim_frames (f ∷ fs) =
    let rest = trim_frames fs in
    if ltb 4 (length (f ∷ fs)) || ltb 10000000 (total_size (f ∷ fs)) then rest else f ∷ fs

-- `frames.at(-1)?.hash === hash`.
abbrev pub last_has_hash : List Frame → String → Bool
last_has_hash [] hash = false
last_has_hash (f ∷ []) hash = str_eq f.hash hash
last_has_hash (f ∷ g ∷ fs) hash = last_has_hash (g ∷ fs) hash

unfoldable pub accept_frame : (String → String) → String → String → Coordinator → Coordinator
accept_frame digest captured_at content s =
    if last_has_hash s.frames (digest content) then s else record s {
      frames = trim_frames (
          s.frames
          ++ (record { captured_at = captured_at; content = content; hash = digest content } ∷ []));
    }

-- `message.source === "tab" && !tabAudio || message.source === "microphone" && !microphone`, negated.
abbrev pub wants : Coordinator → AudioSource → Bool
wants s tab = s.sources.tab_audio
wants s microphone = s.sources.microphone

abbrev pub tab_of : Option CaptureTarget → Option String
tab_of none = none
tab_of (some t) = some t.tab_id

unfoldable pub accept_audio : Audio → Coordinator → Coordinator
accept_audio a s =
    if wants s a.source then record s { speech = s.speech ++ ((a, tab_of s.target) ∷ []) } else s

-- `stream.write(data)`.
abbrev pub write_chunk : String → String → Option (List String) → Coordinator → Coordinator
write_chunk mime content none s = s
write_chunk mime content (some chunks) s = record s {
  video_mime_type = mime;
  video = some (chunks ++ (content ∷ []));
}

unfoldable pub accept_chunk : Bool → String → String → Coordinator → Coordinator
accept_chunk acceptable mime content s =
    if s.save_video && acceptable then write_chunk mime content s.video s else s

-- What follows the guard on `#disposed`.
unfoldable pub handle_open :
    (String → String) → Option CaptureTarget → ℕ → Message → Coordinator → Coordinator
handle_open digest current now ready s = record s { recorder_ready = true }
handle_open digest current now started s =
    if not (is_there s.id) || not (is_status s.status starting)
    then s
    else record s { capturing = true; status = recording; paused_reason = none }
handle_open digest current now suspended s = record s { capturing = false }
handle_open digest current now stopped s = record s { capturing = false; stop_waiting = false }
handle_open digest current now (failed text) s = record s {
  capturing = false;
  status = error;
  error_message = some text;
  paused_reason = some "Capture stopped because of an error";
}
handle_open digest current now (video_chunk mime content) s =
    accept_chunk
      (is_status s.status stopping
        || (is_status s.status recording && accept_media_message current now s))
      mime content s
handle_open digest current now (frame captured_at content) s =
    if accept_media_message current now s then accept_frame digest captured_at content s else s
handle_open digest current now (audio a) s =
    if accept_media_message current now s then accept_audio a s else s

unfoldable pub handle_message :
    (String → String) → Option CaptureTarget → ℕ → Message → Coordinator → Coordinator
handle_message digest current now message s =
    if s.disposed then s else handle_open digest current now message s
