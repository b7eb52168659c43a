-- ===== src/Recording/Invariant.antt =====
-- What holds of a `RecordingCoordinator` (apps/desktop/src/main/RecordingCoordinator.ts) after any
-- sequence of calls and messages.
use locus_browser.Base.{
  ℕ, ◌≡◌, ◌≢◌, ◌⊎◌, refl, sym, ap, subst, String, Bool, true, false, not, ◌&&◌, ◌||◌, Option, none,
  some, List, [], arith, Bool-cases, inl, inr, if◌then◌else◌,
}
use locus_browser.Recording.State.{
  Status, idle, starting, recording, paused, stopping, CaptureTarget, Coordinator, Event, start,
  restart, redactions, stop, suspend, new, is_status, is_there, send, suspend_capture,
  accept_media_message,
}
use locus_browser.Recording.Messages.{
  Message, ready, started, suspended, stopped, frame, audio, video_chunk, failed, last_has_hash,
  accept_frame, accept_audio, accept_chunk, write_chunk, wants, handle_open, handle_message,
}
use locus_browser.Recording.Control.{
  StartOptions, start_loaded, open_recorder, start_ready, start_failed, pause, refresh_found,
  refresh_begin, changed, refresh_loaded, refresh_failed, resume_begin, set_source_begin,
  stop_begin, stop_end, dispose_end,
}
use locus_browser.Recording.Media.{AreBounded, trim_frames-AreBounded}
use locus_browser.Recording.Quiet.{
  Calm, message_came, paused_again, refresh_begun, refresh_done, refresh_lost, source_set,
  stop_begun, stop_done, disposed_of, send_lem,
}

abbrev pub may_capture : Status → Bool
may_capture starting = true
may_capture recording = true
may_capture stopping = true
may_capture _ = false

abbrev pub needs_id : Status → Bool
needs_id recording = true
needs_id paused = true
needs_id stopping = true
needs_id _ = false

-- The frames are bounded, nothing is captured while the recording is idle, paused or broken, and a
-- recording that runs, is paused or stops has an identifier.
abbrev pub Inv : Coordinator → Type 0
Inv s =
    AreBounded s.frames
    × ((s.capturing ≡ false) ⊎ (may_capture s.status ≡ true))
    × ((needs_id s.status ≡ false) ⊎ (s.id ≢ none))

send-Inv : (e : Event) (s : Coordinator) → Inv s → Inv (send e s)
send-Inv e s v = subst Inv (sym (send_lem e s)) v

if-Inv : (b : Bool) (t u : Coordinator) → Inv t → Inv u → Inv (if b then t else u)
if-Inv true t u v w = v
if-Inv false t u v w = w

accept_frame-Inv :
    (digest : String → String) (captured_at content : String) (s : Coordinator)
    → Inv s
    → Inv (accept_frame digest captured_at content s)
unfolding accept_frame
accept_frame-Inv digest captured_at content s v =
    if-Inv (last_has_hash s.frames (digest content)) s _ v (trim_frames-AreBounded _, v.1, v.2)

accept_chunk-Inv :
    (b : Bool) (mime content : String) (s : Coordinator)
    → Inv s
    → Inv (accept_chunk b mime content s)
unfolding accept_chunk
accept_chunk-Inv b mime content s v = if-Inv (s.save_video && b) _ s (written s.video) v
  where
    written : (o : Option (List String)) → Inv (write_chunk mime content o s)
    written none = v
    written (some chunks) = v

handle_open-Inv :
    (digest : String → String) (current : Option CaptureTarget) (now : ℕ) (m : Message)
    (s : Coordinator)
    → Inv s
    → Inv (handle_open digest current now m s)
unfolding handle_open accept_audio
handle_open-Inv digest current now ready s v = v
handle_open-Inv digest current now started s v =
    elim (Bool-cases (not (is_there s.id) || not (is_status s.status starting))) [
      | inl e ↦ rw e v
      | inr e ↦ let has_id : s.id ≢ none = ground arith in rw e (v.0, inr refl, inr has_id)
    ]
handle_open-Inv digest current now suspended s v = (v.0, inl refl, v.2)
handle_open-Inv digest current now stopped s v = (v.0, inl refl, v.2)
handle_open-Inv digest current now (failed text) s v = (v.0, inl refl, inl refl)
handle_open-Inv digest current now (video_chunk mime content) s v =
    accept_chunk-Inv _ mime content s v
handle_open-Inv digest current now (frame captured_at content) s v =
    if-Inv (accept_media_message current now s) _ s
      (accept_frame-Inv digest captured_at content s v) v
handle_open-Inv digest current now (audio a) s v =
    if-Inv (accept_media_message current now s) _ s (if-Inv (wants s a.source) _ s v v) v

suspend_capture-Inv :
    (reason : String) (manual : Bool) (s : Coordinator)
    → Inv s
    → Inv (suspend_capture reason manual s)
unfolding suspend_capture
suspend_capture-Inv reason manual s v = elim (Bool-cases (is_there s.id)) [
  | inr e ↦ rw e v
  | inl e ↦
      let has_id : s.id ≢ none = ground arith in
      let sent = send_lem (suspend reason) s in
      rw e (
        subst AreBounded (sym (ap (λ x. x.frames) sent)) v.0,
        inl refl,
        inr (subst (λ x. x ≢ none) (sym (ap (λ x. x.id) sent)) has_id),
      )
]

refresh_begin-Inv :
    (current : Option CaptureTarget) (reason : String) (s : Coordinator)
    → Inv s
    → Inv (refresh_begin current reason s).1
unfolding refresh_begin refresh_found
refresh_begin-Inv current reason s v =
    elim (Bool-cases
      (not (is_there s.id) || s.manual_pause || is_status s.status stopping || s.refreshing)) [
        | inl e ↦ rw e v
        | inr e ↦ rw e (found current)
      ]
  where
    found : (o : Option CaptureTarget) → Inv (refresh_found o reason s).1
    found none = suspend_capture-Inv reason false (record s { refreshing = true }) v
    found (some target) = v

refresh_loaded-Inv :
    (target : CaptureTarget) (force : Bool) (now : ℕ) (s : Coordinator)
    → Inv s
    → Inv (refresh_loaded target force now s)
unfolding refresh_loaded
refresh_loaded-Inv target force now s v =
    if-Inv (not s.capturing || changed s.target target || force) _ _
      (send-Inv restart _ (v.0, inr refl, inl refl)) (send-Inv redactions _ v)

stop_begin-Inv : (s : Coordinator) → Inv s → Inv (stop_begin s).1
unfolding stop_begin
stop_begin-Inv s v =
    elim (Bool-cases
      (not (is_there s.id) || is_status s.status idle || is_status s.status stopping)) [
        | inl e ↦ rw e v
        | inr e ↦
            let has_id : s.id ≢ none = ground arith in
            rw e (send-Inv stop _ (v.0, inr refl, inr has_id))
      ]

module _ (digest : String → String) where
  -- Every part of every method, and every message.
  pub data Step (s : Coordinator) : Coordinator → Type 0 where
    calm : {t : Coordinator} → Calm digest s t → Step s t
    begun :
        (options : StartOptions) (target : CaptureTarget) (id : String) (now : ℕ)
        → Step s (start_loaded options target id now s)
    window_opened : Step s (open_recorder s)
    ready_to_start : Step s (start_ready s)
    not_started : (text : String) → Step s (start_failed text s)
    resumed :
        (current : Option CaptureTarget) (reason : String)
        → Step s (resume_begin current reason s).1

  pub data Reach : Coordinator → Type 0 where
    fresh : Reach new
    next : {s t : Coordinator} → Reach s → Step s t → Reach t

no_frames : AreBounded []
no_frames = (omega arith, omega arith)

module _ {digest : String → String} where
  Calm-Inv : {s t : Coordinator} → Calm digest s t → Inv s → Inv t
  unfolding handle_message pause refresh_failed set_source_begin stop_end dispose_end
  Calm-Inv {s} (message_came current now m) v =
      if-Inv s.disposed s _ v (handle_open-Inv digest current now m s v)
  Calm-Inv {s} (paused_again reason) v =
      if-Inv (not (is_there s.id) || is_status s.status idle) s _ v
        (suspend_capture-Inv reason true _ v)
  Calm-Inv {s} (refresh_begun current reason) v = refresh_begin-Inv current reason s v
  Calm-Inv {s} (refresh_done target force now busy) v = refresh_loaded-Inv target force now s v
  Calm-Inv {s} (refresh_lost busy) v = suspend_capture-Inv _ false s v
  Calm-Inv {s} (source_set source enabled current reason) v =
      elim (Bool-cases (is_there s.id && not s.manual_pause)) [
        | inl e ↦ rw e (refresh_begin-Inv current reason _ (v.0, inl refl, v.2))
        | inr e ↦ rw e v
      ]
  Calm-Inv {s} stop_begun v = stop_begin-Inv s v
  Calm-Inv {s} stop_done v = (no_frames, inl refl, inl refl)
  Calm-Inv {s} disposed_of v = v

  Step-Inv : {s t : Coordinator} → Step digest s t → Inv s → Inv t
  unfolding start_loaded open_recorder start_ready start_failed resume_begin
  Step-Inv (calm step) v = Calm-Inv step v
  Step-Inv {s} (begun options target id now) v = (no_frames, inr refl, inl refl)
  Step-Inv {s} window_opened v = if-Inv s.recorder s _ v v
  Step-Inv {s} ready_to_start v = send-Inv start _ v
  Step-Inv {s} (not_started text) v =
      let sent = send_lem (suspend "Recording could not start") s in
      (subst AreBounded (sym (ap (λ x. x.frames) sent)) v.0, inl refl, inl refl)
  Step-Inv {s} (resumed current reason) v =
      elim (Bool-cases (not (is_there s.id) || is_status s.status idle)) [
        | inl e ↦ rw e v
        | inr e ↦ rw e (refresh_begin-Inv current reason _ v)
      ]

  -- Whatever is called and whatever messages come, in any order: at most four frames of ten million
  -- characters together are kept, nothing is captured while the coordinator is idle, paused or broken,
  -- and a recording that runs, is paused or stops has an identifier.
  pub coordinator-Inv : {s : Coordinator} → Reach digest s → Inv s
  coordinator-Inv fresh = (no_frames, inl refl, inl refl)
  coordinator-Inv (next r step) = Step-Inv step (coordinator-Inv r)
