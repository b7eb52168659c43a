-- ===== src/Recording/Races.antt =====
-- Calls of `RecordingCoordinator` (apps/desktop/src/main/RecordingCoordinator.ts) in the usual order,
-- and those that a refresh overtakes while it waits for the privacy masks.
use locus_browser.Base.{
  ℕ, ◌+◌, ◌≤◌, ◌≡◌, ◌≢◌, ◌∙◌, refl, sym, ap, subst, String, Bool, true, false, not, ◌||◌, ==_refl,
  Option, none, some, [], ◌∷◌, ◌++◌, arith, leb, eq_refl, Bool-cases, inl, inr, append_assoc,
}
use locus_browser.Recording.State.{
  idle, starting, recording, CaptureTarget, Coordinator, is_status, is_there, send, restart,
  suspend, suspend_capture, same_target, accept_media_message, can_accept_recorded_media,
}
use locus_browser.Recording.Messages.{started, handle_open, handle_message}
use locus_browser.Recording.Control.{
  StartOptions, start_begin, start_loaded, start_ready, open_recorder, pause, changed,
  refresh_loaded, stop_begin, stop_end,
}
use locus_browser.Recording.Quiet.{send_lem}

-- A refresh that goes on when nothing is captured asks the recorder to start again.
restarted :
    (target : CaptureTarget) (force : Bool) (now : ℕ) (s : Coordinator)
    → s.capturing ≡ false
    → let t = refresh_loaded target force now s in
      (t.status ≡ starting)
      × (t.id ≡ s.id)
      × (t.manual_pause ≡ s.manual_pause)
      × (t.disposed ≡ s.disposed)
unfolding refresh_loaded
restarted target force now s h =
    let t : Coordinator = record s {
      target = some target;
      paused_reason = none;
      redactions_at = now;
      refreshing = false;
      status = starting;
    } in
    let sent = send_lem restart t in
    let again : (not s.capturing || changed s.target target || force) ≡ true = ground (arith, h) in
    rw again (
      ap (λ x. x.status) sent,
      ap (λ x. x.id) sent,
      ap (λ x. x.manual_pause) sent,
      ap (λ x. x.disposed) sent,
    )

suspended_by_user :
    (reason : String) (s : Coordinator)
    → s.id ≢ none
    → s.status ≢ idle
    → let t = pause reason s in
      (t.capturing ≡ false) × (t.id ≡ s.id) × (t.manual_pause ≡ true) × (t.disposed ≡ s.disposed)
unfolding pause suspend_capture
suspended_by_user reason s has_id busy =
    let going : (not (is_there s.id) || is_status s.status idle) ≡ false = ground arith in
    let there : is_there s.id ≡ true = ground arith in
    let sent = send_lem (suspend reason) (record s { manual_pause = true }) in
    rw (going, there) (refl, ap (λ x. x.id) sent, refl, ap (λ x. x.disposed) sent)

-- What the two send.
sent_again :
    (target : CaptureTarget) (force : Bool) (now : ℕ) (s : Coordinator)
    → s.capturing ≡ false
    → s.recorder ≡ true
    → (refresh_loaded target force now s).sent ≡ s.sent ++ (restart ∷ [])
unfolding refresh_loaded send
sent_again target force now s h open_window =
    let again : (not s.capturing || changed s.target target || force) ≡ true = ground (arith, h) in
    rw (again, open_window) refl

sent_suspend :
    (reason : String) (s : Coordinator)
    → s.id ≢ none
    → s.status ≢ idle
    → s.recorder ≡ true
    → ((pause reason s).sent ≡ s.sent ++ (suspend reason ∷ [])) × ((pause reason s).recorder ≡ true)
unfolding pause suspend_capture send
sent_suspend reason s has_id busy open_window =
    let going : (not (is_there s.id) || is_status s.status idle) ≡ false = ground arith in
    let there : is_there s.id ≡ true = ground arith in rw (going, there, open_window) (refl, refl)

starts :
    (digest : String → String) (current : Option CaptureTarget) (now : ℕ) (s : Coordinator)
    → s.status ≡ starting
    → s.id ≢ none
    → s.disposed ≡ false
    → let t = handle_message digest current now started s in
      (t.status ≡ recording) × (t.capturing ≡ true) × (t.manual_pause ≡ s.manual_pause)
unfolding handle_message handle_open
starts digest current now s starting_now has_id alive =
    let going : (not (is_there s.id) || not (is_status s.status starting)) ≡ false = ground arith in
    rw (alive, going) (refl, refl, refl)

-- A pause of a recording that is not idle, whose recorder window is there and whose coordinator is not
-- disposed of, is undone by a refresh that was waiting for the masks when the user paused: the window is
-- sent the request to suspend and then the one to start again, and when it says that it has started,
-- the recording runs and captures although the pause by the user is still set.
pub refresh_loaded-pause :
    (digest : String → String) (current : Option CaptureTarget) (now later : ℕ) (reason : String)
    (target : CaptureTarget) (force : Bool) (s : Coordinator)
    → s.id ≢ none
    → s.status ≢ idle
    → s.disposed ≡ false
    → s.recorder ≡ true
    → let t = refresh_loaded target force now (pause reason s) in
      let u = handle_message digest current later started t in
      (t.sent ≡ s.sent ++ (suspend reason ∷ restart ∷ []))
      × (t.status ≡ starting)
      × (u.status ≡ recording)
      × (u.capturing ≡ true)
      × (u.manual_pause ≡ true)
refresh_loaded-pause digest current now later reason target force s has_id busy alive open_window =
    let p = pause reason s in
    let (off, same_id, by_user, same_disposed) = suspended_by_user reason s has_id busy in
    let (status, id, manual, disposed) = restarted target force now p off in
    let (runs, captures, still) =
      starts digest current later (refresh_loaded target force now p) status
        (subst (λ x. x ≢ none) (sym (id ∙ same_id)) has_id) (disposed ∙ same_disposed ∙ alive) in
    let (suspended, window) = sent_suspend reason s has_id busy open_window in
    let sent : (refresh_loaded target force now p).sent
        ≡ s.sent ++ (suspend reason ∷ restart ∷ []) =
      sent_again target force now p off window
      ∙ ap (λ es. es ++ (restart ∷ [])) suspended
      ∙ append_assoc s.sent (suspend reason ∷ []) (restart ∷ []) in
    (sent, status, runs, captures, still ∙ manual ∙ by_user)

no_id_no_call :
    (s : Coordinator) (reason : String)
    → s.id ≡ none
    → (stop_begin s ≡ (false, s)) × (pause reason s ≡ s)
unfolding stop_begin pause
no_id_no_call s reason h = rw h (refl, refl)

busy_no_start :
    (others : Bool) (current : Option CaptureTarget) (s : Coordinator)
    → s.status ≡ starting
    → start_begin others current s ≡ none
unfolding start_begin
busy_no_start others current s h = rw h refl

-- A refresh that goes on after the recording was stopped leaves a coordinator that seems to start but
-- has no recording: from then on `start` refuses, and neither `stop` nor `pause` does anything.
pub refresh_loaded-stop_end :
    (target : CaptureTarget) (force others : Bool) (now : ℕ) (current : Option CaptureTarget)
    (reason : String) (s : Coordinator)
    → let t = refresh_loaded target force now (stop_end s) in
      (t.status ≡ starting)
      × (t.id ≡ none)
      × (start_begin others current t ≡ none)
      × (stop_begin t ≡ (false, t))
      × (pause reason t ≡ t)
unfolding stop_end
refresh_loaded-stop_end target force others now current reason s =
    let (status, id, _, _) = restarted target force now (stop_end s) refl in
    let t = refresh_loaded target force now (stop_end s) in
    let (no_stop, no_pause) = no_id_no_call t reason id in
    (status, id, busy_no_start others current t status, no_stop, no_pause)

same_target_refl : (t : CaptureTarget) → same_target (some t) (some t) ≡ true
same_target_refl t = rw (eq_refl t.tab_id, ==_refl t.web_contents_id, eq_refl t.url) refl

-- A recording that was started runs once the recorder says that it has started, and its media are
-- accepted for a second after its masks were read, as long as the tab in front stays the same.
pub start_accepted :
    (digest : String → String) (options : StartOptions) (target : CaptureTarget) (id : String)
    (now later at : ℕ) (s : Coordinator)
    → s.disposed ≡ false
    → at ≤ now + 1000
    → let t =
        handle_message digest
          (some target)
          later
          started
          (start_ready (open_recorder (start_loaded options target id now s))) in
      (t.status ≡ recording)
      × (t.id ≡ some id)
      × (t.manual_pause ≡ false)
      × (accept_media_message (some target) at t ≡ true)
unfolding handle_message handle_open start_ready open_recorder start_loaded send
    accept_media_message can_accept_recorded_media
start_accepted digest options target id now later at s alive soon =
    let fresh : leb at (now + 1000) ≡ true = ground arith in
    elim (Bool-cases s.recorder) [
      | inl e ↦ rw (alive, e) (refl, refl, refl, rw (same_target_refl target, fresh) refl)
      | inr e ↦ rw (alive, e) (refl, refl, refl, rw (same_target_refl target, fresh) refl)
    ]
