-- ===== src/Recording/Quiet.antt =====
-- The calls and messages that a `RecordingCoordinator` (apps/desktop/src/main/RecordingCoordinator.ts)
-- meets, as steps: the parts of its methods in any order.
use locus_browser.Base.{
  ℕ, ◌≡◌, ◌≢◌, ◌⊎◌, ◌∙◌, refl, sym, ap, subst, String, Bool, true, false, not, ◌&&◌, ◌||◌, Option,
  none, some, List, [], arith, Bool-cases, inl, inr, if◌then◌else◌,
}
use locus_browser.Recording.State.{
  idle, starting, recording, stopping, CaptureTarget, Coordinator, is_status, is_there, send,
  send_if, stop, suspend, suspend_capture, AudioSource, accept_media_message,
  can_accept_recorded_media, Event,
}
use locus_browser.Recording.Messages.{
  write_chunk, Message, ready, started, suspended, stopped, frame, audio, video_chunk, failed,
  accept_chunk, handle_open, handle_message,
}
use locus_browser.Recording.Control.{
  pause, refresh_begin, refresh_loaded, refresh_failed, set_source_begin, stop_begin, stop_end,
  dispose_end,
}

module _ (digest : String → String) where
  -- Everything but the user's starting or resuming. A refresh goes on only if one has begun.
  pub data Calm (s : Coordinator) : Coordinator → Type 0 where
    message_came :
        (current : Option CaptureTarget) (now : ℕ) (m : Message)
        → Calm s (handle_message digest current now m s)
    paused_again : (reason : String) → Calm s (pause reason s)
    refresh_begun :
        (current : Option CaptureTarget) (reason : String)
        → Calm s (refresh_begin current reason s).1
    refresh_done :
        (target : CaptureTarget) (force : Bool) (now : ℕ)
        → s.refreshing ≡ true
        → Calm s (refresh_loaded target force now s)
    refresh_lost : s.refreshing ≡ true → Calm s (refresh_failed s)
    source_set :
        (source : AudioSource) (enabled : Bool) (current : Option CaptureTarget) (reason : String)
        → Calm s (set_source_begin source enabled current reason s).1
    stop_begun : Calm s (stop_begin s).1
    stop_done : Calm s (stop_end s)
    disposed_of : Calm s (dispose_end s)

  pub data CalmRun (s : Coordinator) : Coordinator → Type 0 where
    here : CalmRun s s
    then_calm : (t : Coordinator) {u : Coordinator} → CalmRun s t → Calm t u → CalmRun s u

-- Paused by the user, with no refresh under way.
abbrev pub IsQuiet : Coordinator → Type 0
IsQuiet s =
    (s.manual_pause ≡ true)
    × (s.refreshing ≡ false)
    × (is_status s.status starting ≡ false)
    × (is_status s.status recording ≡ false)

-- No audio is added, and no frame: at most the frames are cleared.
abbrev pub AddsNothing : Coordinator → Coordinator → Type 0
AddsNothing s t = (t.speech ≡ s.speech) × ((t.frames ≡ s.frames) ⊎ (t.frames ≡ []))

AddsNothing-twice : (s t u : Coordinator) → AddsNothing s t → AddsNothing t u → AddsNothing s u
AddsNothing-twice s t u (a, b) (c, d) =
    (c ∙ a, elim d [ inr e ↦ inr e | inl e ↦ elim b [ inl f ↦ inl (e ∙ f) | inr f ↦ inr (e ∙ f) ] ])

abbrev StaysQuiet : Coordinator → Coordinator → Type 0
StaysQuiet s t = IsQuiet t × AddsNothing s t

no_media :
    (current : Option CaptureTarget) (now : ℕ) (s : Coordinator)
    → IsQuiet s
    → accept_media_message current now s ≡ false
unfolding accept_media_message can_accept_recorded_media
no_media current now s (by_user, settled, not_starting, not_recording) = ground arith

same_quiet : (s : Coordinator) → IsQuiet s → StaysQuiet s s
same_quiet s q = (q, (refl, inl refl))

no_chunk :
    (acceptable : Bool) (mime content : String) (s : Coordinator)
    → IsQuiet s
    → StaysQuiet s (accept_chunk acceptable mime content s)
unfolding accept_chunk
no_chunk acceptable mime content s q = elim (Bool-cases (s.save_video && acceptable)) [
  | inr e ↦ rw e (same_quiet s q)
  | inl e ↦ rw e (written s.video)
]
  where
    written : (o : Option (List String)) → StaysQuiet s (write_chunk mime content o s)
    written none = same_quiet s q
    written (some chunks) = same_quiet s q

handle_open-IsQuiet :
    (digest : String → String) (current : Option CaptureTarget) (now : ℕ) (m : Message)
    (s : Coordinator)
    → IsQuiet s
    → StaysQuiet s (handle_open digest current now m s)
unfolding handle_open
handle_open-IsQuiet digest current now ready s q = same_quiet s q
handle_open-IsQuiet digest current now started s q =
    let closed : (not (is_there s.id) || not (is_status s.status starting)) ≡ true =
      ground (arith, q.2) in
    rw closed (same_quiet s q)
handle_open-IsQuiet digest current now suspended s q = same_quiet s q
handle_open-IsQuiet digest current now stopped s q = same_quiet s q
handle_open-IsQuiet digest current now (failed text) s (by_user, settled, _, _) =
    ((by_user, settled, refl, refl), (refl, inl refl))
handle_open-IsQuiet digest current now (video_chunk mime content) s q = no_chunk _ mime content s q
handle_open-IsQuiet digest current now (frame captured_at content) s q =
    rw (no_media current now s q) (same_quiet s q)
handle_open-IsQuiet digest current now (audio a) s q =
    rw (no_media current now s q) (same_quiet s q)

handle_message-IsQuiet :
    (digest : String → String) (current : Option CaptureTarget) (now : ℕ) (m : Message)
    (s : Coordinator)
    → IsQuiet s
    → StaysQuiet s (handle_message digest current now m s)
unfolding handle_message
handle_message-IsQuiet digest current now m s q = either s.disposed
  where
    either : (b : Bool) → StaysQuiet s (if b then s else handle_open digest current now m s)
    either true = same_quiet s q
    either false = handle_open-IsQuiet digest current now m s q

-- An event that is sent changes nothing else.
pub send_lem : (e : Event) (s : Coordinator) → send e s ≡ record s { sent = (send e s).sent }
unfolding send
send_lem e s = sent_if s.recorder
  where
    sent_if : (b : Bool) → send_if b e s ≡ record s { sent = (send_if b e s).sent }
    sent_if true = refl
    sent_if false = refl

send-quiet : (e : Event) (s : Coordinator) → IsQuiet s → StaysQuiet s (send e s)
send-quiet e s q = subst (StaysQuiet s) (sym (send_lem e s)) (same_quiet s q)

if-quiet :
    (b : Bool) (s t u : Coordinator)
    → StaysQuiet s t
    → StaysQuiet s u
    → StaysQuiet s (if b then t else u)
if-quiet true s t u h k = h
if-quiet false s t u h k = k

suspend_capture-quiet :
    (reason : String) (manual : Bool) (s : Coordinator)
    → IsQuiet s
    → StaysQuiet s (suspend_capture reason manual s)
unfolding suspend_capture
suspend_capture-quiet reason manual s q =
    let ((_, settled, _, _), same) = send-quiet (suspend reason) s q in
    let by_user : (manual || s.manual_pause) ≡ true = ground (arith, q.0) in
    if-quiet (is_there s.id) s _ s ((by_user, settled, refl, refl), same) (same_quiet s q)

stop_begin-quiet : (s : Coordinator) → IsQuiet s → StaysQuiet s (stop_begin s).1
unfolding stop_begin
stop_begin-quiet s q =
    elim (Bool-cases
      (not (is_there s.id) || is_status s.status idle || is_status s.status stopping)) [
        | inl e ↦ rw e (same_quiet s q)
        | inr e ↦ rw e (send-quiet stop _ (q.0, q.1, refl, refl))
      ]

pause-IsQuiet :
    (reason : String) (s : Coordinator)
    → s.id ≢ none
    → s.status ≢ idle
    → s.refreshing ≡ false
    → StaysQuiet s (pause reason s)
unfolding pause suspend_capture
pause-IsQuiet reason s has_id busy settled =
    let going : (not (is_there s.id) || is_status s.status idle) ≡ false = ground arith in
    let there : is_there s.id ≡ true = ground arith in
    let sent = send_lem (suspend reason) (record s { manual_pause = true }) in
    rw (going, there)
      (
        (refl, ap (λ x. x.refreshing) sent ∙ settled, refl, refl),
        (ap (λ x. x.speech) sent, inl (ap (λ x. x.frames) sent)),
      )

module _ {digest : String → String} where
  Calm-quiet : {s t : Coordinator} → Calm digest s t → IsQuiet s → StaysQuiet s t
  unfolding pause refresh_begin set_source_begin stop_end dispose_end
  Calm-quiet {s} (message_came current now m) q = handle_message-IsQuiet digest current now m s q
  Calm-quiet {s} (paused_again reason) q =
      if-quiet (not (is_there s.id) || is_status s.status idle) s s _ (same_quiet s q)
        (suspend_capture-quiet reason true (record s { manual_pause = true }) (refl, q.1, q.2, q.3))
  Calm-quiet {s} (refresh_begun current reason) q =
      let closed : (not (is_there s.id)
            || s.manual_pause
            || is_status s.status stopping
            || s.refreshing)
          ≡ true =
        ground (arith, q.0) in
      rw closed (same_quiet s q)
  Calm-quiet {s} (refresh_done target force now busy) q = absurd (cc (sym busy ∙ q.1))
  Calm-quiet {s} (refresh_lost busy) q = absurd (cc (sym busy ∙ q.1))
  Calm-quiet {s} (source_set source enabled current reason) q =
      let off : (is_there s.id && not s.manual_pause) ≡ false = ground (arith, q.0) in
      rw off (same_quiet s q)
  Calm-quiet {s} stop_begun q = stop_begin-quiet s q
  Calm-quiet {s} stop_done q = ((q.0, q.1, refl, refl), (refl, inr refl))
  Calm-quiet {s} disposed_of q = same_quiet s q

  CalmRun-quiet : {s t : Coordinator} → CalmRun digest s t → IsQuiet s → StaysQuiet s t
  CalmRun-quiet {s} here q = same_quiet s q
  CalmRun-quiet {s} {t} (then_calm u run step) q =
      let (r, before) = CalmRun-quiet run q in
      let (r', after) = Calm-quiet step r in (r', AddsNothing-twice s u t before after)

  -- Once the user pauses a recording, with no refresh under way, it stays paused: whatever messages
  -- come and whatever calls other than starting and resuming are made, it never records, and no frame
  -- and no audio are added.
  pub CalmRun-pause :
      (reason : String) (s t : Coordinator)
      → s.id ≢ none
      → s.status ≢ idle
      → s.refreshing ≡ false
      → CalmRun digest (pause reason s) t
      → (t.status ≢ recording) × (t.manual_pause ≡ true) × AddsNothing s t
  CalmRun-pause reason s t has_id busy settled run =
      let (q, kept) = pause-IsQuiet reason s has_id busy settled in
      let (r, after) = CalmRun-quiet run q in
      (
        λ e. cc (sym (ap (λ x. is_status x recording) e) ∙ r.3),
        r.0,
        AddsNothing-twice s (pause reason s) t kept after,
      )
