-- ===== src/Policy/Tests.antt =====
-- The small decisions of apps/desktop/src/main on concrete values.
use locus_browser.Base.{◌≡◌, refl, true, false, some, [], ◌∷◌, has}
use locus_browser.Policy.Commands.{requires_shell_sender}
use locus_browser.Policy.Recovery.{trusted_surface_recovery}
use locus_browser.Policy.Attachments.{
  detect_image_mime_type, starts_with_bytes, has_byte, gif, attachment_budget_issue, too_large,
}

shell_only :
    (requires_shell_sender "start-recording" ≡ true)
    × (requires_shell_sender "attach-walrus-memory" ≡ false)
unfolding requires_shell_sender has
shell_only = (refl, refl)

fourth_crash : (trusted_surface_recovery (1000 ∷ 2000 ∷ 3000 ∷ []) 60500).recover ≡ false
unfolding trusted_surface_recovery
fourth_crash = refl

minute_later : (trusted_surface_recovery (1000 ∷ 2000 ∷ 3000 ∷ []) 61001).recover ≡ true
unfolding trusted_surface_recovery
minute_later = refl

gif_found : detect_image_mime_type (0x47 ∷ 0x49 ∷ 0x46 ∷ 0x38 ∷ 0x39 ∷ 0x61 ∷ 0 ∷ []) ≡ some gif
unfolding detect_image_mime_type starts_with_bytes has_byte
gif_found = refl

one_too_large : attachment_budget_issue [] (15728641 ∷ []) ≡ some too_large
unfolding attachment_budget_issue
one_too_large = refl
