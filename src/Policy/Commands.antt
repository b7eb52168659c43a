-- ===== src/Policy/Commands.antt =====
-- apps/desktop/src/main/BrowserCommandPolicy.ts: which surface may send a command. A command is its `type`.
use locus_browser.Base.{
  String, Bool, true, false, ◌≡◌, ◌⊎◌, refl, subst, List, [], ◌∷◌, arith, has, any, str_eq, eq_iff,
  inl, inr, Bool-cases,
}

abbrev pub shell_only_commands : List String
shell_only_commands =
    "open-settings" ∷ "close-settings" ∷ "set-accent-color" ∷ "set-local-models-enabled"
    ∷ "set-semantic-recall-enabled" ∷ "clear-semantic-recall" ∷ "delete-recall-document"
    ∷ "add-recall-exclusion" ∷ "remove-recall-exclusion" ∷ "connect-walrus-memory"
    ∷ "disconnect-walrus-memory" ∷ "manage-walrus-delegates" ∷ "begin-walrus-page-memory"
    ∷ "begin-walrus-research-memory" ∷ "cancel-walrus-memory-draft" ∷ "save-walrus-memory-draft"
    ∷ "restore-walrus-memory" ∷ "configure-walrus-client-encrypted" ∷ "set-walrus-memory-mode"
    ∷ "generate-research-board" ∷ "export-research-board" ∷ "prepare-walrus-research-bundle"
    ∷ "publish-walrus-research-bundle" ∷ "cancel-walrus-research-bundle" ∷ "delete-research-board"
    ∷ "apply-tab-steward" ∷ "save-resume-bundle" ∷ "delete-resume-bundle" ∷ "execute-palette-action"
    ∷ "complete-onboarding" ∷ "autofill-credential" ∷ "save-pending-credential"
    ∷ "dismiss-pending-credential" ∷ "delete-credential" ∷ "set-extension-developer-mode"
    ∷ "install-unpacked-extension" ∷ "install-signed-extension" ∷ "refresh-extension-gallery"
    ∷ "install-gallery-extension" ∷ "set-extension-enabled" ∷ "rollback-extension"
    ∷ "remove-extension" ∷ "begin-sync-registration" ∷ "begin-sync-sign-in"
    ∷ "begin-sync-device-enrollment" ∷ "check-sync-device-enrollment"
    ∷ "cancel-sync-device-enrollment" ∷ "copy-sync-pairing-code" ∷ "approve-sync-device"
    ∷ "revoke-sync-device" ∷ "rotate-sync-recovery-key" ∷ "sync-now" ∷ "disconnect-sync"
    ∷ "delete-sync-cloud-data" ∷ "delete-sync-account" ∷ "configure-speech"
    ∷ "download-speech-model" ∷ "test-work-provider-credential" ∷ "remove-work-provider-credential"
    ∷ "start-recording" ∷ "pause-recording" ∷ "resume-recording" ∷ "stop-recording"
    ∷ "set-recording-source" ∷ "delete-recording-transcript" ∷ "reveal-recording-video" ∷ []

abbrev pub work_only_commands : List String
work_only_commands =
    "open-walrus-memory-source" ∷ "attach-walrus-memory" ∷ "remove-walrus-memory-attachment" ∷ []

unfoldable pub requires_shell_sender : String → Bool
requires_shell_sender command = has shell_only_commands command

unfoldable pub requires_work_sender : String → Bool
requires_work_sender command = has work_only_commands command

none_of_any :
    (p : String → Bool) (xs : List String) (x : String)
    → any p xs ≡ false
    → has xs x ≡ true
    → p x ≡ false
unfolding has
none_of_any p [] x h k = cc
none_of_any p (y ∷ ys) x h k = elim (Bool-cases (str_eq y x)) [
  | inl e ↦ subst (λ z. p z ≡ false) ((eq_iff y x).0 e) (ground arith)
  | inr e ↦ none_of_any p ys x (ground arith) (ground arith)
]

apart : any (has work_only_commands) shell_only_commands ≡ false
unfolding has
apart = refl

-- No command is reserved for both the shell and the work surface, so that every command has a surface
-- that may send it.
pub requires-apart :
    (command : String)
    → (requires_shell_sender command ≡ false) ⊎ (requires_work_sender command ≡ false)
unfolding requires_shell_sender requires_work_sender
requires-apart command = elim (Bool-cases (has shell_only_commands command)) [
  | inr e ↦ inl e
  | inl e ↦ inr (none_of_any (has work_only_commands) shell_only_commands command apart e)
]
