-- ===== src/Surfaces/Tests.antt =====
-- apps/desktop/src/main/SurfaceStatePublisher.ts on concrete requests.
use locus_browser.Base.{◌≡◌, refl, has}
use locus_browser.Surfaces.{work, both, publication_scope_for_command}

scopes_found :
    (publication_scope_for_command "select-work-file" ≡ work)
    × (publication_scope_for_command "open-settings" ≡ both)
unfolding publication_scope_for_command has
scopes_found = (refl, refl)
