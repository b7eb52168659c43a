-- ===== src/Surfaces.antt =====
-- apps/desktop/src/main/SurfaceStatePublisher.ts: state changes are published to the renderer surfaces, at
-- most once for each turn of the event loop.
pub mod Coalescing
mod Tests
use locus_browser.Base.{
  String, Bool, true, false, ◌&&◌, ◌||◌, List, [], ◌∷◌, ◌++◌, has, if◌then◌else◌,
}

pub data Scope : Type 0 where
  shell work both : Scope

abbrev pub work_only : List String
work_only =
    "set-work-mode" ∷ "set-work-panel" ∷ "choose-workspace" ∷ "request-work-plan"
    ∷ "approve-work-plan" ∷ "revise-work-plan" ∷ "refresh-work-changes" ∷ "select-work-change"
    ∷ "refresh-work-files" ∷ "select-work-file" ∷ "clear-work-terminal" ∷ "choose-work-attachments"
    ∷ "remove-work-attachment" ∷ []

unfoldable pub publication_scope_for_command : String → Scope
publication_scope_for_command command = if has work_only command then work else both

-- A set of surfaces.
pub record Surfaces : Type 0 where
  pub on_shell : Bool
  pub on_work : Bool

abbrev pub nowhere : Surfaces
nowhere = record { on_shell = false; on_work = false }

-- The surfaces of a scope.
abbrev pub surfaces_of : Scope → Surfaces
surfaces_of shell = record { on_shell = true; on_work = false }
surfaces_of work = record { on_shell = false; on_work = true }
surfaces_of both = record { on_shell = true; on_work = true }

abbrev pub union : Surfaces → Surfaces → Surfaces
union a b = record { on_shell = a.on_shell || b.on_shell; on_work = a.on_work || b.on_work }

-- `queued` tells whether a microtask that calls `flush` is waiting, and `published` is what `#publish` was
-- called with, the first call first.
pub record Publisher : Type 0 where
  pub pending : Surfaces
  pub scheduled : Bool
  pub queued : Bool
  pub published : List Surfaces

abbrev pub new_publisher : Publisher
new_publisher = record { pending = nowhere; scheduled = false; queued = false; published = [] }

unfoldable pub request : Scope → Publisher → Publisher
request scope s =
    let t : Publisher = record s { pending = union s.pending (surfaces_of scope) } in
    if s.scheduled then t else record t { scheduled = true; queued = true }

unfoldable pub flush : Publisher → Publisher
flush s =
    if s.scheduled
    then record s {
      scheduled = false;
      pending = nowhere;
      published = s.published ++ (s.pending ∷ []);
    }
    else s

-- The microtask runs.
unfoldable pub run_microtask : Publisher → Publisher
run_microtask s = flush (record s { queued = false })

unfoldable pub request_all : List Scope → Publisher → Publisher
request_all [] s = s
request_all (scope ∷ scopes) s = request_all scopes (request scope s)
