-- ===== src/Surfaces/Coalescing.antt =====
-- Requests in one turn are published together: apps/desktop/src/main/SurfaceStatePublisher.ts.
use mathlib.Core.Path.{ap₂}
use locus_browser.Base.{
  ◌≡◌, ◌∙◌, refl, sym, ap, Bool, true, false, List, [], ◌∷◌, ◌++◌, arith, if◌then◌else◌,
}
use locus_browser.Surfaces.{
  Scope, Surfaces, nowhere, surfaces_of, union, Publisher, request, flush, run_microtask,
  request_all,
}

-- The state between turns: nothing is pending, and no microtask waits.
abbrev pub between : List Surfaces → Publisher
between published = record {
  pending = nowhere;
  scheduled = false;
  queued = false;
  published = published;
}

-- The surfaces of several scopes.
abbrev pub all_surfaces : List Scope → Surfaces
all_surfaces [] = nowhere
all_surfaces (scope ∷ scopes) = union (surfaces_of scope) (all_surfaces scopes)

same_surfaces : (a b : Surfaces) → a.on_shell ≡ b.on_shell → a.on_work ≡ b.on_work → a ≡ b
same_surfaces a b p q = ap₂ (λ x y. the_surfaces x y) p q
  where
    the_surfaces : Bool → Bool → Surfaces
    the_surfaces x y = record { on_shell = x; on_work = y }

union_assoc : (a b c : Surfaces) → union (union a b) c ≡ union a (union b c)
union_assoc a b c = same_surfaces _ _ (ground arith) (ground arith)

union-nowhere : (a : Surfaces) → union a nowhere ≡ a
union-nowhere a = same_surfaces _ _ (ground arith) (ground arith)

requested :
    (scope : Scope) (s : Publisher)
    → s.scheduled ≡ true
    → request scope s ≡ record s { pending = union s.pending (surfaces_of scope) }
unfolding request
requested scope s h =
    let t : Publisher = record s { pending = union s.pending (surfaces_of scope) } in
    ap (λ b. if b then t else record t { scheduled = true; queued = true }) h

-- More requests while a microtask waits add to what it will publish.
request_more :
    (scopes : List Scope) (s : Publisher)
    → s.scheduled ≡ true
    → request_all scopes s ≡ record s { pending = union s.pending (all_surfaces scopes) }
unfolding request_all
request_more [] s h = sym (ap (λ p. record s { pending = p }) (union-nowhere s.pending))
request_more (scope ∷ scopes) s h =
    ap (request_all scopes) (requested scope s h)
    ∙ request_more scopes (record s { pending = union s.pending (surfaces_of scope) }) h
    ∙ ap (λ p. record s { pending = p })
        (union_assoc s.pending (surfaces_of scope) (all_surfaces scopes))

-- However many requests come in one turn, they are published in one call, with exactly the surfaces that
-- were asked for; then nothing is pending, and a turn without a request publishes nothing.
pub run_microtask-request_all :
    (scope : Scope) (scopes : List Scope) (published : List Surfaces)
    → (run_microtask (request_all (scope ∷ scopes) (between published))
        ≡ between (published ++ (all_surfaces (scope ∷ scopes) ∷ [])))
      × (run_microtask (between published) ≡ between published)
unfolding run_microtask flush request_all request
run_microtask-request_all scope scopes published = (
  ap run_microtask (
      request_more scopes
        (record {
          pending = surfaces_of scope;
          scheduled = true;
          queued = true;
          published = published;
        })
        refl),
  refl,
)
