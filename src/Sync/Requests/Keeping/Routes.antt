-- ===== src/Sync/Requests/Keeping/Routes.antt =====
-- The routes of services/sync/src/requestHandler.ts that need a device, and those of enrollments.
use locus_browser.Base.{
  ◌≡◌, String, Option, none, some, Result, ok, err, Exec, inl, inr, get, Option-cases, subst,
  from_result,
}
use locus_browser.Base.Keeps.{
  Keeps, Ends, Any, Keeps-bind, Keeps-then, Keeps-pure, Keeps-if, Keeps-modify, Keeps-or_throw,
  Keeps-from_result,
}
use locus_browser.Sync.Models.{AuthenticatedDevice}
use locus_browser.Sync.Memory.State.{Repository, Error}
use locus_browser.Sync.Requests.Values.{Failure, thrown, Request, Platform, Draws}
use locus_browser.Sync.Requests.Support.{required_device, request_body}
use locus_browser.Sync.Requests.Effects.{call, rethrow, parse, parse_body}
use locus_browser.Sync.Requests.Records.{push_route, pull_route, cloud_data_route}
use locus_browser.Sync.Requests.Keys.{
  devices_route, key_state_route, first_key_route, wrapped_key_route, rotation_route,
  revocation_route, self_revocation_route, account_route,
}
use locus_browser.Sync.Requests.Enrollments.{approval_route}
use locus_browser.Sync.Memory.State.{device_key}
use locus_browser.Sync.Memory.Keys.{account_key_state}
use locus_browser.Sync.Requests.Schemas.{pull_query, device_id_schema, path_id_schema}
use locus_browser.Sync.Requests.Rules.{Rules, IfSome, Stable}

pub Ends-rethrow :
    {A : Type 0} (I : Repository → Type 0) (Q : A → Type 0) (r : Result Error A) (s : Repository)
    → Ends I Q (r, s)
    → Ends {E = Failure} I Q (rethrow r, s)
unfolding rethrow
Ends-rethrow I Q (ok a) s h = h
Ends-rethrow I Q (err e) s h = h

pub Keeps-call :
    {A : Type 0} (I : Repository → Type 0) {Q : A → Type 0} {m : Exec Repository Error A}
    → Keeps I Q m
    → Keeps I Q (call m)
unfolding call
Keeps-call I {Q} {m} h = record { at = λ s i. Ends-rethrow I Q (m s).0 (m s).1 (h.at s i) }

Ends-Any :
    {A : Type 0} (I : Repository → Type 0) (r : Result Error A) (s : Repository)
    → I s
    → Ends I Any (r, s)
Ends-Any I (ok a) s i = (i, tt)
Ends-Any I (err e) s i = i

pub Stable-call :
    {A : Type 0} (I : Repository → Type 0) (m : Exec Repository Error A)
    → Stable I m
    → Keeps I Any (call m)
Stable-call I m h = Keeps-call I (record { at = λ s i. Ends-Any I (m s).0 (m s).1 (h s i) })

pub Keeps-parse : {A : Type 0} (I : Repository → Type 0) (o : Option A) → Keeps I Any (parse o)
Keeps-parse I o = Keeps-or_throw I o _ (λ _ _. tt)

pub Keeps-parse_body :
    {Json A : Type 0} (I : Repository → Type 0) (p : Platform Json) (schema : Json → Option A)
    (request : Request Json)
    → Keeps I Any (parse_body p schema request)
unfolding parse_body
Keeps-parse_body I p schema request =
    Keeps-bind I {R = Any} (Keeps-from_result I (request_body p request) (λ _ _. tt))
      (λ value _. Keeps-parse I (schema value))

required-IfSome :
    (Owner : AuthenticatedDevice → Type 0) (device : Option AuthenticatedDevice)
    (d : AuthenticatedDevice)
    → IfSome Owner device
    → required_device device ≡ ok d
    → Owner d
unfolding required_device
required-IfSome Owner none d o h = cc
required-IfSome Owner (some x) d o h = subst Owner (cc) o

pub Keeps-required :
    (I : Repository → Type 0) {Owner : AuthenticatedDevice → Type 0}
    (device : Option AuthenticatedDevice)
    → IfSome Owner device
    → Keeps I Owner (from_result (required_device device))
Keeps-required I {Owner} device o =
    Keeps-from_result I (required_device device) (λ d e. required-IfSome Owner device d o e)

-- Reading the key changes nothing.
account_key_state-Stable :
    (I : Repository → Type 0) (account_id device_id : String)
    → Stable I (account_key_state account_id device_id)
unfolding account_key_state
account_key_state-Stable I account_id device_id s i =
    elim (Option-cases (get s.devices (device_key account_id device_id))) [
      | inl e ↦ rw e i
      | inr (d, e) ↦ rw e i
    ]

module _ {Json : Type 0} (p : Platform Json) (request : Request Json) (draws : Draws)
    {I : Repository → Type 0} {Owner : AuthenticatedDevice → Type 0} (rules : Rules I Owner)
    (device : Option AuthenticatedDevice) (owner : IfSome Owner device) where
  pub push_route-Keeps : Keeps I Any (push_route p request draws device)
  unfolding push_route
  push_route-Keeps = Keeps-bind I (Keeps-parse_body I p _ request) (λ body _.
      Keeps-if I _ (Keeps-pure I tt) (
        Keeps-bind I (Keeps-required I device owner) (λ d o.
          Keeps-bind I (Stable-call I _ (rules.pushed d _ _ _ o)) (λ result _.
            Keeps-then I (Keeps-modify I (rules.cleaned (draws.now 2))) (Keeps-pure I tt)))))

  pub pull_route-Keeps : Keeps I Any (pull_route p request draws device)
  unfolding pull_route
  pull_route-Keeps = Keeps-bind I (Keeps-parse I (pull_query p request.query)) (λ query _.
      Keeps-bind I (Keeps-required I device owner) (λ d _. record { at = λ s i. (i, tt) }))

  pub first_key_route-Keeps : Keeps I Any (first_key_route p request draws device)
  unfolding first_key_route
  first_key_route-Keeps = Keeps-bind I (Keeps-parse_body I p _ request) (λ body _.
      Keeps-bind I (Keeps-required I device owner)
        (λ d o. Keeps-then I (Stable-call I _ (rules.key_initialized d _ _ _ o)) (Keeps-pure I tt)))

  pub wrapped_key_route-Keeps : Keeps I Any (wrapped_key_route p request draws device)
  unfolding wrapped_key_route
  wrapped_key_route-Keeps = Keeps-bind I (Keeps-parse_body I p _ request) (λ body _.
      Keeps-bind I (Keeps-required I device owner)
        (λ d o. Keeps-then I (Stable-call I _ (rules.key_wrapped d _ _ o)) (Keeps-pure I tt)))

  pub rotation_route-Keeps : Keeps I Any (rotation_route p request draws device)
  unfolding rotation_route
  rotation_route-Keeps = Keeps-bind I (Keeps-parse_body I p _ request) (λ body _.
      Keeps-if I _ (Keeps-pure I tt) (
        Keeps-bind I (Keeps-required I device owner) (λ d o.
          Keeps-bind I (Stable-call I _ (rules.key_rotated d _ _ _ _ _ o))
            (λ cursor _. Keeps-pure I tt))))

  pub revocation_route-Keeps :
      (segment : String) → Keeps I Any (revocation_route p request draws segment device)
  unfolding revocation_route
  revocation_route-Keeps segment =
      Keeps-bind I {R = Any}
        (Keeps-or_throw I (p.decode_uri segment) (thrown "URI malformed") (λ _ _. tt))
        (λ decoded _. Keeps-bind I (Keeps-parse I (device_id_schema decoded)) (λ id _.
          Keeps-bind I (Keeps-required I device owner) (λ d o.
            Keeps-if I _ (Keeps-pure I tt)
              (Keeps-then I (Keeps-modify I (rules.device_revoked d id o)) (Keeps-pure I tt)))))

  pub approval_route-Keeps :
      (segment : String) → Keeps I Any (approval_route p request draws segment device)
  unfolding approval_route
  approval_route-Keeps segment = Keeps-bind I (Keeps-parse I (path_id_schema p segment)) (λ id _.
      Keeps-bind I (Keeps-parse_body I p _ request) (λ body _.
        Keeps-bind I (Keeps-required I device owner) (λ d o.
          Keeps-then I (Stable-call I _ (rules.enrollment_approved d _ _ _ _ _ _ o))
            (Keeps-pure I tt))))

module _ {I : Repository → Type 0} {Owner : AuthenticatedDevice → Type 0} (rules : Rules I Owner)
    (device : Option AuthenticatedDevice) (owner : IfSome Owner device) where
  pub cloud_data_route-Keeps : Keeps I Any (cloud_data_route device)
  unfolding cloud_data_route
  cloud_data_route-Keeps =
      Keeps-bind I (Keeps-required I device owner)
        (λ d o. Keeps-then I (Keeps-modify I (rules.cloud_data_deleted d o)) (Keeps-pure I tt))

  pub devices_route-Keeps : Keeps I Any (devices_route device)
  unfolding devices_route
  devices_route-Keeps =
      Keeps-bind I (Keeps-required I device owner) (λ d _. record { at = λ s i. (i, tt) })

  pub key_state_route-Keeps : Keeps I Any (key_state_route device)
  unfolding key_state_route
  key_state_route-Keeps = Keeps-bind I (Keeps-required I device owner) (λ d _.
      Keeps-bind I
        (Stable-call I (account_key_state d.account_id d.device_id)
          (λ s i. account_key_state-Stable I d.account_id d.device_id s i))
        (λ state _. Keeps-pure I tt))

  pub self_revocation_route-Keeps : Keeps I Any (self_revocation_route device)
  unfolding self_revocation_route
  self_revocation_route-Keeps = Keeps-bind I (Keeps-required I device owner) (λ d o.
      Keeps-then I (Keeps-modify I (rules.device_revoked d d.device_id o)) (Keeps-pure I tt))

  pub account_route-Keeps : Keeps I Any (account_route device)
  unfolding account_route
  account_route-Keeps =
      Keeps-bind I (Keeps-required I device owner)
        (λ d o. Keeps-then I (Keeps-modify I (rules.account_deleted d o)) (Keeps-pure I tt))
