-- ===== src/Sync/Requests/Enrollments.antt =====
-- The routes under /v1/devices/enrollments of services/sync/src/requestHandler.ts.
use locus_browser.Base.{
  ◌>>=◌, ◌>>◌, ◌+◌, ◌*◌, String, Option, none, some, [], pure, gets, modify, from_result,
}
use locus_browser.Sync.Models.{AuthenticatedDevice}
use locus_browser.Sync.Memory.Devices.{
  EnrollmentDetails, Delivery, create_enrollment, enrollment_details, approve_enrollment,
  take_enrollment,
}
use locus_browser.Sync.Memory.Account.{cleanup_expired}
use locus_browser.Sync.Requests.Values.{
  Request, Platform, Draws, Response, error, enrollment_started, details, approved, delivered, json,
}
use locus_browser.Sync.Requests.Support.{required_device}
use locus_browser.Sync.Requests.Schemas.{
  enrollment_schema, approval_code_schema, approval_schema, enrollment_claim_schema, path_id_schema,
}
use locus_browser.Sync.Requests.Effects.{Handler, call, parse, parse_body}

unfoldable pub details_answer : Option EnrollmentDetails → Response
details_answer none = json (error "Enrollment is unavailable") 404 []
details_answer (some found) = json (details found) 200 []

unfoldable pub delivery_answer : Option Delivery → Response
delivery_answer none = json (error "Enrollment is not approved or has expired") 404 []
delivery_answer (some delivery) = json (delivered delivery) 200 []

module _ {Json : Type 0} (p : Platform Json) (request : Request Json) (draws : Draws) where
  -- POST /v1/devices/enrollments
  unfoldable pub enrollment_route : Handler Response
  enrollment_route = do
    modify (cleanup_expired (draws.now 1))
    body ← parse_body p (enrollment_schema p) request
    modify (
        create_enrollment (record {
          id = draws.uuid 0;
          account_id = none;
          device_id = body.device_id;
          device_name = body.device_name;
          public_key = body.device_public_key;
          code_hash = p.hash_token (draws.secret 0);
          expires_at = draws.now 2 + 10 * 60000;
          wrapped_account_key = none;
          device_token = none;
        }))
    pure (json (enrollment_started (draws.uuid 0) (draws.secret 0) 600) 200 [])

  -- POST /v1/devices/enrollments/:id/details
  unfoldable pub details_route : String → Handler Response
  unfolding details_answer
  details_route segment = do
    id ← parse (path_id_schema p segment)
    code ← parse_body p (approval_code_schema p) request
    found ← gets (λ s. enrollment_details s id (p.hash_token code) (draws.now 1))
    pure (details_answer found)

  -- POST /v1/devices/enrollments/:id/approve
  unfoldable pub approval_route : String → Option AuthenticatedDevice → Handler Response
  approval_route segment device = do
    id ← parse (path_id_schema p segment)
    (code, wrapped) ← parse_body p (approval_schema p) request
    current ← from_result (required_device device)
    call (
        approve_enrollment current.account_id id (p.hash_token code) wrapped (draws.secret 0)
          (p.hash_token (draws.secret 0)) (draws.now 1))
    pure (json approved 200 [])

  -- POST /v1/devices/enrollments/claim
  unfoldable pub enrollment_claim_route : Handler Response
  unfolding delivery_answer
  enrollment_claim_route = do
    (id, code) ← parse_body p (enrollment_claim_schema p) request
    delivery ← call (take_enrollment id (p.hash_token code) (draws.now 1))
    pure (delivery_answer delivery)
