-- ===== src/Sync/Requests/Records.antt =====
-- The routes under /v1/sync of services/sync/src/requestHandler.ts.
use locus_browser.Base.{
  ◌>>=◌, ◌>>◌, ltb, Bool, Option, [], any, if◌then◌else◌, pure, gets, modify, from_result,
}
use locus_browser.Sync.Models.{AuthenticatedDevice, OpaqueSyncRecord}
use locus_browser.Sync.Memory.Records.{push, pull, delete_cloud_data}
use locus_browser.Sync.Memory.Account.{cleanup_expired}
use locus_browser.Sync.Requests.Values.{
  Request, Platform, Draws, Response, error, pushed, pulled, deleted, json,
}
use locus_browser.Sync.Requests.Support.{required_device, sync_records}
use locus_browser.Sync.Requests.Checks.{max_record_bytes}
use locus_browser.Sync.Requests.Schemas.{push_schema, pull_query}
use locus_browser.Sync.Requests.Effects.{Handler, call, parse, parse_body}

-- `record.size > MAX_RECORD_BYTES`.
abbrev pub is_oversized : OpaqueSyncRecord → Bool
is_oversized r = ltb max_record_bytes r.size

module _ {Json : Type 0} (p : Platform Json) (request : Request Json) (draws : Draws) where
  -- POST /v1/sync/push
  unfoldable pub push_route : Option AuthenticatedDevice → Handler Response
  push_route device = do
    body ← parse_body p (push_schema p) request
    let records = sync_records p body.records
    if any is_oversized records then pure (json (error "A record exceeds 2 MB") 413 []) else do
      current ← from_result (required_device device)
      result ← call (push current body.key_version records (draws.now 1))
      modify (cleanup_expired (draws.now 2))
      pure (json (pushed result) 200 [])

  -- GET /v1/sync/pull
  unfoldable pub pull_route : Option AuthenticatedDevice → Handler Response
  pull_route device = do
    (cursor, limit) ← parse (pull_query p request.query)
    current ← from_result (required_device device)
    result ← gets (λ s. pull s current.account_id cursor limit)
    pure (json (pulled result) 200 [])

-- DELETE /v1/sync/cloud-data
unfoldable pub cloud_data_route : Option AuthenticatedDevice → Handler Response
cloud_data_route device = do
  current ← from_result (required_device device)
  modify (delete_cloud_data current.account_id)
  pure (json deleted 200 [])
