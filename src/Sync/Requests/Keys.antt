-- ===== src/Sync/Requests/Keys.antt =====
-- The routes for devices and account keys of services/sync/src/requestHandler.ts.
use locus_browser.Base.{
  ◌>>=◌, ◌>>◌, String, Option, [], any, map, str_eq, if◌then◌else◌, pure, gets, modify, from_result,
  or_throw,
}
use locus_browser.Sync.Models.{AuthenticatedDevice, SyncDevice}
use locus_browser.Sync.Memory.Devices.{list_devices, revoke_device}
use locus_browser.Sync.Memory.Keys.{
  account_key_state, initialize_account_key, set_device_wrapped_key, rotate_account_key,
}
use locus_browser.Sync.Memory.Account.{delete_account}
use locus_browser.Sync.Requests.Values.{
  Request, Platform, Draws, Response, error, devices, key_state, key_version, rotated, revoked,
  deleted, thrown, json,
}
use locus_browser.Sync.Requests.Support.{required_device, sync_records}
use locus_browser.Sync.Requests.Schemas.{
  first_key_schema, wrapped_key_schema, rotation_schema, device_id_schema,
}
use locus_browser.Sync.Requests.Effects.{Handler, call, parse, parse_body}
use locus_browser.Sync.Requests.Records.{is_oversized}

-- GET /v1/devices
unfoldable pub devices_route : Option AuthenticatedDevice → Handler Response
devices_route device = do
  current ← from_result (required_device device)
  listed ← gets (λ s. list_devices s current.account_id)
  pure (
      json (devices (map (λ (d : SyncDevice). (d, str_eq d.device_id current.device_id)) listed))
        200 [])

-- GET /v1/account/key
unfoldable pub key_state_route : Option AuthenticatedDevice → Handler Response
key_state_route device = do
  current ← from_result (required_device device)
  state ← call (account_key_state current.account_id current.device_id)
  pure (json (key_state state) 200 [])

module _ {Json : Type 0} (p : Platform Json) (request : Request Json) (draws : Draws) where
  -- PUT /v1/account/key
  unfoldable pub first_key_route : Option AuthenticatedDevice → Handler Response
  first_key_route device = do
    body ← parse_body p (first_key_schema p) request
    current ← from_result (required_device device)
    call (initialize_account_key current.account_id body.expected_version body.version body.wraps)
    pure (json (key_version body.version) 200 [])

  -- PUT /v1/devices/self/key
  unfoldable pub wrapped_key_route : Option AuthenticatedDevice → Handler Response
  wrapped_key_route device = do
    (version, wrapped) ← parse_body p (wrapped_key_schema p) request
    current ← from_result (required_device device)
    call (set_device_wrapped_key current.account_id current.device_id version wrapped)
    pure (json (key_version version) 200 [])

  -- POST /v1/account/key/rotate
  unfoldable pub rotation_route : Option AuthenticatedDevice → Handler Response
  rotation_route device = do
    body ← parse_body p (rotation_schema p) request
    let records = sync_records p body.records
    if any is_oversized records then pure (json (error "A record exceeds 2 MB") 413 []) else do
      current ← from_result (required_device device)
      cursor ← call (
          rotate_account_key current body.expected_version body.version body.wraps records
            (draws.now 1))
      pure (json (rotated cursor) 200 [])

  -- DELETE /v1/devices/:id, with the segment of the path
  unfoldable pub revocation_route : String → Option AuthenticatedDevice → Handler Response
  revocation_route segment device = do
    decoded ← or_throw (p.decode_uri segment) (thrown "URI malformed")
    id ← parse (device_id_schema decoded)
    current ← from_result (required_device device)
    if str_eq id current.device_id
        then pure (json (error "Disconnect this device from Locus Browser instead") 400 [])
        else do modify (revoke_device current.account_id id); pure (json revoked 200 [])

-- DELETE /v1/devices/self
unfoldable pub self_revocation_route : Option AuthenticatedDevice → Handler Response
self_revocation_route device = do
  current ← from_result (required_device device)
  modify (revoke_device current.account_id current.device_id)
  pure (json revoked 200 [])

-- DELETE /v1/account
unfoldable pub account_route : Option AuthenticatedDevice → Handler Response
account_route device = do
  current ← from_result (required_device device)
  modify (delete_account current.account_id)
  pure (json deleted 200 [])
