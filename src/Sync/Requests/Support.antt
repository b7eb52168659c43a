-- ===== src/Sync/Requests/Support.antt =====
-- services/sync/src/requestSupport.ts: which routes are public, the token, and the body of a request.
use locus_browser.Base.{
  ℕ, ◌*◌, ◌==◌, ltb, leb, String, Bool, false, ◌&&◌, ◌||◌, Option, none, some, List, map, str_eq,
  if◌then◌else◌, Result, ok, err,
}
use locus_browser.Base.Patterns.{is_word, all_codes, after, utf16_length}
use text.Mathlib.Text.{starts_with}
use locus_browser.Sync.Models.{AuthenticatedDevice, OpaqueSyncRecord, Collection}
use locus_browser.Sync.Requests.Values.{Failure, too_large, invalid_json, thrown, Request, Platform}

abbrev pub max_body_bytes : ℕ
max_body_bytes = 3 * 1024 * 1024

unfoldable pub is_public_route : String → String → Bool
is_public_route method path =
    str_eq path "/health"
    || (str_eq method "POST" && str_eq path "/v1/devices/enrollments")
    || str_eq path "/v1/devices/enrollments/claim"
    || starts_with path "/v1/auth/passkeys/"

-- `/^Bearer ([A-Za-z0-9_-]{20})$/`, or "".
unfoldable pub bearer_of : Option String → String
unfolding all_codes utf16_length
bearer_of none = ""
bearer_of (some token) =
    if all_codes is_word token && leb 20 (utf16_length token) then token else ""

abbrev pub or_empty_text : Option String → String
or_empty_text none = ""
or_empty_text (some s) = s

unfoldable pub bearer_token : Option String → String
unfolding bearer_of after
bearer_token authorization = bearer_of (after "Bearer " (or_empty_text authorization))

unfoldable pub required_device : Option AuthenticatedDevice → Result Failure AuthenticatedDevice
required_device none = err (thrown "Device authentication required")
required_device (some device) = ok device

-- `RecordSchema`, before its size is known.
pub record RecordBody : Type 0 where
  pub version : ℕ
  pub account_id : String
  pub device_id : String
  pub collection : Collection
  pub record_id : String
  pub clock : String
  pub nonce : String
  pub ciphertext : String
  pub tombstone : Bool

-- `Number.isFinite(declaredLength) && declaredLength > MAX_BODY_BYTES`.
abbrev pub exceeds : Option ℕ → Bool
exceeds none = false
exceeds (some length) = ltb max_body_bytes length

module _ {Json : Type 0} (p : Platform Json) where
  abbrev pub parsed : Option Json → Result Failure Json
  parsed none = err invalid_json
  parsed (some value) = ok value

  unfoldable pub request_body : Request Json → Result Failure Json
  request_body request =
      if exceeds request.content_length
      then err too_large
      else if ltb max_body_bytes request.size
      then err too_large
      else if request.size == 0
      then ok p.undefined
      else parsed request.content

  abbrev pub sized : RecordBody → OpaqueSyncRecord
  sized r = record {
    version = r.version;
    account_id = r.account_id;
    device_id = r.device_id;
    collection = r.collection;
    record_id = r.record_id;
    clock = r.clock;
    nonce = r.nonce;
    ciphertext = r.ciphertext;
    tombstone = r.tombstone;
    size = p.base64_size r.ciphertext;
  }

  unfoldable pub sync_records : List RecordBody → List OpaqueSyncRecord
  sync_records = map sized
