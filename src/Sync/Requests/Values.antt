-- ===== src/Sync/Requests/Values.antt =====
-- What the handler of services/sync/src/requestHandler.ts reads and answers, and what it uses of
-- libraries and of the platform. `Json` stands for the values that `JSON.parse` returns.
use locus_browser.Base.{ℕ, String, Bool, Option, List, Dict, Result, set, [], ◌∷◌}
use locus_browser.Sync.Models.{CeremonyKind, StoredPasskey, SyncDevice}
use locus_browser.Sync.Memory.Records.{PushResult, PullResult}
use locus_browser.Sync.Memory.Devices.{EnrollmentDetails, Delivery}
use locus_browser.Sync.Memory.Passkeys.{ClaimDelivery}
use locus_browser.Sync.Memory.Keys.{KeyState}

-- What the handler's `catch` tells apart.
pub data Failure : Type 0 where
  -- `RequestSizeError`, `RequestValidationError` and `z.ZodError`
  too_large invalid_json invalid_request : Failure
  -- another `Error`, with its message
  thrown : String → Failure

pub record Request (Json : Type 0) : Type 0 where
  -- in upper case
  pub method : String
  -- `url.pathname`
  pub path : String
  -- `Object.fromEntries(url.searchParams)`
  pub query : Dict String
  pub authorization : Option String
  -- the header's number, if it is there and finite
  pub content_length : Option ℕ
  -- `body.byteLength`
  pub size : ℕ
  -- what `JSON.parse` makes of the body, if it does not throw
  pub content : Option Json

-- `registrationOptions` or `authenticationOptions`: its challenge, and its `JSON.stringify`.
pub record CeremonyOptions : Type 0 where
  pub challenge : String
  pub options_json : String

-- `PasskeyResponseSchema`.
pub record PasskeyResponse (Json : Type 0) : Type 0 where
  pub id : String
  pub raw_id : String
  pub response : Json
  pub client_extension_results : Option Json
  pub authenticator_attachment : Option String

pub record VerifiedCredential : Type 0 where
  pub id : String
  pub public_key : String
  pub counter : ℕ
  pub device_type : String
  pub backed_up : Bool
  pub transports : List String

pub record PasskeyConfig : Type 0 where
  pub rp_name : String
  pub rp_id : String
  pub origin : String
  pub callback_scheme : String

-- The schema library, the platform and the passkey toolkit.
pub record Platform (Json : Type 0) : Type 0 where
  -- `z.object`: the properties of an object, `undefined` for an absent one
  pub object : Json → Option (String → Json)
  pub is_undefined : Json → Bool
  -- a request without a body
  pub undefined : Json
  pub string : Json → Option String
  -- `z.number().int().nonnegative()`
  pub natural : Json → Option ℕ
  pub boolean : Json → Option Bool
  pub array : Json → Option (List Json)
  -- `z.string().uuid()`, after `z.string()`
  pub is_uuid : String → Bool
  pub trim : String → String
  -- `z.coerce.number().int().nonnegative()`, of a text
  pub coerce_natural : String → Option ℕ
  pub hash_token : String → String
  -- `Buffer.byteLength(text, "base64url")`
  pub base64_size : String → ℕ
  pub decode_uri : String → Option String
  pub encode_uri : String → String
  pub config : PasskeyConfig
  pub registration_options : PasskeyConfig → String → String → Result Failure CeremonyOptions
  pub authentication_options : PasskeyConfig → Result Failure CeremonyOptions
  -- the credential, if it is verified
  pub verify_registration :
      PasskeyConfig → String → PasskeyResponse Json → Result Failure (Option VerifiedCredential)
  -- the new counter, if the passkey is verified
  pub verify_authentication :
      PasskeyConfig → String → PasskeyResponse Json → StoredPasskey → Result Failure (Option ℕ)

-- The random values and the readings of the clock that one request draws, in the order of the calls.
pub record Draws : Type 0 where
  pub uuid : ℕ → String
  -- `randomBytes(n).toString("base64url")`
  pub secret : ℕ → String
  pub now : ℕ → ℕ

-- What `json` and `text` are called with.
pub data Payload : Type 0 where
  healthy approved revoked deleted : Payload
  error : String → Payload
  pushed : PushResult → Payload
  pulled : PullResult → Payload
  ceremony_started : String → String → Payload
  -- the options as the text that is parsed
  ceremony_options : CeremonyKind → String → Payload
  callback : String → Payload
  claimed : ClaimDelivery → Payload
  enrollment_started : String → String → ℕ → Payload
  details : EnrollmentDetails → Payload
  delivered : Delivery → Payload
  -- each device with `current`
  devices : List (SyncDevice × Bool) → Payload
  key_state : KeyState → Payload
  key_version : ℕ → Payload
  rotated : ℕ → Payload
  -- the constant texts of passkeyAuth.ts, and a short text
  client_script client_css ceremony_html : Payload
  plain : String → Payload

pub record Response : Type 0 where
  pub status : ℕ
  pub headers : Dict String
  pub body : Payload

-- `{ "content-type": …, ...headers }`.
abbrev pub with_headers : Dict String → List (String × String) → Dict String
with_headers m [] = m
with_headers m ((k, v) ∷ headers) = with_headers (set m k v) headers

unfoldable pub json : Payload → ℕ → List (String × String) → Response
json body status headers = record {
  status = status;
  headers = with_headers (("content-type", "application/json; charset=utf-8") ∷ []) headers;
  body = body;
}

unfoldable pub text : Payload → ℕ → List (String × String) → Response
text body status headers = record {
  status = status;
  headers = with_headers (("content-type", "text/plain; charset=utf-8") ∷ []) headers;
  body = body;
}
