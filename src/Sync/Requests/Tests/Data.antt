-- ===== src/Sync/Requests/Tests/Data.antt =====
-- A platform for the tests of services/sync/src/requestHandler.ts, whose values are functions of their
-- properties, and a request to push a record.
use locus_browser.Base.{
  ℕ, String, Bool, true, false, Option, none, some, List, [], ◌∷◌, str_eq, if◌then◌else◌, ok,
  NoColon, arith,
}
use locus_browser.Sync.Requests.Values.{Request, Platform, Draws}
use locus_browser.Sync.Requests.Support.{RecordBody}
use locus_browser.Sync.Requests.Schemas.{PushBody}
use locus_browser.Sync.Models.{bookmarks}

-- An array holds at most one value here.
pub data Value : Type 0 where
  nothing : Value
  word : String → Value
  count : ℕ → Value
  flag : Bool → Value
  empty_array : Value
  one : Value → Value
  object : (String → Value) → Value

abbrev properties : Value → Option (String → Value)
properties (object f) = some f
properties _ = none

abbrev is_nothing : Value → Bool
is_nothing nothing = true
is_nothing _ = false

abbrev as_string : Value → Option String
as_string (word s) = some s
as_string _ = none

abbrev as_natural : Value → Option ℕ
as_natural (count n) = some n
as_natural _ = none

abbrev as_boolean : Value → Option Bool
as_boolean (flag b) = some b
as_boolean _ = none

abbrev as_array : Value → Option (List Value)
as_array empty_array = some []
as_array (one v) = some (v ∷ [])
as_array _ = none

abbrev pub bearer : String
bearer = "abcdefghijklmnopqrstuvwxyz"

abbrev pub platform : Platform Value
platform = record {
  object = properties;
  is_undefined = is_nothing;
  undefined = nothing;
  string = as_string;
  natural = as_natural;
  boolean = as_boolean;
  array = as_array;
  is_uuid = λ s. true;
  trim = λ s. s;
  coerce_natural = λ s. none;
  hash_token = λ s. if str_eq s bearer then "laptop-hash" else s;
  base64_size = λ s. 4;
  decode_uri = λ s. some s;
  encode_uri = λ s. s;
  config = record {
    rp_name = "Locus Sync";
    rp_id = "localhost";
    origin = "http://localhost:8787";
    callback_scheme = "locus-browser";
  };
  registration_options = λ config user name. ok (record { challenge = "c"; options_json = "{}" });
  authentication_options = λ config. ok (record { challenge = "c"; options_json = "{}" });
  verify_registration = λ config challenge response. ok none;
  verify_authentication = λ config challenge response known. ok none;
}

abbrev pub draws : Draws
draws = record { uuid = λ i. "uuid"; secret = λ i. "secret"; now = λ i. 100 }

pub draws-NoColon : (i : ℕ) → NoColon (draws.uuid i)
draws-NoColon i = (omega arith, (omega arith, (omega arith, (omega arith, tt))))

abbrev pub clock : String
clock = "0000000000007-000000-laptop"

abbrev record_value : Value
record_value = object (λ k.
    if str_eq k "accountId"
    then word "ada"
    else if str_eq k "deviceId"
    then word "laptop"
    else if str_eq k "collection"
    then word "bookmarks"
    else if str_eq k "recordId"
    then word "b2"
    else if str_eq k "clock"
    then word clock
    else if str_eq k "nonce"
    then word "nonce-nonce-nonce"
    else if str_eq k "ciphertext"
    then word "text"
    else nothing)

abbrev pub push_value : Value
push_value = object (λ k.
    if str_eq k "keyVersion"
    then count 1
    else if str_eq k "records"
    then one record_value
    else nothing)

abbrev pub pushed_body : RecordBody
pushed_body = record {
  version = 1;
  account_id = "ada";
  device_id = "laptop";
  collection = bookmarks;
  record_id = "b2";
  clock = clock;
  nonce = "nonce-nonce-nonce";
  ciphertext = "text";
  tombstone = false;
}

abbrev pub push_body : PushBody
push_body = record { key_version = 1; records = pushed_body ∷ [] }

abbrev pub push_request : Request Value
push_request = record {
  method = "POST";
  path = "/v1/sync/push";
  query = [];
  authorization = some "Bearer abcdefghijklmnopqrstuvwxyz";
  content_length = some 200;
  size = 200;
  content = some push_value;
}

-- No token.
abbrev pub anonymous : Request Value
anonymous = record push_request { authorization = none }
