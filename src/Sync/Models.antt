-- ===== src/Sync/Models.antt =====
-- services/sync/src/models.ts: the values that the repository stores and returns. Times are
-- milliseconds, and an optional property is an `Option`.
use locus_browser.Base.{ℕ, String, Bool, Option, List}

pub record AuthenticatedDevice : Type 0 where
  pub account_id : String
  pub device_id : String

pub data Collection : Type 0 where
  bookmarks history tab_groups remote_tabs settings extensions : Collection

-- The text that stands for a collection in the source's union type and in the keys.
abbrev pub collection_name : Collection → String
collection_name bookmarks = "bookmarks"
collection_name history = "history"
collection_name tab_groups = "tab-groups"
collection_name remote_tabs = "remote-tabs"
collection_name settings = "settings"
collection_name extensions = "extensions"

pub record OpaqueSyncRecord : Type 0 where
  pub version : ℕ
  pub account_id : String
  pub device_id : String
  pub collection : Collection
  pub record_id : String
  pub clock : String
  pub nonce : String
  pub ciphertext : String
  pub tombstone : Bool
  pub size : ℕ

-- `extends OpaqueSyncRecord`: `r.clock` is `r.body.clock`.
pub record CursorRecord : Type 0 where
  pub body : OpaqueSyncRecord
  pub open body use *
  pub cursor : ℕ

pub record Enrollment : Type 0 where
  pub id : String
  pub account_id : Option String
  pub device_id : String
  pub device_name : String
  pub public_key : String
  pub code_hash : String
  pub expires_at : ℕ
  pub wrapped_account_key : Option String
  pub device_token : Option String

pub data CeremonyKind : Type 0 where
  registration authentication : CeremonyKind

pub record PasskeyCeremony : Type 0 where
  pub id : String
  pub kind : CeremonyKind
  pub account_id : Option String
  pub user_id : Option String
  pub display_name : Option String
  pub challenge : String
  pub options_json : String
  pub device_id : String
  pub device_name : String
  pub device_public_key : String
  pub expires_at : ℕ

pub record StoredPasskey : Type 0 where
  pub credential_id : String
  pub account_id : String
  pub user_id : String
  pub public_key : String
  pub counter : ℕ
  pub device_type : String
  pub backed_up : Bool
  pub transports : List String

pub record PasskeyClaim : Type 0 where
  pub id : String
  pub code_hash : String
  pub account_id : String
  pub device_id : String
  pub device_token : String
  pub expires_at : ℕ

pub record RegisteredDevice : Type 0 where
  pub account_id : String
  pub device_id : String
  pub name : String
  pub public_key : String
  pub token_hash : String
  pub wrapped_account_key : Option String
  pub key_version : ℕ
  pub created_at : ℕ
  pub last_seen_at : ℕ

pub record SyncDevice : Type 0 where
  pub device_id : String
  pub name : String
  pub public_key : String
  pub key_version : ℕ
  pub created_at : ℕ
  pub last_seen_at : ℕ

pub record AccountKeyWrap : Type 0 where
  pub device_id : String
  pub wrapped_account_key : String
