-- ===== src/Sync/Manager/Tests/Data.antt =====
-- A service that connects everybody, and a device whose vault and cryptography do nothing.
use locus_browser.Base.{String, true, false, none, some, [], ◌∷◌, ok, err}
use locus_browser.Sync.Models.{settings}
use locus_browser.Sync.Manager.{
  SyncService, Device, DeviceKeyPair, EncryptedRecord, SyncManager, PendingEnrollment,
  StoredSyncAccount, connected, ParsedUrl,
}
use locus_browser.Sync.Manager.Ceremony.{PendingCeremony}

abbrev token : String
token = "0123456789abcdef0123456789abcdef"

abbrev verifier : EncryptedRecord
verifier = record {
  version = 1;
  account_id = "account";
  device_id = "laptop";
  collection = settings;
  record_id = "locus-account-key-verifier-v1";
  clock = "1700000000000-000000-laptop";
  nonce = "n";
  ciphertext = "c";
  tombstone = false;
}

abbrev pub kind_service : SyncService
kind_service = record {
  started = λ calls. ok (record {
    ceremony_id = "1";
    auth_url = "https://sync.example/v1/auth/passkeys/ceremonies/1";
  });
  claimed =
      λ calls. ok (record { account_id = "account"; device_id = "laptop"; device_token = token });
  key_state = λ calls. ok (record { version = 2; wrapped_account_key = some "wrapped" });
  accepted = λ calls. ok 1;
  page = λ calls. ok (record { records = verifier ∷ []; cursor = 1; has_more = false });
  devices = λ calls. ok [];
  delivery = λ calls. ok (
      some (record {
        account_id = "account";
        device_id = "laptop";
        device_token = token;
        wrapped_account_key = token;
        key_version = 2;
      }));
  done = λ calls. ok tt;
}

-- The same, but the account key cannot be set.
abbrev pub keyless_service : SyncService
keyless_service = record kind_service { key_state = λ calls. err "no key" }

abbrev origin : ParsedUrl
origin = record {
  protocol = "https:";
  username = "";
  password = "";
  hostname = "sync.example";
  pathname = "/v1/auth/passkeys/ceremonies/1";
  search = "";
  hash = "";
  origin = "https://sync.example";
}

abbrev pub laptop : Device
laptop = record {
  name = "Laptop";
  parse_url = λ text. some origin;
  is_uuid = λ text. true;
  cipher_available = true;
  cipher_encrypt = λ text. ok text;
  cipher_decrypt = λ text. ok text;
  wrap_account_key = λ key public_key. ok key;
  unwrap_account_key = λ wrapped device. ok "key";
  encrypt_verifier = λ key account_id device_id record_id clock. ok verifier;
  decrypt_record = λ key r. some (record { purpose = "locus-account-key"; version = 1 });
  create_recovery_key = λ key. key;
  first_clock = λ device_id. "1700000000000-000000-laptop";
}

abbrev pair : DeviceKeyPair
pair = record { public_key = "public"; private_key = "private" }

abbrev pub signing_in : PendingCeremony
signing_in = record {
  service_url = "https://sync.example";
  device_id = "laptop";
  device = pair;
  account_key = "key";
  recovery_key = none;
}

abbrev pub enrolling : PendingEnrollment
enrolling = record {
  service_url = "https://sync.example";
  enrollment_id = "e";
  approval_code = "c";
  device_id = "laptop";
  device = pair;
  expires_at = 100;
}

abbrev pub idle : SyncManager
idle = record {
  account = none;
  transient_status = none;
  transient_service_url = none;
  last_error = none;
  pending_enrollment = none;
  devices = [];
  shown_keys = [];
  sent = [];
}

abbrev pub old_account : StoredSyncAccount
old_account = record {
  service_url = "https://sync.example";
  account_id = "account";
  device_id = "laptop";
  device_public_key = "public";
  encrypted_device_private_key = "private";
  encrypted_device_token = token;
  encrypted_account_key = "old";
  key_version = 1;
  status = connected;
  last_error = none;
}
