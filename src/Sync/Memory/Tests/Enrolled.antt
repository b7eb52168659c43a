-- ===== src/Sync/Memory/Tests/Enrolled.antt =====
-- Enrollments, tokens, passkey ceremonies and claims of services/sync/src/memoryRepository.ts on concrete
-- values.
use locus_browser.Base.{ok, err, refl, ◌≡◌, ◌≤◌, ℕ, some, none, true, arith, get, set, str_ne}
use locus_browser.Sync.Models.{
  Enrollment, PasskeyCeremony, PasskeyClaim, CeremonyKind, registration,
}
use locus_browser.Sync.Memory.State.{Repository, enrollment_unavailable}
use locus_browser.Sync.Memory.Devices.{
  enroll_token, authenticate, create_enrollment, approve_enrollment, approve, pending, is_stale,
  take_enrollment, or_zero,
}
use locus_browser.Sync.Memory.Devices.Enrolling.{take-approve_enrollment}
use locus_browser.Sync.Memory.Passkeys.{
  create_passkey_ceremony, consume_passkey_ceremony, passkey_ceremony, consume, same_kind,
  create_passkey_claim,
}
use locus_browser.Sync.Memory.Passkeys.OneShot.{consume_passkey_ceremony_once}
use locus_browser.Sync.Memory.Tests.Data.{enrolled_both}

abbrev tablet : Enrollment
tablet = record {
  id = "e1";
  account_id = none;
  device_id = "tablet";
  device_name = "Tablet";
  public_key = "tablet-key";
  code_hash = "code";
  expires_at = 900;
  wrapped_account_key = none;
  device_token = none;
}

abbrev asked : Repository
asked = create_enrollment tablet enrolled_both

abbrev approved : Repository
approved = (approve_enrollment "ada" "e1" "code" "wrapped" "token" "tablet-hash" 100 asked).1

approved_tablet :
    approve_enrollment "ada" "e1" "code" "wrapped" "token" "tablet-hash" 100 asked
    ≡ (ok tt, approved)
unfolding approve_enrollment approve pending is_stale create_enrollment enroll_token get set
approved_tablet = refl

asked_tablet : get asked.enrollments "e1" ≡ some tablet
unfolding create_enrollment enroll_token get set
asked_tablet = refl

take-approve_enrollment_example :
    let (r, u) = take_enrollment "e1" "code" 200 approved in
    ((authenticate "tablet-hash" 200 approved).0
      ≡ ok (some (record { account_id = "ada"; device_id = "tablet" })))
    × (r
        ≡ ok (
            some (record {
              account_id = "ada";
              device_id = "tablet";
              wrapped_account_key = "wrapped";
              device_token = "token";
              key_version = or_zero (get asked.key_versions "ada");
            })))
    × (take_enrollment "e1" "code" 200 u ≡ (ok none, u))
take-approve_enrollment_example =
    take-approve_enrollment "ada" "e1" "code" "wrapped" "token" "tablet-hash" 100 200 asked approved
      tablet (str_ne "ada" "" refl) (str_ne "wrapped" "" refl) (str_ne "token" "" refl) asked_tablet
      (omega arith) approved_tablet

wrong_code :
    approve_enrollment "ada" "e1" "guess" "wrapped" "token" "tablet-hash" 100 asked
    ≡ (err enrollment_unavailable, asked)
unfolding approve_enrollment approve pending is_stale create_enrollment enroll_token get set
wrong_code = refl

abbrev ceremony : PasskeyCeremony
ceremony = record {
  id = "c1";
  kind = registration;
  account_id = some "ada";
  user_id = some "user";
  display_name = some "Ada";
  challenge = "challenge";
  options_json = "{}";
  device_id = "laptop";
  device_name = "Laptop";
  device_public_key = "key";
  expires_at = 500;
}

abbrev in_ceremony : Repository
in_ceremony = create_passkey_ceremony ceremony enrolled_both

abbrev after_ceremony : Repository
after_ceremony = (consume_passkey_ceremony "c1" registration 500 in_ceremony).1

consumed :
    consume_passkey_ceremony "c1" registration 500 in_ceremony
    ≡ (ok (some ceremony), after_ceremony)
unfolding consume_passkey_ceremony passkey_ceremony consume create_passkey_ceremony enroll_token get
    set
consumed = refl

consume_passkey_ceremony_once_example :
    (get in_ceremony.ceremonies "c1" ≡ some ceremony)
    × (same_kind ceremony.kind registration ≡ true)
    × (500 ≤ ceremony.expires_at)
    × ((kind' : CeremonyKind) (later : ℕ)
        → consume_passkey_ceremony "c1" kind' later after_ceremony ≡ (ok none, after_ceremony))
consume_passkey_ceremony_once_example =
    consume_passkey_ceremony_once "c1" registration 500 in_ceremony after_ceremony ceremony consumed

abbrev claim : PasskeyClaim
claim = record {
  id = "p1";
  code_hash = "code";
  account_id = "ada";
  device_id = "laptop";
  device_token = "token";
  expires_at = 700;
}

abbrev with_claim : Repository
with_claim = create_passkey_claim claim enrolled_both
