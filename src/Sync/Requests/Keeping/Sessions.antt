-- ===== src/Sync/Requests/Keeping/Sessions.antt =====
-- The routes of services/sync/src/requestHandler.ts for passkeys and enrollments.
use locus_browser.Base.{subst, ℕ, ◌≡◌, String, Option, none, some, arith, NoColon}
use locus_browser.Base.Keeps.{
  Keeps, Any, Keeps-bind, Keeps-then, Keeps-pure, Keeps-modify, Keeps-or_throw, Keeps-from_result,
}
use locus_browser.Sync.Models.{
  AuthenticatedDevice, PasskeyCeremony, CeremonyKind, registration, authentication, StoredPasskey,
}
use locus_browser.Sync.Memory.State.{Repository}
use locus_browser.Sync.Memory.Invariant.{IsPlainAccount}
use locus_browser.Sync.Memory.Passkeys.{passkey, passkey_ceremony}
use locus_browser.Sync.Requests.Values.{
  Request, Platform, Draws, PasskeyResponse, VerifiedCredential, thrown,
}
use locus_browser.Sync.Requests.Schemas.{
  path_id_schema, registration_schema, device_identity_schema, passkey_claim_schema,
  enrollment_schema, approval_code_schema, enrollment_claim_schema, credential_schema,
}
use locus_browser.Sync.Requests.Ceremonies.{
  registration_route, authentication_route, ceremony_page_route, ceremony_options_route,
  claim_route,
}
use locus_browser.Sync.Requests.Verification.{
  both_texts, identity_of, leave_claim, create_account, register, use_counter, use_passkey,
  sign_in_with, verify_kind, verify_consumed, verify_pending, verification_route,
}
use locus_browser.Sync.Requests.Enrollments.{
  enrollment_route, details_route, enrollment_claim_route,
}
use locus_browser.Sync.Requests.Rules.{Rules, IfSome}
use locus_browser.Sync.Requests.Keeping.Routes.{
  Keeps-call, Stable-call, Keeps-parse, Keeps-parse_body,
}

both_texts-NoColon :
    (account_id user_id : Option String) (identity : String × String)
    → IsPlainAccount account_id
    → both_texts account_id user_id ≡ some identity
    → NoColon identity.0
unfolding both_texts
both_texts-NoColon none user_id identity plain h = cc
both_texts-NoColon (some a) none identity plain h = cc
both_texts-NoColon (some a) (some u) identity plain h =
    let same : a ≡ identity.0 = ground arith in subst NoColon same plain

identity_of-NoColon :
    (c : PasskeyCeremony) (identity : String × String)
    → IsPlainAccount c.account_id
    → identity_of c ≡ some identity
    → NoColon identity.0
unfolding identity_of
identity_of-NoColon c identity plain h = both_texts-NoColon c.account_id c.user_id identity plain h

module _ {Json : Type 0} (p : Platform Json) (draws : Draws)
    (uuids : (i : ℕ) → NoColon (draws.uuid i)) {I : Repository → Type 0}
    {Owner : AuthenticatedDevice → Type 0} (rules : Rules I Owner) where
  leave_claim-Keeps :
      (c : PasskeyCeremony) (account_id : String) → Keeps I Any (leave_claim p draws c account_id)
  unfolding leave_claim
  leave_claim-Keeps c account_id = record { at = λ s i. (rules.claim_created _ s i, tt) }

  create_account-Keeps :
      (c : PasskeyCeremony) (identity : String × String) (found : Option VerifiedCredential)
      → NoColon identity.0
      → Keeps I Any (create_account p draws c identity found)
  unfolding create_account
  create_account-Keeps c (account_id, user_id) none plain = Keeps-pure I tt
  create_account-Keeps c (account_id, user_id) (some credential) plain =
      Keeps-then I (Stable-call I _ (rules.account_created account_id _ _ plain))
        (leave_claim-Keeps c account_id)

  register-Keeps :
      (c : PasskeyCeremony) (response : PasskeyResponse Json)
      → IsPlainAccount c.account_id
      → Keeps I Any (register p draws c response)
  unfolding register
  register-Keeps c response plain =
      Keeps-bind I {R = λ identity. NoColon identity.0}
        (Keeps-or_throw I (identity_of c) (thrown "Passkey registration is incomplete")
          (λ identity e. identity_of-NoColon c identity plain e))
        (λ identity plain'.
          Keeps-bind I {R = Any}
            (Keeps-from_result I (p.verify_registration p.config c.challenge response) (λ _ _. tt))
            (λ found _. create_account-Keeps c identity found plain'))

  use_counter-Keeps :
      (c : PasskeyCeremony) (known : StoredPasskey) (counter : Option ℕ)
      → Keeps I Any (use_counter p draws c known counter)
  unfolding use_counter
  use_counter-Keeps c known none = Keeps-pure I tt
  use_counter-Keeps c known (some counter) =
      Keeps-then I (Stable-call I _ (rules.passkey_used _ _ _))
        (leave_claim-Keeps c known.account_id)

  use_passkey-Keeps :
      (c : PasskeyCeremony) (response : PasskeyResponse Json) (found : Option StoredPasskey)
      → Keeps I Any (use_passkey p draws c response found)
  unfolding use_passkey
  use_passkey-Keeps c response none = Keeps-pure I tt
  use_passkey-Keeps c response (some known) =
      Keeps-bind I {R = Any}
        (Keeps-from_result I (p.verify_authentication p.config c.challenge response known)
          (λ _ _. tt))
        (λ counter _. use_counter-Keeps c known counter)

  verify_kind-Keeps :
      (kind : CeremonyKind) (c : PasskeyCeremony) (response : PasskeyResponse Json)
      → IsPlainAccount c.account_id
      → Keeps I Any (verify_kind p draws kind c response)
  unfolding verify_kind sign_in_with
  verify_kind-Keeps registration c response plain = register-Keeps c response plain
  verify_kind-Keeps authentication c response plain = record {
    at = λ s i. (use_passkey-Keeps c response (passkey s response.id)).at s i;
  }

  verify_consumed-Keeps :
      (response : PasskeyResponse Json) (found : Option PasskeyCeremony)
      → IfSome (λ c. IsPlainAccount c.account_id) found
      → Keeps I Any (verify_consumed p draws response found)
  unfolding verify_consumed
  verify_consumed-Keeps response none plain = Keeps-pure I tt
  verify_consumed-Keeps response (some c) plain = verify_kind-Keeps c.kind c response plain

  verify_pending-Keeps :
      (id : String) (response : PasskeyResponse Json) (found : Option PasskeyCeremony)
      → Keeps I Any (verify_pending p draws id response found)
  unfolding verify_pending
  verify_pending-Keeps id response none = Keeps-pure I tt
  verify_pending-Keeps id response (some c) =
      Keeps-bind I (Keeps-call I (rules.ceremony_consumed id c.kind (draws.now 2)))
        (λ found plain. verify_consumed-Keeps response found plain)

  module _ (request : Request Json) where
    pub verification_route-Keeps :
        (segment : String) → Keeps I Any (verification_route p draws request segment)
    unfolding verification_route
    verification_route-Keeps segment =
        Keeps-bind I (Keeps-parse I (path_id_schema p segment)) (λ id _.
          Keeps-bind I (Keeps-parse_body I p (credential_schema p) request) (λ response _. record {
            at = λ s i.
                (verify_pending-Keeps id response (passkey_ceremony s id (draws.now 1))).at s i;
          }))

    pub registration_route-Keeps : Keeps I Any (registration_route p request draws)
    unfolding registration_route
    registration_route-Keeps = Keeps-then I (Keeps-modify I (rules.cleaned (draws.now 1))) (
        Keeps-bind I (Keeps-parse_body I p (registration_schema p) request) (λ body _.
          Keeps-bind I {R = Any}
            (Keeps-from_result I (p.registration_options p.config (draws.secret 0) body.1)
              (λ _ _. tt))
            (λ options _. record { at = λ s i. (rules.ceremony_created _ (uuids 0) s i, tt) })))

    pub authentication_route-Keeps : Keeps I Any (authentication_route p request draws)
    unfolding authentication_route
    authentication_route-Keeps = Keeps-then I (Keeps-modify I (rules.cleaned (draws.now 1))) (
        Keeps-bind I (Keeps-parse_body I p (device_identity_schema p) request) (λ body _.
          Keeps-bind I {R = Any}
            (Keeps-from_result I (p.authentication_options p.config) (λ _ _. tt))
            (λ options _. record { at = λ s i. (rules.ceremony_created _ tt s i, tt) })))

    pub ceremony_page_route-Keeps :
        (segment : String) → Keeps I Any (ceremony_page_route p request draws segment)
    unfolding ceremony_page_route
    ceremony_page_route-Keeps segment =
        Keeps-bind I (Keeps-parse I (path_id_schema p segment))
          (λ id _. record { at = λ s i. (i, tt) })

    pub ceremony_options_route-Keeps :
        (segment : String) → Keeps I Any (ceremony_options_route p request draws segment)
    unfolding ceremony_options_route
    ceremony_options_route-Keeps segment =
        Keeps-bind I (Keeps-parse I (path_id_schema p segment))
          (λ id _. record { at = λ s i. (i, tt) })

    pub claim_route-Keeps : Keeps I Any (claim_route p request draws)
    unfolding claim_route
    claim_route-Keeps =
        Keeps-bind I (Keeps-parse_body I p (passkey_claim_schema p) request) (λ body _.
          Keeps-bind I
            (Stable-call I _ (rules.claim_taken body.0 (p.hash_token body.1) (draws.now 1)))
            (λ claim _. Keeps-pure I tt))

    pub enrollment_route-Keeps : Keeps I Any (enrollment_route p request draws)
    unfolding enrollment_route
    enrollment_route-Keeps = Keeps-then I (Keeps-modify I (rules.cleaned (draws.now 1))) (
        Keeps-bind I (Keeps-parse_body I p (enrollment_schema p) request)
          (λ body _. record { at = λ s i. (rules.enrollment_created _ s i, tt) }))

    pub details_route-Keeps :
        (segment : String) → Keeps I Any (details_route p request draws segment)
    unfolding details_route
    details_route-Keeps segment = Keeps-bind I (Keeps-parse I (path_id_schema p segment)) (λ id _.
        Keeps-bind I (Keeps-parse_body I p (approval_code_schema p) request)
          (λ code _. record { at = λ s i. (i, tt) }))

    pub enrollment_claim_route-Keeps : Keeps I Any (enrollment_claim_route p request draws)
    unfolding enrollment_claim_route
    enrollment_claim_route-Keeps =
        Keeps-bind I (Keeps-parse_body I p (enrollment_claim_schema p) request) (λ body _.
          Keeps-bind I
            (Stable-call I _ (rules.enrollment_taken body.0 (p.hash_token body.1) (draws.now 1)))
            (λ delivery _. Keeps-pure I tt))
