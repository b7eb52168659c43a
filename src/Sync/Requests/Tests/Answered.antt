-- ===== src/Sync/Requests/Tests/Answered.antt =====
-- The answers to the requests of `Data`, and the theorems at them.
use locus_browser.Base.{
  sym, subst, ◌∙◌, ◌≡◌, ◌≢◌, ◌≤◌, refl, String, true, false, some, [], inl, All, length, get, set,
  str_eq, unless, colon_join, text_leb,
}
use locus_browser.Base.Patterns.{utf16_length}
use locus_browser.Sync.Models.{AuthenticatedDevice}
use locus_browser.Sync.Memory.State.{stored_key}
use locus_browser.Sync.Memory.Invariant.{Inv}
use locus_browser.Sync.Memory.Devices.{enroll_token, is_of_device}
use locus_browser.Sync.Memory.Records.{push, push_each, offer, store, is_foreign, is_current}
use locus_browser.Sync.Memory.Tests.Data.{
  laptop, enrolled_both, enrolled-Inv, shared, shared-Inv, bobs, bob-NoColon, ada≢bob,
}
use locus_browser.Sync.Requests.Values.{error, revoked, deleted, json}
use locus_browser.Sync.Requests.Support.{bearer_token, is_public_route}
use locus_browser.Sync.Requests.Schemas.{push_schema}
use locus_browser.Sync.Requests.Handler.{fetch}
use locus_browser.Sync.Requests.Sound.{fetch-Inv}
use locus_browser.Sync.Requests.Isolation.{fetch_isolated}
use locus_browser.Sync.Requests.Gate.{fetch_unauthorized, refusal}
use locus_browser.Sync.Requests.Revoked.{
  fetch_self_revocation, fetch_account_deletion, sent_to, IsShutOut,
}
use locus_browser.Sync.Requests.Bounds.{push_schema_bounds, IsRecordBody}
use locus_browser.Sync.Requests.Tests.Data.{
  platform, draws, draws-NoColon, bearer, push_value, push_body, push_request, anonymous,
}

the_token : bearer_token push_request.authorization ≡ bearer
unfolding bearer_token
the_token = refl

token_given : str_eq (bearer_token push_request.authorization) "" ≡ false
unfolding bearer_token
token_given = refl

token_known :
    get enrolled_both.tokens (platform.hash_token (bearer_token push_request.authorization))
    ≡ some laptop
unfolding bearer_token enroll_token get set
token_known = refl

closed_push : is_public_route "POST" "/v1/sync/push" ≡ false
unfolding is_public_route
closed_push = refl

push_parses : push_schema platform push_value ≡ some push_body
unfolding push_schema utf16_length
push_parses = refl

fetch-Inv_example : Inv (fetch platform push_request draws enrolled_both).1
fetch-Inv_example = fetch-Inv platform push_request draws enrolled_both draws-NoColon enrolled-Inv

fetch_unauthorized_example :
    fetch platform anonymous draws enrolled_both
    ≡ (json (error (refusal (bearer_token anonymous.authorization))) 401 [], enrolled_both)
fetch_unauthorized_example =
    fetch_unauthorized platform anonymous draws enrolled_both closed_push (inl no_token)
  where
    no_token : str_eq (bearer_token anonymous.authorization) "" ≡ true
    no_token = unfold bearer_token in refl

fetch_self_revocation_example :
    let (answer, t) =
      fetch platform (sent_to push_request "DELETE" "/v1/devices/self") draws enrolled_both in
    (answer ≡ json revoked 200 [])
    × IsShutOut platform (bearer_token push_request.authorization) t
    × ((hash : String)
        → get t.tokens hash
          ≡ unless (is_of_device "ada" "laptop") hash (get enrolled_both.tokens hash))
fetch_self_revocation_example =
    fetch_self_revocation platform push_request draws enrolled_both laptop enrolled-Inv token_given
      token_known

fetch_account_deletion_example :
    let (answer, t) =
      fetch platform (sent_to push_request "DELETE" "/v1/account") draws enrolled_both in
    (answer ≡ json deleted 200 [])
    × ((token : String) (a : AuthenticatedDevice)
        → get enrolled_both.tokens (platform.hash_token token) ≡ some a
        → a.account_id ≡ "ada"
        → IsShutOut platform token t)
    × ((hash : String)
        → get t.tokens hash
          ≡ unless (λ _ a. str_eq a.account_id "ada") hash (get enrolled_both.tokens hash))
fetch_account_deletion_example =
    fetch_account_deletion platform push_request draws enrolled_both laptop enrolled-Inv token_given
      token_known

push_schema_bounds_example :
    (1 ≤ push_body.key_version)
    × (length push_body.records ≤ 500)
    × All IsRecordBody push_body.records
push_schema_bounds_example = push_schema_bounds platform push_value push_body push_parses

shared_bookmark :
    get shared.records (stored_key "bob" bobs) ≡ some (record { body = bobs; cursor = 4 })
unfolding push push_each offer store is_foreign is_current enroll_token colon_join get set text_leb
shared_bookmark = refl

laptop_known :
    get shared.tokens (platform.hash_token (bearer_token push_request.authorization)) ≡ some laptop
unfolding bearer_token push push_each offer store is_foreign is_current enroll_token colon_join get
    set text_leb
laptop_known = refl

not_bobs :
    (d : AuthenticatedDevice)
    → get shared.tokens (platform.hash_token (bearer_token push_request.authorization)) ≡ some d
    → d.account_id ≢ "bob"
not_bobs d h =
    let same : laptop ≡ d = cc (sym laptop_known ∙ h) in
    subst (λ (x : AuthenticatedDevice). x.account_id ≢ "bob") same ada≢bob

fetch_isolated_example :
    get
      (fetch platform (sent_to push_request "DELETE" "/v1/account") draws shared).1.records
      (stored_key "bob" bobs)
    ≡ some (record { body = bobs; cursor = 4 })
fetch_isolated_example =
    fetch_isolated platform (sent_to push_request "DELETE" "/v1/account") draws shared "bob" bobs
      (record { body = bobs; cursor = 4 }) draws-NoColon bob-NoColon not_bobs refl shared-Inv
      shared_bookmark
