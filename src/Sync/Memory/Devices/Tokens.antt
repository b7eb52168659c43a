-- ===== src/Sync/Memory/Devices/Tokens.antt =====
-- Which tokens authenticate: `authenticate` and `revokeDevice` of
-- services/sync/src/memoryRepository.ts.
use locus_browser.Base.{ℕ, ◌≡◌, refl, ap, ◌∙◌, String, arith, get, get-delete_where, unless, ok}
use locus_browser.Sync.Memory.State.{Repository}
use locus_browser.Sync.Memory.Invariant.{Inv}
use locus_browser.Sync.Memory.Devices.{touch, authenticate, revoke_device, is_of_device}

-- Authentication answers with the device of the token, and leaves the tokens as they are.
pub authenticate_lem :
    (hash : String) (now : ℕ) (s : Repository)
    → ((authenticate hash now s).0 ≡ ok (get s.tokens hash))
      × ((authenticate hash now s).1.tokens ≡ s.tokens)
unfolding authenticate touch
authenticate_lem hash now s = (refl, ground arith)

-- After a device is revoked its tokens authenticate nobody, and every other token answers as it
-- did before.
pub authenticate-revoke_device :
    (account_id device_id hash : String) (now : ℕ) (s : Repository)
    → Inv s
    → (authenticate hash now (revoke_device account_id device_id s)).0
      ≡ ok (unless (is_of_device account_id device_id) hash (get s.tokens hash))
unfolding revoke_device
authenticate-revoke_device account_id device_id hash now s v =
    (authenticate_lem hash now (revoke_device account_id device_id s)).0
    ∙ ap ok (get-delete_where (is_of_device account_id device_id) s.tokens hash v.unique)
