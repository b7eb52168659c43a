-- ===== src/Sync/Memory/Passkeys/OneShot.antt =====
-- Ceremonies and claims are used once: `consumePasskeyCeremony` and `takePasskeyClaim` of
-- services/sync/src/memoryRepository.ts.
use locus_browser.Base.{
  ℕ, ◌≡◌, ◌≤◌, ◌⊎◌, inl, inr, refl, String, true, none, some, Option, arith, get, delete,
  get-delete_self, Option-cases, ok, eq_iff,
}
use locus_browser.Sync.Models.{PasskeyCeremony, CeremonyKind, PasskeyClaim}
use locus_browser.Sync.Memory.State.{Repository}
use locus_browser.Sync.Memory.Passkeys.{
  consume_passkey_ceremony, consume, take_passkey_claim, unexpired, same_kind, of_kind, claimable,
  deliver_claim,
}

-- A claim can be taken with this code at this time.
abbrev pub IsClaimable : PasskeyClaim → String → ℕ → Type 0
IsClaimable c code now = (c.code_hash ≡ code) × (now ≤ c.expires_at)

claimable-eq-some :
    (o : Option PasskeyClaim) (code : String) (now : ℕ) (c : PasskeyClaim)
    → claimable code now o ≡ some c
    → (o ≡ some c) × IsClaimable c code now
claimable-eq-some none code now c h = cc
claimable-eq-some (some x) code now c h =
    (ground arith, (ground (arith, eq_iff x.code_hash code), ground arith))

claimable-eq-none :
    (o : Option PasskeyClaim) (code : String) (now : ℕ)
    → claimable code now o ≡ none
    → (o ≡ none) ⊎ ((c : PasskeyClaim) × (o ≡ some c) × (¬ IsClaimable c code now))
claimable-eq-none none code now h = inl refl
claimable-eq-none (some x) code now h =
    inr (x, refl, λ k. ground (arith, k, eq_iff x.code_hash code))

take_absent :
    (id code : String) (now : ℕ) (s : Repository)
    → get s.claims id ≡ none
    → take_passkey_claim id code now s ≡ (ok none, s)
unfolding take_passkey_claim
take_absent id code now s h = rw h refl

-- Taking a claim answers with nothing and changes nothing, if no claim has the identifier, the code
-- is wrong or the claim has expired; otherwise it answers with the claim's account, device and
-- token, and from then on the claim is gone, whatever code is tried.
pub take_passkey_claim_lem :
    (id code : String) (now : ℕ) (s : Repository)
    → ((take_passkey_claim id code now s ≡ (ok none, s))
        × ((get s.claims id ≡ none)
            ⊎ ((c : PasskeyClaim) × (get s.claims id ≡ some c) × (¬ IsClaimable c code now))))
      ⊎ ((c : PasskeyClaim) × (get s.claims id ≡ some c)
          × IsClaimable c code now
          × ((take_passkey_claim id code now s).0
              ≡ ok (
                  some (record {
                    account_id = c.account_id;
                    device_id = c.device_id;
                    device_token = c.device_token;
                  })))
          × ((code' : String) (later : ℕ)
              → let t = (take_passkey_claim id code now s).1 in
                take_passkey_claim id code' later t ≡ (ok none, t)))
unfolding take_passkey_claim
take_passkey_claim_lem id code now s = elim (Option-cases (claimable code now (get s.claims id))) [
  | inl h ↦ inl (rw (h, deliver_claim) refl, claimable-eq-none (get s.claims id) code now h)
  | inr (c, h) ↦
      let (found, good) = claimable-eq-some (get s.claims id) code now c h in
      inr (
        c,
        found,
        good,
        rw (h, deliver_claim) refl,
        rw (h, deliver_claim)
            (λ code' later. unfold take_passkey_claim in rw (get-delete_self s.claims id) refl),
      )
]

unexpired-of_kind :
    (kind : CeremonyKind) (now : ℕ) (o : Option PasskeyCeremony) (c : PasskeyCeremony)
    → of_kind kind (unexpired now o) ≡ some c
    → (o ≡ some c) × (same_kind c.kind kind ≡ true) × (now ≤ c.expires_at)
unexpired-of_kind kind now none c h = cc
unexpired-of_kind kind now (some x) c h = (ground arith, ground arith, ground arith)

consume_absent :
    (id : String) (kind : CeremonyKind) (now : ℕ) (s : Repository)
    → get s.ceremonies id ≡ none
    → consume_passkey_ceremony id kind now s ≡ (ok none, s)
unfolding consume_passkey_ceremony
consume_absent id kind now s h = rw h refl

-- A ceremony is consumed at most once: when it is handed out it was stored, not expired and of
-- the kind asked for, and from then on no attempt to consume it succeeds.
pub consume_passkey_ceremony_once :
    (id : String) (kind : CeremonyKind) (now : ℕ) (s t : Repository) (c : PasskeyCeremony)
    → consume_passkey_ceremony id kind now s ≡ (ok (some c), t)
    → (get s.ceremonies id ≡ some c)
      × (same_kind c.kind kind ≡ true)
      × (now ≤ c.expires_at)
      × ((kind' : CeremonyKind) (later : ℕ)
          → consume_passkey_ceremony id kind' later t ≡ (ok none, t))
unfolding consume_passkey_ceremony
consume_passkey_ceremony_once id kind now s t c h =
    elim (Option-cases (of_kind kind (unexpired now (get s.ceremonies id)))) [
      | inl none_left ↦ absurd (cc (rw (none_left, consume) at h))
      | inr (x, e) ↦
          let done : consume_passkey_ceremony id kind now s
              ≡ (ok (some x), record s { ceremonies = delete s.ceremonies id }) =
            rw (e, consume) refl in
          let same : x ≡ c = cc in
          let after : record s { ceremonies = delete s.ceremonies id } ≡ t = cc in
          let (found, right_kind, unexpired) =
            unexpired-of_kind kind now (get s.ceremonies id) x e in
          (
            rw (← same) found,
            rw (← same) right_kind,
            rw (← same) unexpired,
            λ kind' later.
                consume_absent id kind' later t (rw (← after) (get-delete_self s.ceremonies id)),
          )
    ]
