-- ===== src/Policy/Providers.antt =====
-- apps/desktop/src/main/WorkProviderLifecycle.ts: the order in which a provider's connection is verified,
-- made, stored and put to use. The four callbacks are parameters.
use locus_browser.Base.{
  ◌≡◌, Bool, String, str_eq, if◌then◌else◌, ok, err, Exec, ◌>>=◌, ◌>>◌, pure, bind-eq-ok, bind-err,
  subst,
}

module _ {S E T : Type 0} (verify : Exec S E (Unit {0})) (connect : Exec S E T)
    (persist : T → Exec S E (Unit {0})) (activate : Exec S E (Unit {0})) where
  unfoldable pub commit_verified_provider_connection : Exec S E T
  commit_verified_provider_connection = do
    verify
    connected ← connect
    persist connected
    activate
    pure connected

  -- A connection is answered only if it was verified, made, stored and put to use, in this order.
  pub commit_verified_provider_connection_lem :
      (s w : S) (c : T)
      → commit_verified_provider_connection s ≡ (ok c, w)
      → (t : S) × (u : S) × (v : S) × (verify s ≡ (ok tt, t))
        × (connect t ≡ (ok c, u))
        × (persist c u ≡ (ok tt, v))
        × (activate v ≡ (ok tt, w))
  unfolding commit_verified_provider_connection
  commit_verified_provider_connection_lem s w c h =
      let (_, t, verified, h1) = bind-eq-ok verify _ s w h in
      let (c', u, connected, h2) = bind-eq-ok connect _ t w h1 in
      let (_, v, persisted, h3) = bind-eq-ok (persist c') _ u w h2 in
      let (_, w', activated, ended) = bind-eq-ok activate (λ _. pure c') v w h3 in
      let same : c' ≡ c = cc in
      let same_state : w' ≡ w = cc in
      (
        t,
        u,
        v,
        verified,
        subst (λ x. connect t ≡ (ok x, u)) same connected,
        subst (λ x. persist x u ≡ (ok tt, v)) same persisted,
        subst (λ x. activate v ≡ (ok tt, x)) same_state activated,
      )

  -- What is not verified is not connected, stored or put to use.
  pub commit_verified_provider_connection_err :
      (s t : S) (e : E) → verify s ≡ (err e, t) → commit_verified_provider_connection s ≡ (err e, t)
  unfolding commit_verified_provider_connection
  commit_verified_provider_connection_err s t e h = bind-err verify _ s h

module _ {S E : Type 0}
    (clear_in_memory clear_credential clear_provider : Exec S E (Unit {0})) where
  unfoldable pub remove_provider_credential : String → Bool → Exec S E (Unit {0})
  remove_provider_credential provider_id active = do
    if active then clear_in_memory else pure tt
    if str_eq provider_id "vllm" then clear_provider else clear_credential
