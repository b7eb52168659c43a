-- ===== src/Sync/Memory/Keys/Install.antt =====
-- The wraps of a new account key reach every device: `assertCompleteWrapSet` and the loop over the
-- wraps in services/sync/src/memoryRepository.ts.
use locus_browser.Base.{
  suc, ℕ, ◌≡◌, ◌≢◌, ◌∙◌, refl, sym, ap, String, true, false, not, none, some, List, [], ◌∷◌, arith,
  get, set, Dict, values, get-set, get-set_self, get-set_ne, NoColon, All, All-map, Option-cases,
  Bool-cases, inl, inr, ok, eq_iff, eq_refl, str_eq, has, set_size, IsSubset, IsSubset-set_size,
  IsDistinct, IsDistinct-set_size, length, any, keep, join_injective, bind-ok,
}
use locus_browser.Sync.Models.{RegisteredDevice, AccountKeyWrap}
use locus_browser.Sync.Memory.State.{Repository, device_key}
use locus_browser.Sync.Memory.Devices.{account_devices}
use locus_browser.Sync.Memory.Keys.{
  device_ids, wrap_ids, is_complete_wrap_set, with_key, install, install_each,
}

-- Every wrap names a device that is there.
abbrev pub IsKnown : String → Dict RegisteredDevice → AccountKeyWrap → Type 0
IsKnown account_id devices w = get devices (device_key account_id w.device_id) ≢ none

-- The device that the wrap names has the wrapped key, at the version.
abbrev pub Holds : String → ℕ → Dict RegisteredDevice → AccountKeyWrap → Type 0
Holds account_id version devices w =
    (d : RegisteredDevice) × (get devices (device_key account_id w.device_id) ≡ some d)
    × (d.key_version ≡ version)
    × (d.wrapped_account_key ≡ some w.wrapped_account_key)

has_first : (a : String) (as' : List String) → has (a ∷ as') a ≡ true
unfolding has
has_first a as' = ground (arith, eq_refl a)

has_later : (a b : String) (as' : List String) → has as' b ≡ true → has (a ∷ as') b ≡ true
unfolding has
has_later a b as' h = ground arith

other_id : (a b : String) (as' : List String) → has as' a ≡ false → has as' b ≡ true → b ≢ a
other_id a b as' h k e = cc (ap (has as') e)

-- The device map after one round.
abbrev pub put_key :
    String → ℕ → Dict RegisteredDevice → AccountKeyWrap → RegisteredDevice → Dict RegisteredDevice
put_key account_id version ds w d =
    set ds (device_key account_id w.device_id) (with_key version w.wrapped_account_key d)

module _ (account_id : String) (version : ℕ) (plain : NoColon account_id) where
  IsKnown-put_key :
      (ds : Dict RegisteredDevice) (w x : AccountKeyWrap) (d : RegisteredDevice)
      → IsKnown account_id ds x
      → IsKnown account_id (put_key account_id version ds w d) x
  IsKnown-put_key ds w x d h = ground (
    arith,
    get-set ds (device_key account_id w.device_id) (device_key account_id x.device_id)
        (with_key version w.wrapped_account_key d),
  )

  Holds-put_key :
      (ds : Dict RegisteredDevice) (w x : AccountKeyWrap) (d : RegisteredDevice)
      → w.device_id ≢ x.device_id
      → Holds account_id version ds x
      → Holds account_id version (put_key account_id version ds w d) x
  Holds-put_key ds w x d other (found, at_key, same_version, same_key) = (
    found,
    get-set_ne ds (device_key account_id w.device_id) (device_key account_id x.device_id) _ (λ e.
          other ((join_injective account_id account_id w.device_id x.device_id plain plain e).1))
        ∙ at_key,
    same_version,
    same_key,
  )

  installed :
      (w : AccountKeyWrap) (s : Repository) (d : RegisteredDevice)
      → get s.devices (device_key account_id w.device_id) ≡ some d
      → install account_id version w s
        ≡ (ok tt, record s { devices = put_key account_id version s.devices w d })
  unfolding install
  installed w s d h = rw (h, install) refl

  -- The loop ends well if every wrap names a device; then each of these holds its wrapped key, and
  -- whatever the rounds keep is kept.
  pub install_each_lem :
      (wraps : List AccountKeyWrap) (s : Repository) (Q : Dict RegisteredDevice → Type 0)
      → IsDistinct (wrap_ids wraps)
      → All (IsKnown account_id s.devices) wraps
      → ((w : AccountKeyWrap) (ds : Dict RegisteredDevice) (d : RegisteredDevice)
          → has (wrap_ids wraps) w.device_id ≡ true
          → get ds (device_key account_id w.device_id) ≡ some d
          → Q ds
          → Q (put_key account_id version ds w d))
      → Q s.devices
      → (ds : Dict RegisteredDevice) × (install_each account_id version wraps s
          ≡ (ok tt, record s { devices = ds }))
        × Q ds
        × All (Holds account_id version ds) wraps
  unfolding install_each
  install_each_lem [] s Q distinct known keeps q = (s.devices, refl, q, tt)
  install_each_lem (w ∷ wraps) s Q distinct known keeps q =
      elim (Option-cases (get s.devices (device_key account_id w.device_id))) [
        | inl missing ↦ absurd (known.0 missing)
        | inr (d, found) ↦
            let s' : Repository = record s { devices = put_key account_id version s.devices w d } in
            let first : install account_id version w s ≡ (ok tt, s') = installed w s d found in
            let (ds, looped, (q', here), later) =
              install_each_lem wraps s' (λ e. Q e × Holds account_id version e w) distinct.1
                (All-map _ _ (λ x h. IsKnown-put_key s.devices w x d h) wraps known.1)
                (λ x e d' m at_x both. (
                  keeps x e d' (has_later w.device_id x.device_id (wrap_ids wraps) m) at_x both.0,
                  Holds-put_key e x w d'
                      (other_id w.device_id x.device_id (wrap_ids wraps) distinct.0 m) both.1,
                ))
                (
                  keeps w s.devices d (has_first w.device_id (wrap_ids wraps)) found q,
                  (
                    with_key version w.wrapped_account_key d,
                    get-set_self s.devices _ _,
                    refl,
                    refl,
                  ),
                ) in
            (
              ds,
              bind-ok (install account_id version w) (λ _. install_each account_id version wraps) s
                    first
                  ∙ looped,
              q',
              (here, later),
            )
      ]

pub IsSubset-any : (xs ys : List String) → any (λ x. not (has ys x)) xs ≡ false → IsSubset xs ys
IsSubset-any [] ys h = tt
IsSubset-any (x ∷ xs) ys h = (ground arith, IsSubset-any xs ys (ground arith))

length-wrap_ids : (wraps : List AccountKeyWrap) → length (wrap_ids wraps) ≡ length wraps
length-wrap_ids [] = refl
length-wrap_ids (w ∷ wraps) = ap suc (length-wrap_ids wraps)

-- What `assertCompleteWrapSet` lets through: the wraps name each device once, and no other.
pub is_complete_wrap_set_lem :
    (devices : List RegisteredDevice) (wraps : List AccountKeyWrap)
    → is_complete_wrap_set devices wraps ≡ true
    → IsDistinct (wrap_ids wraps)
      × IsSubset (device_ids devices) (wrap_ids wraps)
      × IsSubset (wrap_ids wraps) (device_ids devices)
unfolding is_complete_wrap_set
is_complete_wrap_set_lem devices wraps h =
    let once : set_size (wrap_ids wraps) ≡ length wraps = ground arith in
    let same : set_size (device_ids devices) ≡ set_size (wrap_ids wraps) = ground arith in
    let covered : any (λ id. not (has (wrap_ids wraps) id)) (device_ids devices) ≡ false =
      ground arith in
    let subset = IsSubset-any (device_ids devices) (wrap_ids wraps) covered in
    (
      IsDistinct-set_size (wrap_ids wraps) (once ∙ sym (length-wrap_ids wraps)),
      subset,
      IsSubset-set_size (device_ids devices) (wrap_ids wraps) subset same,
    )

-- A device that the account's list names is found under its key.
get_of_listed :
    (account_id id : String) (m : Dict RegisteredDevice)
    → All (λ e. e.0 ≡ device_key e.1.account_id e.1.device_id) m
    → has (device_ids (keep (λ d. str_eq d.account_id account_id) (values m))) id ≡ true
    → get m (device_key account_id id) ≢ none
unfolding has get
get_of_listed account_id id [] named h = cc
get_of_listed account_id id ((k, d) ∷ m) named h =
    elim (Bool-cases (str_eq k (device_key account_id id))) [
      | inl e ↦ rw e (λ p. cc)
      | inr e ↦ rw e (
          get_of_listed account_id id m named.1 (
            ground (
              arith,
              eq_iff d.account_id account_id,
              eq_iff d.device_id id,
              eq_iff k (device_key account_id id),
              named.0,
            )))
    ]

IsKnown-IsSubset :
    (account_id : String) (s : Repository) (wraps : List AccountKeyWrap)
    → All (λ e. e.0 ≡ device_key e.1.account_id e.1.device_id) s.devices
    → IsSubset (wrap_ids wraps) (device_ids (account_devices s account_id))
    → All (IsKnown account_id s.devices) wraps
IsKnown-IsSubset account_id s [] v h = tt
IsKnown-IsSubset account_id s (w ∷ wraps) v h = (
  get_of_listed account_id w.device_id s.devices v h.0,
  IsKnown-IsSubset account_id s wraps v h.1,
)

-- A complete wrap set can be installed: the loop throws nothing, and changes devices only.
pub install_complete :
    (account_id : String) (version : ℕ) (wraps : List AccountKeyWrap) (s : Repository)
    (Q : Dict RegisteredDevice → Type 0)
    → NoColon account_id
    → All (λ e. e.0 ≡ device_key e.1.account_id e.1.device_id) s.devices
    → is_complete_wrap_set (account_devices s account_id) wraps ≡ true
    → ((w : AccountKeyWrap) (ds : Dict RegisteredDevice) (d : RegisteredDevice)
        → get ds (device_key account_id w.device_id) ≡ some d
        → Q ds
        → Q (put_key account_id version ds w d))
    → Q s.devices
    → (ds : Dict RegisteredDevice) × (install_each account_id version wraps s
        ≡ (ok tt, record s { devices = ds }))
      × Q ds
      × All (Holds account_id version ds) wraps
install_complete account_id version wraps s Q plain named complete keeps q =
    let (distinct, _, known) =
      is_complete_wrap_set_lem (account_devices s account_id) wraps complete in
    install_each_lem account_id version plain wraps s Q distinct
      (IsKnown-IsSubset account_id s wraps named known) (λ w ds d _ found h. keeps w ds d found h) q
