-- ===== src/Tabs/Access/Protected.antt =====
-- The addresses that `TabAccessRegistry.isProtectedUrl` of apps/desktop/src/main/TabAccessRegistry.ts
-- keeps from agents.
use locus_browser.Base.{
  ◌≡◌, ◌≢◌, ◌↔◌, refl, sym, subst, String, Bool, true, false, Option, none, some, List, [], ◌∷◌,
  arith, str_eq, eq_iff, any, All,
}
use locus_browser.Tabs.Access.{
  Url, is_protected, is_protected_url, protected_protocols, protected_hosts,
}

none_equal :
    (xs : List String) (x : String) → any (λ y. str_eq y x) xs ≡ false → All (λ y. y ≢ x) xs
none_equal [] x h = tt
none_equal (y ∷ ys) x h = (ground (arith, eq_iff y x), none_equal ys x (ground arith))

none_equal_of_All :
    (xs : List String) (x : String) → All (λ y. y ≢ x) xs → any (λ y. str_eq y x) xs ≡ false
none_equal_of_All [] x h = refl
none_equal_of_All (y ∷ ys) x h = ground (arith, eq_iff y x, h.0, none_equal_of_All ys x h.1)

-- Neither list names it.
abbrev pub IsOpen : Url → Type 0
IsOpen url =
    All (λ p. p ≢ url.protocol) protected_protocols × All (λ h. h ≢ url.hostname) protected_hosts

open_lem : (url : Url) → (is_protected (some url) ≡ false) ↔ IsOpen url
open_lem url = (
  λ h. (
    none_equal protected_protocols url.protocol (ground arith),
    none_equal protected_hosts url.hostname (ground arith),
  ),
  λ h.
      let ps : any (λ p. str_eq p url.protocol) protected_protocols ≡ false =
        none_equal_of_All protected_protocols url.protocol h.0 in
      let hs : any (λ x. str_eq x url.hostname) protected_hosts ≡ false =
        none_equal_of_All protected_hosts url.hostname h.1 in
      ground arith,
)

parsed_lem :
    (o : Option Url) → (is_protected o ≡ false) ↔ ((url : Url) × (o ≡ some url) × IsOpen url)
parsed_lem none = (λ h. cc, λ h. cc)
parsed_lem (some url) = (
  λ h. (url, refl, (open_lem url).0 h),
  λ (u, e, o). subst (λ x. is_protected x ≡ false) (sym e) ((open_lem u).1 o),
)

-- An address is open to agents exactly if the window is not private, the address can be parsed, and
-- neither its protocol nor its host is on the list.
pub is_protected_url_lem :
    (parse : String → Option Url) (raw_url : String) (is_private : Bool)
    → (is_protected_url parse raw_url is_private ≡ false)
      ↔ ((is_private ≡ false) × ((url : Url) × (parse raw_url ≡ some url) × IsOpen url))
unfolding is_protected_url
is_protected_url_lem parse raw_url true = (λ h. cc, λ h. cc (h.0))
is_protected_url_lem parse raw_url false =
    (λ h. (refl, (parsed_lem (parse raw_url)).0 h), λ h. (parsed_lem (parse raw_url)).1 h.1)
