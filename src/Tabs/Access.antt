-- ===== src/Tabs/Access.antt =====
-- apps/desktop/src/main/TabAccessRegistry.ts: the tabs that the user shares with a work session.
pub mod Lookup
pub mod Invariant
pub mod Protected
mod Tests
use locus_browser.Base.{
  String, Bool, true, false, not, ◌&&◌, ◌||◌, Option, none, some, List, [], ◌∷◌, ◌++◌, Dict, get,
  set, delete, values, str_eq, any, if◌then◌else◌,
}

pub data AccessLevel : Type 0 where
  read interact : AccessLevel

-- `source` and `grantedAt` are passed on as they are.
pub record Grant : Type 0 where
  pub session_id : String
  pub tab_id : String
  pub level : AccessLevel
  pub source : String
  pub granted_at : String

-- `#grants`: for each session its grants by tab.
abbrev pub Registry : Type 0
Registry = Dict (Dict Grant)

-- `map ?? new Map()`.
abbrev pub or_new : Option (Dict Grant) → Dict Grant
or_new none = []
or_new (some m) = m

abbrev pub is_some : Option Grant → Bool
is_some none = false
is_some (some g) = true

unfoldable pub grant : String → String → AccessLevel → String → String → Registry → Grant × Registry
grant session_id tab_id level source now s =
    let g : Grant = record {
      session_id = session_id;
      tab_id = tab_id;
      level = level;
      source = source;
      granted_at = now;
    } in
    (g, set s session_id (set (or_new (get s session_id)) tab_id g))

-- The registry without the grant; a session without grants is dropped.
unfoldable pub put_or_drop : String → Dict Grant → Registry → Registry
put_or_drop session_id [] s = delete s session_id
put_or_drop session_id (e ∷ m) s = set s session_id (e ∷ m)

unfoldable pub revoke_from : String → String → Option (Dict Grant) → Registry → Bool × Registry
revoke_from session_id tab_id none s = (false, s)
revoke_from session_id tab_id (some m) s =
    (is_some (get m tab_id), put_or_drop session_id (delete m tab_id) s)

unfoldable pub revoke : String → String → Registry → Bool × Registry
revoke session_id tab_id s = revoke_from session_id tab_id (get s session_id) s

unfoldable pub revoke_session : String → Registry → Registry
revoke_session session_id s = delete s session_id

unfoldable pub grants_for_session : Registry → String → List Grant
grants_for_session s session_id = values (or_new (get s session_id))

abbrev pub push_found : Option Grant → List Grant → List Grant
push_found none rest = rest
push_found (some g) rest = g ∷ rest

unfoldable pub grants_for_tab : Registry → String → List Grant
grants_for_tab [] tab_id = []
grants_for_tab ((session_id, grants) ∷ s) tab_id =
    push_found (get grants tab_id) (grants_for_tab s tab_id)

unfoldable pub access : Registry → String → String → Option Grant
access s session_id tab_id = get (or_new (get s session_id)) tab_id

-- `level === "read" || grant.level === "interact"`.
abbrev pub allows : AccessLevel → AccessLevel → Bool
allows read given = true
allows interact read = false
allows interact interact = true

abbrev pub allows_found : AccessLevel → Option Grant → Bool
allows_found level none = false
allows_found level (some g) = allows level g.level

unfoldable pub can : Registry → String → String → AccessLevel → Bool
can s session_id tab_id level = allows_found level (access s session_id tab_id)

pub record Url : Type 0 where
  pub protocol : String
  pub hostname : String

abbrev pub protected_protocols : List String
protected_protocols = "file:" ∷ "chrome:" ∷ "devtools:" ∷ "chrome-extension:" ∷ "locus:" ∷ []

abbrev pub protected_hosts : List String
protected_hosts = "settings" ∷ "passwords" ∷ "extensions" ∷ []

abbrev pub is_protected : Option Url → Bool
is_protected none = true
is_protected (some url) =
    any (λ p. str_eq p url.protocol) protected_protocols
    || any (λ h. str_eq h url.hostname) protected_hosts

-- `parse` is the constructor of `URL`, which fails on what is no address.
unfoldable pub is_protected_url : (String → Option Url) → String → Bool → Bool
is_protected_url parse raw_url is_private =
    if is_private then true else is_protected (parse raw_url)
