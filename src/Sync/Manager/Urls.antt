-- ===== src/Sync/Manager/Urls.antt =====
-- apps/desktop/src/main/SyncAccountManager.ts: `normalizeServiceUrl`, `formatPairingCode` and
-- `parsePairingCode`.
use locus_browser.Base.{
  String, Bool, not, ◌&&◌, ◌||◌, none, some, [], ◌∷◌, has, Result, ok, err, str_eq, if◌then◌else◌,
}
use locus_browser.Sync.Manager.{ParsedUrl, Device}

-- Whether a protocol is safe for a host.
abbrev pub is_secure : ParsedUrl → Bool
is_secure url =
    str_eq url.protocol "https:"
    || (str_eq url.protocol "http:" && has ("localhost" ∷ "127.0.0.1" ∷ []) url.hostname)

abbrev pub is_bare_origin : ParsedUrl → Bool
is_bare_origin url =
    str_eq url.username ""
    && str_eq url.password ""
    && (str_eq url.pathname "/" || str_eq url.pathname "")
    && str_eq url.search ""
    && str_eq url.hash ""

unfoldable pub normalize_service_url : Device → String → Result String String
normalize_service_url d value = elim (d.parse_url value) [
  | none ↦ err "Invalid URL"
  | some url ↦
      if not (is_bare_origin url)
      then err "Enter only the sync service origin"
      else if not (is_secure url)
      then err "Sync requires HTTPS except during local development"
      else ok url.origin
]
