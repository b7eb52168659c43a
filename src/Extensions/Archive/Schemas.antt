-- ===== src/Extensions/Archive/Schemas.antt =====
-- packages/extensions/src/archive.ts: `InventorySchema` and `SignaturesSchema`.
use locus_browser.Base.{
  ℕ, ◌*◌, String, Option, some, List, [], ◌∷◌, get, has, Bool, true, str_eq, not, ◌&&◌, map,
}
use locus_browser.Base.Options.{◌>>=◌, ◌>>◌, require}
use locus_browser.Extensions.Texts.{sha256_text, extension_id_text, base64_text}
use locus_browser.Extensions.Reading.{
  Reader, if_required, strict, text_between, matching, matching_max, number_literal, number_between,
  list_between,
}

pub record InventoryItem : Type 0 where
  pub path : String
  pub sha256 : String
  pub size : ℕ

pub record Signatures : Type 0 where
  pub extension_id : String
  pub publisher_key : String
  pub publisher_signature : String
  pub gallery_key : String
  pub gallery_signature : String

-- No path stands twice.
unfoldable pub no_repeats : List String → Bool
no_repeats [] = true
no_repeats (path ∷ paths) = not (has paths path) && no_repeats paths

module _ {Json : Type 0} (r : Reader Json) where
  unfoldable pub inventory_item_schema : Json → Option InventoryItem
  unfolding strict matching number_between
  inventory_item_schema j = do
    fields ← r.object j
    strict ("path" ∷ "sha256" ∷ "size" ∷ []) fields
    path ← if_required r.string (get fields "path")
    require (not (str_eq path ""))
    sha256 ← if_required (matching r sha256_text) (get fields "sha256")
    size ← if_required (number_between r 0 (25 * 1024 * 1024)) (get fields "size")
    some (record { path = path; sha256 = sha256; size = size })

  unfoldable pub inventory_schema : Json → Option (List InventoryItem)
  unfolding strict list_between inventory_item_schema no_repeats
  inventory_schema j = do
    fields ← r.object j
    strict ("files" ∷ []) fields
    items ← if_required (list_between r inventory_item_schema 1 5000) (get fields "files")
    require (no_repeats (map (λ item. item.path) items))
    some items

  -- The schemas of `publisher` and of `gallery`: a key and a signature.
  unfoldable pub signer_schema : Json → Option (String × String)
  unfolding strict text_between matching_max
  signer_schema j = do
    fields ← r.object j
    strict ("publicKeyPem" ∷ "signature" ∷ []) fields
    public_key ← if_required (text_between r 1 8192) (get fields "publicKeyPem")
    signature ← if_required (matching_max r base64_text 512) (get fields "signature")
    some (public_key, signature)

  unfoldable pub signatures_schema : Json → Option Signatures
  unfolding strict number_literal matching signer_schema
  signatures_schema j = do
    fields ← r.object j
    strict ("contractVersion" ∷ "extensionId" ∷ "publisher" ∷ "gallery" ∷ []) fields
    version ← if_required (number_literal r 2) (get fields "contractVersion")
    id ← if_required (matching r extension_id_text) (get fields "extensionId")
    publisher ← if_required signer_schema (get fields "publisher")
    gallery ← if_required signer_schema (get fields "gallery")
    some (record {
      extension_id = id;
      publisher_key = publisher.0;
      publisher_signature = publisher.1;
      gallery_key = gallery.0;
      gallery_signature = gallery.1;
    })
