-- ===== src/Extensions/Archive/Tests/Data.antt =====
-- A toy toolkit, and the files of a small archive.
use locus_browser.Base.{
  ℕ, String, Bool, ◌||◌, Option, none, some, List, [], ◌∷◌, Dict, str_eq, if◌then◌else◌,
}
use locus_browser.Extensions.Archive.{Toolkit, FileInfo}

pub data Content : Type 0 where
  archive manifest_file inventory_file signatures_file script_file : Content
  plain : String → Content

mutual
  pub data Value : Type 0 where
    word : String → Value
    count : ℕ → Value
    flag : Bool → Value
    list : Items → Value
    object : Fields → Value

  pub data Items : Type 0 where
    nil : Items
    cons : Value → Items → Items

  pub data Fields : Type 0 where
    end : Fields
    field : String → Value → Fields → Fields

abbrev items_of : Items → List Value
items_of nil = []
items_of (cons v items) = v ∷ items_of items

abbrev fields_of : Fields → Dict Value
fields_of end = []
fields_of (field k v fields) = (k, v) ∷ fields_of fields

abbrev as_object : Value → Option (Dict Value)
as_object (object fields) = some (fields_of fields)
as_object _ = none

abbrev as_string : Value → Option String
as_string (word s) = some s
as_string _ = none

abbrev as_natural : Value → Option ℕ
as_natural (count n) = some n
as_natural _ = none

abbrev as_boolean : Value → Option Bool
as_boolean (flag b) = some b
as_boolean _ = none

abbrev as_array : Value → Option (List Value)
as_array (list items) = some (items_of items)
as_array _ = none

abbrev pub digest : String
digest = "0123456789abcdef0123456789abcdef0123456789abcdef0123456789abcdef"

abbrev manifest_value : Value
manifest_value = object (
    field "manifest_version" (count 3) (
      field "name" (word "Notes") (
        field "version" (word "1.0.0") (
          field "key" (word "AAAA") (
            field "content_scripts"
              (list (
                cons
                  (object (
                    field "matches" (list (cons (word "https://a.example/*") nil))
                      (field "js" (list (cons (word "a.js") nil)) end)))
                  nil))
              end)))))

abbrev item_value : String → Value
item_value path =
    object (field "path" (word path) (field "sha256" (word digest) (field "size" (count 10) end)))

abbrev inventory_value : Value
inventory_value =
    object
      (field "files" (list (cons (item_value "manifest.json") (cons (item_value "a.js") nil))) end)

abbrev signer_value : String → Value
signer_value key = object (field "publicKeyPem" (word key) (field "signature" (word "AAAA") end))

abbrev signatures_value : Value
signatures_value = object (
    field "contractVersion" (count 2) (
      field "extensionId" (word "notes.example") (
        field "publisher" (signer_value "publisher")
          (field "gallery" (signer_value "gallery") end))))

abbrev contents : Content → String
contents manifest_file = "manifest"
contents inventory_file = "inventory"
contents signatures_file = "signatures"
contents (plain s) = s
contents _ = "code"

abbrev parse_text : String → Option Value
parse_text s =
    if str_eq s "manifest"
    then some manifest_value
    else if str_eq s "inventory"
    then some inventory_value
    else if str_eq s "signatures"
    then some signatures_value
    else none

abbrev info : String → FileInfo
info name = record { name = name; original_size = 10 }

abbrev pub archive_directory : List FileInfo
archive_directory =
    info "manifest.json" ∷ info "inventory.json" ∷ info "signatures.json" ∷ info "a.js" ∷ []

abbrev pub archive_files : Dict Content
archive_files =
    ("manifest.json", manifest_file)
    ∷ ("inventory.json", inventory_file)
    ∷ ("signatures.json", signatures_file)
    ∷ ("a.js", script_file)
    ∷ []

abbrev pub toolkit : Toolkit Value Content
toolkit = record {
  reader = record {
    parse = parse_text;
    object = as_object;
    string = as_string;
    natural = as_natural;
    boolean = as_boolean;
    array = as_array;
    trim = λ s. s;
  };
  byte_length = λ bytes. 10;
  directory = λ bytes. archive_directory;
  unzip = λ bytes. some archive_files;
  decode_utf8 = contents;
  encode_utf8 = plain;
  decode_base64 = plain;
  encode_base64 = λ bytes. "AAAA";
  sha256 = λ bytes. digest;
  verify = λ message key signature. some (str_eq key "publisher" || str_eq key "gallery");
  public_key_der = λ pem. some (plain pem);
}

abbrev pub trusted : List String
trusted = digest ∷ []
