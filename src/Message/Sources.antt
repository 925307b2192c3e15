-- ===== src/Message/Sources.antt =====
-- The sources of images and documents: `Validate` and the MIME types of file extensions, in
-- agent/content.go. `strings.ToLower` and `strings.HasPrefix` are parameters.
pub mod Document
use gude_agents.Prelude.{
  ℕ, ◌+◌, String, Bool, true, false, not, inl, inr, refl, subst, All, Bool-cases, ◌||◌, List, [],
  ◌∷◌, Option, none, some, any, eq_iff, ◌≢◌, ltb, nat_eq, ◌==◌, if◌then◌else◌, ◌⊎◌, ◌↔◌, ◌≡◌, arith,
}
use gude_agents.Dict.{Dict, lookup}
use gude_agents.Message.{ImageSource, DocumentSource}

pub data SourceError : Type 0 where
  no_source many_sources bad_s3_uri : SourceError
  unsupported_mime_type : String → SourceError

abbrev pub image_mime_types : List String
image_mime_types = "image/jpeg" ∷ "image/png" ∷ "image/gif" ∷ "image/webp" ∷ []

abbrev pub document_mime_types : List String
document_mime_types =
    "application/pdf" ∷ "text/plain" ∷ "text/html" ∷ "text/csv" ∷ "text/markdown"
    ∷ "application/vnd.openxmlformats-officedocument.wordprocessingml.document"
    ∷ "application/vnd.openxmlformats-officedocument.spreadsheetml.sheet" ∷ "application/msword"
    ∷ "application/vnd.ms-excel" ∷ []

unfoldable pub is_listed : List String → String → Bool
is_listed types t = any (λ x. x == t) types

abbrev pub one_if : Bool → ℕ
one_if true = 1
one_if false = 0

unfoldable pub has_bytes : List ℕ → Bool
has_bytes [] = false
has_bytes (_ ∷ _) = true

unfoldable pub has_text : String → Bool
has_text s = not (s == "")

unfoldable pub image_sources : ImageSource → ℕ
image_sources s = one_if (has_bytes s.bytes) + one_if (has_text s.base64) + one_if (has_text s.url)

-- An error where there is one.
unfoldable pub validate_image : ImageSource → Option SourceError
validate_image s =
    if nat_eq (image_sources s) 0
    then some no_source
    else if ltb 1 (image_sources s)
    then some many_sources
    else if has_text s.url
    then none
    else if not (is_listed image_mime_types s.mime_type)
    then some (unsupported_mime_type s.mime_type)
    else none

unfoldable pub document_sources : DocumentSource → ℕ
document_sources s =
    one_if (has_bytes s.bytes)
    + one_if (has_text s.base64)
    + one_if (has_text s.url)
    + one_if (has_text s.file_id)
    + one_if (has_text s.s3_uri)

unfoldable pub validate_document : (String → String → Bool) → DocumentSource → Option SourceError
validate_document has_prefix s =
    if nat_eq (document_sources s) 0
    then some no_source
    else if ltb 1 (document_sources s)
    then some many_sources
    else if has_text s.s3_uri
    then (if not (has_prefix s.s3_uri "s3://") then some bad_s3_uri else none)
    else if has_text s.url || has_text s.file_id
    then none
    else if not (is_listed document_mime_types s.mime_type)
    then some (unsupported_mime_type s.mime_type)
    else none

-- The cases of a `switch` on the extension in lower case, as a table.
abbrev pub image_extensions : Dict String
image_extensions =
    (".jpg", "image/jpeg")
    ∷ (".jpeg", "image/jpeg")
    ∷ (".png", "image/png")
    ∷ (".gif", "image/gif")
    ∷ (".webp", "image/webp")
    ∷ []

abbrev pub document_extensions : Dict String
document_extensions =
    (".pdf", "application/pdf")
    ∷ (".txt", "text/plain")
    ∷ (".html", "text/html")
    ∷ (".htm", "text/html")
    ∷ (".csv", "text/csv")
    ∷ (".md", "text/markdown")
    ∷ (".doc", "application/msword")
    ∷ (".docx", "application/vnd.openxmlformats-officedocument.wordprocessingml.document")
    ∷ (".xls", "application/vnd.ms-excel")
    ∷ (".xlsx", "application/vnd.openxmlformats-officedocument.spreadsheetml.sheet")
    ∷ []

-- The MIME type, where the extension is known.
unfoldable pub image_mime_from_ext : (String → String) → String → Option String
image_mime_from_ext to_lower ext = lookup (to_lower ext) image_extensions

unfoldable pub document_mime_from_ext : (String → String) → String → Option String
document_mime_from_ext to_lower ext = lookup (to_lower ext) document_extensions

abbrev Found : (String → Type 0) → Option String → Type 0
Found P none = Unit
Found P (some v) = P v

lookup-Found :
    (P : String → Type 0) (k : String) (m : Dict String) → All (λ e. P e.1) m → Found P (lookup k m)
unfolding lookup
lookup-Found P k [] h = tt
lookup-Found P k ((j, w) ∷ m) h = elim (Bool-cases (j == k)) [
  | inl here ↦ rw here h.0
  | inr later ↦ rw later (lookup-Found P k m h.1)
]

lookup-All :
    (P : String → Type 0) (k v : String) (m : Dict String)
    → All (λ e. P e.1) m
    → lookup k m ≡ some v
    → P v
lookup-All P k v m h e = subst (Found P) e (lookup-Found P k m h)

image_listed :
    (k v : String) → lookup k image_extensions ≡ some v → is_listed image_mime_types v ≡ true
unfolding is_listed
image_listed k v e =
    lookup-All (λ t. is_listed image_mime_types t ≡ true) k v image_extensions
      (refl, (refl, (refl, (refl, (refl, tt))))) e

document_listed :
    (k v : String) → lookup k document_extensions ≡ some v → is_listed document_mime_types v ≡ true
unfolding is_listed
document_listed k v e =
    lookup-All (λ t. is_listed document_mime_types t ≡ true) k v document_extensions
      (refl, (refl, (refl, (refl, (refl, (refl, (refl, (refl, (refl, (refl, tt)))))))))) e

-- A source with the bytes of a file and the MIME type that its extension gives is accepted, for
-- images as for documents.
validate-mime_from_ext :
    (to_lower : String → String) (has_prefix : String → String → Bool) (ext mime : String) (x : ℕ)
    (xs : List ℕ)
    → (image_mime_from_ext to_lower ext ≡ some mime
        → validate_image (record { bytes = x ∷ xs; base64 = ""; url = ""; mime_type = mime })
          ≡ none)
      × ((name : String)
          → document_mime_from_ext to_lower ext ≡ some mime
          → validate_document has_prefix (record {
            bytes = x ∷ xs;
            base64 = "";
            url = "";
            file_id = "";
            s3_uri = "";
            s3_bucket_owner = "";
            mime_type = mime;
            name = name;
          })
            ≡ none)
unfolding validate_image validate_document image_sources document_sources has_bytes has_text
    image_mime_from_ext document_mime_from_ext
validate-mime_from_ext to_lower has_prefix ext mime x xs = (
  λ e. rw (image_listed (to_lower ext) mime e) refl,
  λ name e. rw (document_listed (to_lower ext) mime e) refl,
)
