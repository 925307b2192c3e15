-- ===== src/Examples/Messages.antt =====
-- Concrete runs for agent/normalize.go and agent/content.go.
use gude_agents.Prelude.{
  String, Bool, true, List, [], ◌∷◌, ◌++◌, none, some, ◌≡◌, refl, inl, inr, ◌↔◌,
}
use gude_agents.Message.{Message, role_user, role_assistant, text, blocks, DocumentSource}
use gude_agents.Message.Sources.{validate_document}
use gude_agents.Message.Sources.Document.{HasOneSource, validate_document_iff}
use gude_agents.Normalize.{merge, fill, remove, normalize_messages, continue_message}
use gude_agents.Normalize.Alternation.{TurnsFrom, normalize_messages-TurnsFrom}
use gude_agents.Normalize.Contents.{opening, normalize_messages-contents}
use mathlib.Core.List.{Sublistᴰ}

abbrev ask : Message
ask = record { role = role_user; content = text (record { text = "hello" }) ∷ [] }

abbrev reply : Message
reply = record { role = role_assistant; content = text (record { text = "hi" }) ∷ [] }

abbrev doubled : List Message
doubled = reply ∷ ask ∷ ask ∷ reply ∷ []

normalize_messages-TurnsFrom_example :
    (out : List Message) × (normalize_messages (some doubled) fill ≡ some out)
    × TurnsFrom role_user out
normalize_messages-TurnsFrom_example =
    normalize_messages-TurnsFrom fill doubled tt (inr refl, (inl refl, (inl refl, (inr refl, tt))))

normalize_messages-contents_example :
    ((out : List Message) × (normalize_messages (some doubled) merge ≡ some out)
      × (blocks out ≡ opening doubled ++ blocks doubled))
    × ((out : List Message) × (normalize_messages (some doubled) fill ≡ some out)
        × Sublistᴰ doubled out)
    × ((out : List Message) × (normalize_messages (some doubled) remove ≡ some out)
        × Sublistᴰ out (continue_message ∷ doubled))
normalize_messages-contents_example = normalize_messages-contents doubled

abbrev linked : DocumentSource
linked = record {
  bytes = [];
  base64 = "";
  url = "https://example.com/a.pdf";
  file_id = "";
  s3_uri = "";
  s3_bucket_owner = "";
  mime_type = "";
  name = "a";
}

abbrev any_prefix : String → String → Bool
any_prefix s p = true

validate_document_iff_example :
    (validate_document any_prefix linked ≡ none) ↔ HasOneSource any_prefix linked
validate_document_iff_example = validate_document_iff any_prefix linked
