-- ===== src/Examples/Envelopes.antt =====
-- Concrete runs for agent/conversation/json_marshal.go.
mod Fields
use gude_agents.Prelude.{
  ℕ, zero, suc, Bool, true, false, ◌&&◌, List, [], ◌∷◌, map, Option, none, some, ◌≡◌, refl, ◌∙◌, ap,
  sym, subst, ◌==◌, eq_iff, if◌then◌else◌, inl, inr, Bool-cases, Option-cases, and_split, clash,
}
use gude_agents.Message.{
  Bytes, Message, ContentBlock, text, tool_use, tool_result, image, document, widget, role_user,
}
use gude_agents.Conversation.Envelope.{
  Json, JsonMessage, JsonContentBlock, blank, content_block_to_json, marshal_messages,
  unmarshal_messages,
}
use gude_agents.Examples.Envelopes.Fields.{same_block, same_block-eq}
use gude_agents.Conversation.Envelope.RoundTrip.{
  Codec, compact_envelope, compact_message, unmarshal-marshal,
}

abbrev blocks : List ContentBlock
blocks =
    text (record { text = "hi" })
    ∷ tool_use (record { tool_use_id = "c1"; name = "pay"; input = [] })
    ∷ tool_result (record { tool_use_id = "c1"; content = "done"; is_error = true; images = [] })
    ∷ image (record {
      source = record { bytes = []; base64 = "aGk="; url = ""; mime_type = "image/png" };
    })
    ∷ document (record {
      source = record {
        bytes = [];
        base64 = "";
        url = "https://example.com/a.pdf";
        file_id = "";
        s3_uri = "";
        s3_bucket_owner = "";
        mime_type = "application/pdf";
        name = "a";
      };
    })
    ∷ widget (record { type_name = "chart"; payload = [] })
    ∷ []

-- An encoder for messages of the user with blocks of a table: the places of the blocks, from 1 on, and 0
-- behind each message.
abbrev place : List JsonContentBlock → JsonContentBlock → Option ℕ
place [] c = none
place (s ∷ ss) c =
    let rest = place ss c in
    if same_block s c then some 0 else elim rest [ none ↦ none | some n ↦ some (suc n) ]

abbrev block_at : List JsonContentBlock → ℕ → JsonContentBlock
block_at [] n = blank ""
block_at (s ∷ ss) zero = s
block_at (s ∷ ss) (suc n) = block_at ss n

abbrev Placed : List JsonContentBlock → JsonContentBlock → Option ℕ → Type 0
Placed ss c none = Unit
Placed ss c (some n) = block_at ss n ≡ c

place-Placed : (ss : List JsonContentBlock) (c : JsonContentBlock) → Placed ss c (place ss c)
place-Placed [] c = tt
place-Placed (s ∷ ss) c = elim (Bool-cases (same_block s c)) [
  | inl same ↦ rw same (same_block-eq s c same)
  | inr other ↦ rw other (elim (Option-cases (place ss c)) [
    | inl absent ↦ rw absent tt
    | inr (n, there) ↦ rw there (subst (Placed ss c) there (place-Placed ss c))
  ])
]

abbrev behind : Option ℕ → Option Bytes → Option Bytes
behind none rest = none
behind (some n) none = none
behind (some n) (some b) = some (suc n ∷ b)

abbrev ended : Option Bytes → Option Bytes
ended none = none
ended (some b) = some (0 ∷ b)

abbrev add_block : JsonContentBlock → List JsonMessage → List JsonMessage
add_block c [] = []
add_block c (j ∷ js) = record j { content = c ∷ j.content } ∷ js

module _ (table : List JsonContentBlock) where
  abbrev encode_blocks : List JsonContentBlock → Option Bytes → Option Bytes
  encode_blocks [] rest = ended rest
  encode_blocks (c ∷ cs) rest = behind (place table c) (encode_blocks cs rest)

  abbrev encode : List JsonMessage → Option Bytes
  encode [] = some []
  encode (j ∷ js) =
      let coded = encode_blocks j.content (encode js) in if j.role == role_user then coded else none

  abbrev decode : Bytes → List JsonMessage
  decode [] = []
  decode (zero ∷ b) = record { role = role_user; content = [] } ∷ decode b
  decode (suc n ∷ b) = add_block (block_at table n) (decode b)

  abbrev Decodes : List JsonMessage → Option Bytes → Type 0
  Decodes js none = Unit
  Decodes js (some b) = decode b ≡ map (compact_envelope (λ raw. raw)) js

  ended-Decodes :
      (js : List JsonMessage) (rest : Option Bytes)
      → Decodes js rest
      → Decodes (record { role = role_user; content = [] } ∷ js) (ended rest)
  ended-Decodes js none h = tt
  ended-Decodes js (some b) h = ap (λ rest. record { role = role_user; content = [] } ∷ rest) h

  behind-Decodes :
      (c : JsonContentBlock) (cs : List JsonContentBlock) (js : List JsonMessage) (n : Option ℕ)
      (rest : Option Bytes)
      → Placed table c n
      → Decodes (record { role = role_user; content = cs } ∷ js) rest
      → Decodes (record { role = role_user; content = c ∷ cs } ∷ js) (behind n rest)
  behind-Decodes c cs js none rest there h = tt
  behind-Decodes c cs js (some n) none there h = tt
  behind-Decodes c cs js (some n) (some b) there h =
      ap (λ s. add_block s (decode b)) there ∙ ap (add_block c) h

  encode_blocks-Decodes :
      (cs : List JsonContentBlock) (js : List JsonMessage) (rest : Option Bytes)
      → Decodes js rest
      → Decodes (record { role = role_user; content = cs } ∷ js) (encode_blocks cs rest)
  encode_blocks-Decodes [] js rest h = ended-Decodes js rest h
  encode_blocks-Decodes (c ∷ cs) js rest h =
      behind-Decodes c cs js (place table c) (encode_blocks cs rest) (place-Placed table c)
        (encode_blocks-Decodes cs js rest h)

  encode-Decodes : (js : List JsonMessage) → Decodes js (encode js)
  encode-Decodes [] = refl
  encode-Decodes (j ∷ js) = elim (Bool-cases (j.role == role_user)) [
    | inr other ↦ rw other tt
    | inl user ↦ rw user (
        subst
          (λ r.
            Decodes (record { role = r; content = j.content } ∷ js)
              (encode_blocks j.content (encode js)))
          (sym ((eq_iff j.role role_user).0 user))
          (encode_blocks-Decodes j.content js (encode js) (encode-Decodes js)))
  ]

abbrev table : List JsonContentBlock
table = map content_block_to_json blocks

abbrev json : Json
json = record { marshal = encode table; unmarshal = λ b. some (decode table b) }

abbrev codec : Codec json
codec = record {
  compact = λ raw. raw;
  is_valid = λ s. true;
  decodes = λ js b valid e. ap some (subst (Decodes table js) e (encode-Decodes table js));
}

abbrev spoken : Message
spoken = record { role = role_user; content = blocks }

unmarshal-marshal_example :
    unmarshal_messages json (1 ∷ 2 ∷ 3 ∷ 4 ∷ 5 ∷ 6 ∷ 0 ∷ [])
    ≡ some (map (compact_message (λ raw. raw)) (spoken ∷ []))
unfolding marshal_messages content_block_to_json
unmarshal-marshal_example =
    unmarshal-marshal json codec (spoken ∷ []) (1 ∷ 2 ∷ 3 ∷ 4 ∷ 5 ∷ 6 ∷ 0 ∷ []) refl refl
