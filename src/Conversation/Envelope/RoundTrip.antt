-- ===== src/Conversation/Envelope/RoundTrip.antt =====
-- Messages that are encoded and decoded again by agent/conversation/json_marshal.go.
use gude_agents.Prelude.{
  String, Bool, true, ◌&&◌, all, List, [], ◌∷◌, map, some, ◌≡◌, refl, ap, ◌∙◌,
}
use gude_agents.Message.{
  Bytes, Message, ContentBlock, text, tool_use, tool_result, image, document, widget, ImageBlock,
}
use gude_agents.Conversation.Envelope.{
  JsonToolResultImage, JsonContentBlock, JsonMessage, image_to_json, json_to_image,
  content_block_to_json, json_to_content_block, Json, message_to_json, json_to_message,
  marshal_messages, unmarshal_messages,
}

-- Raw messages inside an envelope or a block, rewritten.
abbrev pub compact_json : (Bytes → Bytes) → JsonContentBlock → JsonContentBlock
compact_json compact j = record j {
  input = compact j.input;
  widget_payload = compact j.widget_payload;
}

abbrev pub compact_envelope : (Bytes → Bytes) → JsonMessage → JsonMessage
compact_envelope compact j = record j { content = map (compact_json compact) j.content }

abbrev pub compact_block : (Bytes → Bytes) → ContentBlock → ContentBlock
compact_block compact (text b) = text b
compact_block compact (tool_use b) = tool_use (record b { input = compact b.input })
compact_block compact (tool_result b) = tool_result b
compact_block compact (image b) = image b
compact_block compact (document b) = document b
compact_block compact (widget b) = widget (record b { payload = compact b.payload })

abbrev pub compact_message : (Bytes → Bytes) → Message → Message
compact_message compact m = record m { content = map (compact_block compact) m.content }

-- Every text of an image, a block and an envelope passes a test.
abbrev pub image_texts : JsonToolResultImage → List String
image_texts i = i.base64 ∷ i.url ∷ i.mime_type ∷ []

abbrev pub block_texts : JsonContentBlock → List String
block_texts j =
    j.type_name ∷ j.text ∷ j.tool_use_id ∷ j.name ∷ j.content ∷ j.image_base64 ∷ j.image_url
    ∷ j.image_mime_type ∷ j.doc_base64 ∷ j.doc_url ∷ j.doc_file_id ∷ j.doc_s3_uri
    ∷ j.doc_s3_bucket_owner ∷ j.doc_mime_type ∷ j.doc_name ∷ j.widget_type ∷ []

abbrev pub valid_block : (String → Bool) → JsonContentBlock → Bool
valid_block is_valid j =
    all is_valid (block_texts j) && all (λ i. all is_valid (image_texts i)) j.tool_result_images

abbrev pub valid_envelope : (String → Bool) → JsonMessage → Bool
valid_envelope is_valid j = is_valid j.role && all (valid_block is_valid) j.content

-- What the module relies on in package encoding/json: a slice of envelopes that was encoded is decoded
-- again, but for raw messages, which the encoder compacts. That holds where every text is valid
-- UTF-8 (`is_valid`); in others the encoder replaces the bytes that are not.
pub record Codec (json : Json) : Type 0 where
  pub compact : Bytes → Bytes
  pub is_valid : String → Bool
  pub decodes :
      (js : List JsonMessage) (b : Bytes)
      → all (valid_envelope is_valid) js ≡ true
      → json.marshal js ≡ some b
      → json.unmarshal b ≡ some (map (compact_envelope compact) js)

images-again : (images : List ImageBlock) → map json_to_image (map image_to_json images) ≡ images
images-again [] = refl
images-again (i ∷ images) = ap (λ is. i ∷ is) (images-again images)

module _ (compact : Bytes → Bytes) where
  block-again :
      (b : ContentBlock)
      → json_to_content_block (compact_json compact (content_block_to_json b))
        ≡ compact_block compact b
  unfolding json_to_content_block content_block_to_json
  block-again (text b) = refl
  block-again (tool_use b) = refl
  block-again (tool_result b) =
      ap (λ is. tool_result (record b { images = is })) (images-again b.images)
  block-again (image b) = refl
  block-again (document b) = refl
  block-again (widget b) = refl

  blocks-again :
      (bs : List ContentBlock)
      → map json_to_content_block (map (compact_json compact) (map content_block_to_json bs))
        ≡ map (compact_block compact) bs
  blocks-again [] = refl
  blocks-again (b ∷ bs) =
      ap
        (λ c.
          c ∷ map json_to_content_block (map (compact_json compact) (map content_block_to_json bs)))
        (block-again b)
      ∙ ap (λ cs. compact_block compact b ∷ cs) (blocks-again bs)

  messages-again :
      (ms : List Message)
      → map json_to_message (map (compact_envelope compact) (map message_to_json ms))
        ≡ map (compact_message compact) ms
  messages-again [] = refl
  messages-again (m ∷ ms) =
      ap
        (λ bs.
          record m { content = bs }
          ∷ map json_to_message (map (compact_envelope compact) (map message_to_json ms)))
        (blocks-again m.content)
      ∙ ap (λ rest. compact_message compact m ∷ rest) (messages-again ms)

-- Messages that were encoded, and whose texts are valid UTF-8, are decoded to the same messages, block
-- by block, with the raw tool inputs and widget payloads compacted.
pub unmarshal-marshal :
    (json : Json) (c : Codec json) (ms : List Message) (b : Bytes)
    → all (valid_envelope c.is_valid) (map message_to_json ms) ≡ true
    → marshal_messages json ms ≡ some b
    → unmarshal_messages json b ≡ some (map (compact_message c.compact) ms)
unfolding marshal_messages unmarshal_messages
unmarshal-marshal json c ms b valid e =
    rw (c.decodes (map message_to_json ms) b valid e, unmarshal_messages)
      (ap some (messages-again c.compact ms))
