-- ===== src/Conversation/Envelope.antt =====
-- agent/conversation/json_marshal.go: the JSON envelopes of messages. Package encoding/json is a
-- parameter, an encoder and a decoder of a slice of envelopes. A nil slice is the empty one.
pub mod RoundTrip
use gude_agents.Prelude.{
  ℕ, String, Bool, true, false, List, [], ◌∷◌, map, Option, none, some, ◌==◌, if◌then◌else◌,
}
use gude_agents.Message.{
  Bytes, Message, ContentBlock, text, tool_use, tool_result, image, document, widget, ImageBlock,
  TextBlock,
}

pub record JsonToolResultImage : Type 0 where
  pub bytes : Bytes
  pub base64 : String
  pub url : String
  pub mime_type : String

pub record JsonContentBlock : Type 0 where
  pub type_name : String
  pub text : String
  pub tool_use_id : String
  pub name : String
  pub input : Bytes
  pub content : String
  pub is_error : Bool
  pub image_bytes : Bytes
  pub image_base64 : String
  pub image_url : String
  pub image_mime_type : String
  pub doc_bytes : Bytes
  pub doc_base64 : String
  pub doc_url : String
  pub doc_file_id : String
  pub doc_s3_uri : String
  pub doc_s3_bucket_owner : String
  pub doc_mime_type : String
  pub doc_name : String
  pub tool_result_images : List JsonToolResultImage
  pub widget_type : String
  pub widget_payload : Bytes

pub record JsonMessage : Type 0 where
  pub role : String
  pub content : List JsonContentBlock

-- The zero value but for its type.
abbrev pub blank : String → JsonContentBlock
blank type_name = record {
  type_name = type_name;
  text = "";
  tool_use_id = "";
  name = "";
  input = [];
  content = "";
  is_error = false;
  image_bytes = [];
  image_base64 = "";
  image_url = "";
  image_mime_type = "";
  doc_bytes = [];
  doc_base64 = "";
  doc_url = "";
  doc_file_id = "";
  doc_s3_uri = "";
  doc_s3_bucket_owner = "";
  doc_mime_type = "";
  doc_name = "";
  tool_result_images = [];
  widget_type = "";
  widget_payload = [];
}

abbrev pub image_to_json : ImageBlock → JsonToolResultImage
image_to_json img = record {
  bytes = img.source.bytes;
  base64 = img.source.base64;
  url = img.source.url;
  mime_type = img.source.mime_type;
}

unfoldable pub content_block_to_json : ContentBlock → JsonContentBlock
content_block_to_json (text b) = record (blank "text") { text = b.text }
content_block_to_json (tool_use b) = record (blank "tool_use") {
  tool_use_id = b.tool_use_id;
  name = b.name;
  input = b.input;
}
content_block_to_json (tool_result b) = record (blank "tool_result") {
  tool_use_id = b.tool_use_id;
  content = b.content;
  is_error = b.is_error;
  tool_result_images = map image_to_json b.images;
}
content_block_to_json (image b) = record (blank "image") {
  image_bytes = b.source.bytes;
  image_base64 = b.source.base64;
  image_url = b.source.url;
  image_mime_type = b.source.mime_type;
}
content_block_to_json (document b) = record (blank "document") {
  doc_bytes = b.source.bytes;
  doc_base64 = b.source.base64;
  doc_url = b.source.url;
  doc_file_id = b.source.file_id;
  doc_s3_uri = b.source.s3_uri;
  doc_s3_bucket_owner = b.source.s3_bucket_owner;
  doc_mime_type = b.source.mime_type;
  doc_name = b.source.name;
}
content_block_to_json (widget b) = record (blank "widget") {
  widget_type = b.type_name;
  widget_payload = b.payload;
}

abbrev pub json_to_image : JsonToolResultImage → ImageBlock
json_to_image img = record {
  source = record {
    bytes = img.bytes;
    base64 = img.base64;
    url = img.url;
    mime_type = img.mime_type;
  };
}

-- The `switch` on the type; its default is an empty text block.
unfoldable pub json_to_content_block : JsonContentBlock → ContentBlock
json_to_content_block j =
    if j.type_name == "text"
    then text (record { text = j.text })
    else if j.type_name == "tool_use"
    then tool_use (record { tool_use_id = j.tool_use_id; name = j.name; input = j.input })
    else if j.type_name == "tool_result"
    then tool_result (record {
      tool_use_id = j.tool_use_id;
      content = j.content;
      is_error = j.is_error;
      images = map json_to_image j.tool_result_images;
    })
    else if j.type_name == "image"
    then image (record {
      source = record {
        bytes = j.image_bytes;
        base64 = j.image_base64;
        url = j.image_url;
        mime_type = j.image_mime_type;
      };
    })
    else if j.type_name == "document"
    then document (record {
      source = record {
        bytes = j.doc_bytes;
        base64 = j.doc_base64;
        url = j.doc_url;
        file_id = j.doc_file_id;
        s3_uri = j.doc_s3_uri;
        s3_bucket_owner = j.doc_s3_bucket_owner;
        mime_type = j.doc_mime_type;
        name = j.doc_name;
      };
    })
    else if j.type_name == "widget"
    then widget (record { type_name = j.widget_type; payload = j.widget_payload })
    else text (record { text = "" })

-- The encoder and the decoder of package encoding/json at slices of envelopes.
pub record Json : Type 0 where
  pub marshal : List JsonMessage → Option Bytes
  pub unmarshal : Bytes → Option (List JsonMessage)

abbrev pub message_to_json : Message → JsonMessage
message_to_json m = record { role = m.role; content = map content_block_to_json m.content }

abbrev pub json_to_message : JsonMessage → Message
json_to_message j = record { role = j.role; content = map json_to_content_block j.content }

unfoldable pub marshal_messages : Json → List Message → Option Bytes
marshal_messages json messages = json.marshal (map message_to_json messages)

unfoldable pub unmarshal_messages : Json → Bytes → Option (List Message)
unmarshal_messages json data_bytes = elim (json.unmarshal data_bytes) [
  | none ↦ none
  | some js ↦ some (map json_to_message js)
]
