-- ===== src/Message.antt =====
-- The messages of a conversation: agent/provider.go, agent/content.go and agent/widget.go.
-- Byte slices are lists of numbers; `json.RawMessage` is one of them. A slice is a list, and where
-- the code tells a nil slice from an empty one, the model takes an `Option`.
pub mod Sources
use gude_agents.Prelude.{ℕ, Bool, List, [], ◌∷◌, ◌++◌, String}

-- Go's `[]byte`.
abbrev pub Bytes : Type 0
Bytes = List ℕ

-- A string type with two constants.
abbrev pub Role : Type 0
Role = String

abbrev pub role_user : Role
role_user = "user"

abbrev pub role_assistant : Role
role_assistant = "assistant"

pub record TextBlock : Type 0 where
  pub text : String

pub record ImageSource : Type 0 where
  pub bytes : Bytes
  pub base64 : String
  pub url : String
  pub mime_type : String

pub record ImageBlock : Type 0 where
  pub source : ImageSource

pub record ToolUseBlock : Type 0 where
  pub tool_use_id : String
  pub name : String
  pub input : Bytes

pub record ToolResultBlock : Type 0 where
  pub tool_use_id : String
  pub content : String
  pub is_error : Bool
  pub images : List ImageBlock

pub record DocumentSource : Type 0 where
  pub bytes : Bytes
  pub base64 : String
  pub url : String
  pub file_id : String
  pub s3_uri : String
  pub s3_bucket_owner : String
  pub mime_type : String
  pub name : String

pub record DocumentBlock : Type 0 where
  pub source : DocumentSource

pub record WidgetBlock : Type 0 where
  pub type_name : String
  pub payload : Bytes

-- The sealed union.
pub data ContentBlock : Type 0 where
  text : TextBlock → ContentBlock
  tool_use : ToolUseBlock → ContentBlock
  tool_result : ToolResultBlock → ContentBlock
  image : ImageBlock → ContentBlock
  document : DocumentBlock → ContentBlock
  widget : WidgetBlock → ContentBlock

pub record Message : Type 0 where
  pub role : Role
  pub content : List ContentBlock

-- All content blocks of a sequence, in order.
abbrev pub blocks : List Message → List ContentBlock
blocks [] = []
blocks (m ∷ ms) = m.content ++ blocks ms
