-- ===== src/Execution.antt =====
-- Durable executions: the types of agent/execution.go, the shared record handling of
-- agent/execution/internal/record/record.go and the store `Memory` of agent/execution/memory.go.
-- `encoding/json` is a parameter: an encoder and a decoder, which may both fail. A nil
-- `json.RawMessage` is the empty one.
pub mod Store
pub mod Versions
pub mod Batch
use gude_agents.Prelude.{
  ℕ, ◌+◌, ◌-◌, ◌%◌, String, Bool, true, false, not, ◌||◌, List, [], ◌∷◌, Option, none, some, Result,
  ok, err, ◌>>=◌, ltb, nat_eq, ◌==◌, if◌then◌else◌,
}
use gude_agents.Words.{Int64, two63, two64}
use gude_agents.Dict.{Dict, lookup, insert}
use gude_agents.Message.{Bytes}

pub data ExecutionStatus : Type 0 where
  running paused completed failed canceled : ExecutionStatus
  other_status : String → ExecutionStatus

pub data ExecutionPhase : Type 0 where
  model tools phase_paused done : ExecutionPhase
  other_phase : String → ExecutionPhase

pub record ApprovalCall : Type 0 where
  pub call_id : String
  pub name : String
  pub input : Bytes

pub record ApprovalInterrupt : Type 0 where
  pub calls : List ApprovalCall

pub record InputInterrupt : Type 0 where
  pub reason : String
  pub question : String

pub record ExecutionPause : Type 0 where
  pub type_name : String
  pub approval : Option ApprovalInterrupt
  pub input : Option InputInterrupt

pub data ToolExecutionStatus : Type 0 where
  planned ready in_flight tool_completed : ToolExecutionStatus
  other_tool_status : String → ToolExecutionStatus

pub record ToolApprovalDecision : Type 0 where
  pub allow : Bool
  pub reason : String

pub record ToolExecution : Type 0 where
  pub call_id : String
  pub name : String
  pub status : ToolExecutionStatus
  pub idempotency_key : String
  pub input_hash : String
  pub input : Bytes
  pub replay_safe : Bool
  pub approval : Option ToolApprovalDecision

pub record ToolResolutionClaim : Type 0 where
  pub call_id : String
  pub outcome : String
  pub output : String
  pub error_message : String

pub record ToolBatchExecution : Type 0 where
  pub iteration : Int64
  pub calls : List ToolExecution
  pub tool_use_revision : ℕ
  pub tool_use_last_sequence : ℕ
  pub resolution : Option ToolResolutionClaim

pub record TokenUsage : Type 0 where
  pub input_tokens : Int64
  pub output_tokens : Int64
  pub cache_read_tokens : Int64
  pub cache_write_tokens : Int64

pub record Execution : Type 0 where
  pub id : String
  pub conversation_id : String
  pub revision : ℕ
  pub last_sequence : ℕ
  pub start_revision : ℕ
  pub start_last_sequence : ℕ
  pub start_cursor_persisted : Bool
  pub status : ExecutionStatus
  pub phase : ExecutionPhase
  pub iteration : Int64
  pub pause : Option ExecutionPause
  pub pending_pause : Option ExecutionPause
  pub tool_batch : Option ToolBatchExecution
  pub usage : TokenUsage
  pub version : ℕ

pub data ExecutionError : Type 0 where
  id_required marshal_failed unmarshal_failed : ExecutionError
  id_mismatch : String → String → ExecutionError
  not_found : String → ExecutionError
  conflict : String → String → ExecutionError

-- The encoder and the decoder of package encoding/json at this type.
pub record Json : Type 0 where
  pub marshal : Execution → Option Bytes
  pub unmarshal : Bytes → Option Execution

pub record MemoryRecord : Type 0 where
  pub version : ℕ
  pub payload : Bytes

abbrev pub Memory : Type 0
Memory = Dict MemoryRecord

abbrev pub new_memory : Memory
new_memory = []

-- `ValidateID`: an error where there is one.
unfoldable pub validate_id : String → Option ExecutionError
validate_id id = if id == "" then some id_required else none

abbrev pub stamped : Execution → ℕ → Execution
stamped x n = record x { version = n }

unfoldable pub marshal_execution : Json → Execution → Result ExecutionError Bytes
marshal_execution json x = elim (json.marshal (stamped x 0)) [
  | none ↦ err marshal_failed
  | some data_bytes ↦ ok data_bytes
]

unfoldable pub unmarshal_execution : Json → Bytes → String → ℕ → Result ExecutionError Execution
unmarshal_execution json data_bytes want_id version = elim (json.unmarshal data_bytes) [
  | none ↦ err unmarshal_failed
  | some x ↦
      if not (x.id == want_id) then err (id_mismatch x.id want_id) else ok (stamped x version)
]

unfoldable pub check_expected : String → ℕ → Option ExecutionError
check_expected id expected =
    if nat_eq expected 0 || ltb (two63 - 1) expected then some (conflict "save" id) else none

unfoldable pub create : Json → Memory → Execution → Memory × Result ExecutionError Execution
create json m x = elim (validate_id x.id) [
  | some e ↦ (m, err e)
  | none ↦ elim (marshal_execution json x) [
    | err e ↦ (m, err e)
    | ok payload ↦ elim (lookup x.id m) [
      | some _ ↦ (m, err (conflict "create" x.id))
      | none ↦ (
        insert x.id (record { version = 1; payload = payload }) m,
        unmarshal_execution json payload x.id 1,
      )
    ]
  ]
]

unfoldable pub load : Json → Memory → String → Result ExecutionError Execution
load json m id = elim (validate_id id) [
  | some e ↦ err e
  | none ↦ elim (lookup id m) [
    | none ↦ err (not_found id)
    | some stored ↦ unmarshal_execution json stored.payload id stored.version
  ]
]

-- The version after a save.
abbrev pub next_version : ℕ → ℕ
next_version expected = (expected + 1) % two64

unfoldable pub save : Json → Memory → Execution → ℕ → Memory × Result ExecutionError Execution
save json m x expected = elim (validate_id x.id) [
  | some e ↦ (m, err e)
  | none ↦ elim (check_expected x.id expected) [
    | some e ↦ (m, err e)
    | none ↦ elim (marshal_execution json x) [
      | err e ↦ (m, err e)
      | ok payload ↦ elim (lookup x.id m) [
        | none ↦ (m, err (conflict "save" x.id))
        | some current ↦
            if not (nat_eq current.version expected) then (m, err (conflict "save" x.id)) else (
              insert x.id (record { version = next_version expected; payload = payload }) m,
              unmarshal_execution json payload x.id (next_version expected),
            )
      ]
    ]
  ]
]
