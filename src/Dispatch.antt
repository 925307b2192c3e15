-- ===== src/Dispatch.antt =====
-- The tool pipeline of agent/tool_exec.go with agent/middleware.go: one call of the model, from the
-- lookup to the outcome, and the claim of agent/engine.go before the handler. Handlers, guards and
-- middlewares are the application's; the input's check against the schema, `%q` and the JSON of a
-- denial are parameters too. Observers and times have no place in the model, and of the events the
-- model keeps the start and the end with its error code. Between them a mark stands for the call of the
-- middlewares around the handler, which a handler's side effects need.
pub mod Pipeline
pub mod Cleared
pub mod Reached
pub mod Once
pub mod Group
pub mod Order
use gude_agents.Prelude.{
  String, Bool, true, false, not, ◌&&◌, List, [], ◌∷◌, ◌++◌, Option, none, some, Result, ok, err,
  map, concat, ◌==◌, if◌then◌else◌,
}
use gude_agents.Message.{Bytes, ImageBlock, WidgetBlock, ToolResultBlock}
use gude_agents.Tool.{Attrs, Tool, allowed_for_principal, roles_allowed}
use gude_agents.Execution.{Execution, InputInterrupt, Json, Memory}
use gude_agents.Execution.Batch.{
  Call, RunError, uncertain, recovery_unsupported, store_failed, invalid_input, empty_call_id,
  duplicate_call_id, reused_differently, reused, conversation_conflict, begin_tool_execution,
  persist_execution,
}
use gude_agents.Execution.Batch.AtMostOnce.{claimed}

-- `tool.Decision`
pub record Decision : Type 0 where
  pub allow : Bool
  pub reason : String

abbrev pub deny : String → Decision
deny reason = record { allow = false; reason = reason }

-- The middleware's view of a call and of its result.
pub record ToolResult : Type 0 where
  pub text : String
  pub images : List ImageBlock
  pub is_error : Bool

-- A handler's error: its text, and whether `IsOutcomeUnknown` holds of it.
pub record Failure : Type 0 where
  pub message : String
  pub outcome_unknown : Bool

-- What a handler leaves: its result, the widgets it emitted and the input it asked for.
pub record Answer (A : Type 0) : Type 0 where
  pub result : Result Failure A
  pub widgets : List WidgetBlock
  pub human_input : Option InputInterrupt

-- The metadata of the handler's context.
pub record Metadata : Type 0 where
  pub idempotency_key : String
  pub recovery_replay : Bool

pub record Output : Type 0 where
  pub text : String
  pub images : List ImageBlock

abbrev pub Handler : Type 0
Handler = Metadata → Call → Answer ToolResult

-- `ChainMiddleware`
unfoldable pub chain_middleware : Handler → List (Handler → Handler) → Handler
chain_middleware handler [] = handler
chain_middleware handler (mw ∷ mws) = mw (chain_middleware handler mws)

-- A registered tool. A rich handler may return no output.
pub record Equipped : Type 0 where
  pub tool : Tool
  pub guard : Option (Bytes → Result String Decision)
  pub rich_handler : Option (Metadata → Bytes → Answer (Option Output))
  pub handler : Option (Metadata → Bytes → Answer String)

pub record Principal : Type 0 where
  pub roles : List String
  pub attrs : Attrs

pub record Host : Type 0 where
  pub validate : Tool → Bytes → Option String
  pub quote : String → String
  pub denial_json : String → String → String
  pub middlewares : List (Handler → Handler)
  pub json : Json

pub record Run : Type 0 where
  pub durable : Bool
  pub recovering : Bool
  pub execution_id : String
  pub principal : Option Principal

-- The execution store and the run's copy of its execution.
pub record Durable : Type 0 where
  pub store : Memory
  pub execution : Option Execution

pub data OutcomeKind : Type 0 where
  definitive pending_approval deferred unknown coordination_failure : OutcomeKind

pub record ToolOutcome : Type 0 where
  pub kind : OutcomeKind
  pub result : ToolResultBlock
  pub widgets : List WidgetBlock
  pub human_input : Option InputInterrupt
  pub error : Option RunError

-- `entered`: the chain of middlewares around the handler was called, with this metadata. Whether the handler
-- itself runs is then the middlewares' choice.
pub data Mark : Type 0 where
  started : String → Mark
  entered : String → Metadata → Mark
  ended : String → Option String → Mark

abbrev pub plain_result : String → ToolResultBlock
plain_result id = record { tool_use_id = id; content = ""; is_error = false; images = [] }

abbrev pub outcome : OutcomeKind → ToolResultBlock → ToolOutcome
outcome kind result = record {
  kind = kind;
  result = result;
  widgets = [];
  human_input = none;
  error = none;
}

-- `ToolError.Error`
abbrev pub tool_error : Host → String → String → String
tool_error h name cause = concat "tool " (concat (h.quote name) (concat " error: " cause))

-- An early return through `fail`: the content and the code.
pub record Refusal : Type 0 where
  pub content : String
  pub code : String

-- The first refusal of two checks.
abbrev pub or_else : Option Refusal → Option Refusal → Option Refusal
or_else (some r) second = some r
or_else none second = second

unfoldable pub human_denial : Host → Call → Option Decision → Option Refusal
human_denial h call none = none
human_denial h call (some d) =
    let reason = if d.reason == "" then "request denied by human reviewer" else d.reason in
    if d.allow
    then none
    else some (record { content = h.denial_json call.name reason; code = "tool_denied" })

abbrev pub has_principal : Option Principal → Bool
has_principal none = false
has_principal (some p) = true

abbrev pub roles_of : Option Principal → List String
roles_of none = []
roles_of (some p) = p.roles

abbrev pub attrs_of : Option Principal → Attrs
attrs_of none = []
attrs_of (some p) = p.attrs

unfoldable pub policy_denial : Host → Call → Option Principal → Tool → Option Refusal
policy_denial h call who t =
    let reason =
      if not (has_principal who)
      then "caller does not have the required principal or role"
      else if not (roles_allowed t (roles_of who))
      then "caller does not have the required principal or role"
      else "caller does not satisfy the required tool attributes" in
    if allowed_for_principal t (has_principal who) (roles_of who) (attrs_of who)
    then none
    else some (record { content = h.denial_json call.name reason; code = "tool_denied" })

abbrev pub input_refusal : Host → Call → Option String → Option Refusal
input_refusal h call none = none
input_refusal h call (some cause) =
    some (record { content = tool_error h call.name cause; code = "invalid_input" })

unfoldable pub schema_error : Host → Call → Tool → Option Refusal
schema_error h call t = input_refusal h call (h.validate t call.input)

-- An error of the guard is a denial.
abbrev pub guard_decision : Result String Decision → Decision
guard_decision (ok d) = d
guard_decision (err e) = deny e

unfoldable pub guard_denial : Host → Call → Option (Bytes → Result String Decision) → Option Refusal
guard_denial h call none = none
guard_denial h call (some guard) =
    let d = guard_decision (guard call.input) in
    if d.allow
    then none
    else some (record { content = h.denial_json call.name d.reason; code = "tool_denied" })

-- The checks before the approval gate, in their order.
unfoldable pub refusal : Host → Run → Call → Equipped → Option Decision → Option Refusal
refusal h r call t decision = or_else (human_denial h call decision) (
    or_else (policy_denial h call r.principal t.tool)
      (or_else (schema_error h call t.tool) (guard_denial h call t.guard)))
