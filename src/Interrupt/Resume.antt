-- ===== src/Interrupt/Resume.antt =====
-- What a batch of tool calls leaves for the conversation and for a pause, and the batch of a resumed
-- approval: `resultBlocks`, `batchOutcomeError`, `pendingInterrupt` and `approvalResumeBatch` of
-- agent/engine.go.
use gude_agents.Prelude.{
  String, Bool, true, false, not, ◌&&◌, List, [], ◌∷◌, Option, none, some, Result, ok, err, any,
  length, nat_eq, ◌==◌, if◌then◌else◌,
}
use gude_agents.Dict.{Dict, lookup, insert}
use gude_agents.Message.{
  Bytes, Message, ContentBlock, text, tool_use, tool_result, image, document, widget,
  role_assistant,
}
use gude_agents.Execution.{ApprovalCall, ApprovalInterrupt, InputInterrupt}
use gude_agents.Execution.Batch.{Call, RunError}
use gude_agents.Dispatch.{
  Decision, ToolOutcome, definitive, OutcomeKind, pending_approval, deferred, unknown,
  coordination_failure,
}
use gude_agents.Dispatch.Group.{is_pending}
use gude_agents.Interrupt.{Interrupt, ResumeResponse, decision_for}

abbrev pub is_definitive : OutcomeKind → Bool
is_definitive definitive = true
is_definitive pending_approval = false
is_definitive deferred = false
is_definitive unknown = false
is_definitive coordination_failure = false

-- `resultBlocks`
unfoldable pub result_blocks : List (Call × ToolOutcome) → List ContentBlock
result_blocks [] = []
result_blocks ((call, o) ∷ rest) =
    let blocks = result_blocks rest in
    if not (is_definitive o.kind)
    then blocks
    else if o.result.tool_use_id == ""
    then blocks
    else tool_result o.result ∷ blocks

-- `batchOutcomeError`
unfoldable pub batch_outcome_error : List (Call × ToolOutcome) → Option RunError
batch_outcome_error [] = none
batch_outcome_error ((call, o) ∷ rest) = elim o.error [
  | some e ↦ some e
  | none ↦ batch_outcome_error rest
]

-- The request of the first handler that asked for input.
unfoldable pub first_input : List (Call × ToolOutcome) → Option InputInterrupt
first_input [] = none
first_input ((call, o) ∷ rest) = elim o.human_input [
  | some asked ↦ some asked
  | none ↦ first_input rest
]

abbrev pub paused_result : String
paused_result =
    "Not executed: the invocation paused for human input. Call the tool again if it is still needed."

abbrev pub cancel : Call × ToolOutcome → Call × ToolOutcome
cancel (call, o) =
    if is_pending o.kind
    then (
      call,
      record o {
        kind = definitive;
        result = record o.result {
          tool_use_id = call.tool_use_id;
          content = paused_result;
          is_error = true;
        };
      },
    )
    else (call, o)

unfoldable pub cancel_pending : List (Call × ToolOutcome) → List (Call × ToolOutcome)
cancel_pending [] = []
cancel_pending (entry ∷ rest) = cancel entry ∷ cancel_pending rest

abbrev pub approval_call : Call → ApprovalCall
approval_call call = record { call_id = call.tool_use_id; name = call.name; input = call.input }

unfoldable pub pending_calls : List (Call × ToolOutcome) → List ApprovalCall
pending_calls [] = []
pending_calls ((call, o) ∷ rest) =
    let calls = pending_calls rest in
    if is_pending o.kind then approval_call call ∷ calls else calls

abbrev pub new_interrupt : String → Option ApprovalInterrupt → Option InputInterrupt → Interrupt
new_interrupt type_name approval input = record {
  execution_id = "";
  execution_version = 0;
  type_name = type_name;
  conversation_id = "";
  revision = 0;
  last_sequence = 0;
  approval = approval;
  input = input;
}

abbrev pub approval_interrupt : List ApprovalCall → Option Interrupt
approval_interrupt [] = none
approval_interrupt (call ∷ calls) =
    some (new_interrupt "approval" (some (record { calls = call ∷ calls })) none)

-- `pendingInterrupt`: the outcomes that it leaves, and the interrupt.
unfoldable pub pending_interrupt :
    List (Call × ToolOutcome) → List (Call × ToolOutcome) × Option Interrupt
pending_interrupt entries = elim (first_input entries) [
  | some asked ↦ (cancel_pending entries, some (new_interrupt "human_input" none (some asked)))
  | none ↦ (entries, approval_interrupt (pending_calls entries))
]

-- The map of the pending calls.
unfoldable pub pending_map : Dict ApprovalCall → List ApprovalCall → Dict ApprovalCall
pending_map m [] = m
pending_map m (call ∷ calls) = pending_map (insert call.call_id call m) calls

-- The approved input goes before that of the message.
abbrev pub resumed_input : Bytes → Option ApprovalCall → Bytes
resumed_input input none = input
resumed_input input (some approved) = approved.input

-- The calls of a message, and the identifiers among them that were pending, each one once.
unfoldable pub message_calls : Dict ApprovalCall → List ContentBlock → List Call
message_calls pending [] = []
message_calls pending (tool_use u ∷ bs) =
    record {
      tool_use_id = u.tool_use_id;
      name = u.name;
      input = resumed_input u.input (lookup u.tool_use_id pending);
    }
    ∷ message_calls pending bs
message_calls pending (text t ∷ bs) = message_calls pending bs
message_calls pending (tool_result r ∷ bs) = message_calls pending bs
message_calls pending (image i ∷ bs) = message_calls pending bs
message_calls pending (document d ∷ bs) = message_calls pending bs
message_calls pending (widget w ∷ bs) = message_calls pending bs

abbrev pub see : String → Option ApprovalCall → List String → List String
see id none seen = seen
see id (some approved) seen = if any (λ i. i == id) seen then seen else id ∷ seen

unfoldable pub seen_pending : Dict ApprovalCall → List String → List Call → List String
seen_pending pending seen [] = seen
seen_pending pending seen (call ∷ calls) =
    seen_pending pending (see call.tool_use_id (lookup call.tool_use_id pending) seen) calls

abbrev pub decision_of : ResumeResponse → String → Option ApprovalCall → Option Decision
decision_of response id none = none
decision_of response id (some approved) = some (decision_for response id)

unfoldable pub with_decisions :
    ResumeResponse → Dict ApprovalCall → List Call → List (Call × Option Decision)
with_decisions response pending [] = []
with_decisions response pending (call ∷ calls) =
    (call, decision_of response call.tool_use_id (lookup call.tool_use_id pending))
    ∷ with_decisions response pending calls

abbrev pub is_batch : Dict ApprovalCall → List Call → Bool
is_batch pending [] = false
is_batch pending (call ∷ calls) =
    nat_eq (length (seen_pending pending [] (call ∷ calls))) (length pending)

-- The batch of the last assistant message that has all pending calls.
unfoldable pub last_batch :
    ResumeResponse → Dict ApprovalCall → List Message → Option (List (Call × Option Decision))
last_batch response pending [] = none
last_batch response pending (m ∷ ms) =
    let calls = message_calls pending m.content in
    elim (last_batch response pending ms) [
      | some found ↦ some found
      | none ↦
          if (m.role == role_assistant) && is_batch pending calls
          then some (with_decisions response pending calls)
          else none
    ]

pub data ResumeBatchError : Type 0 where
  no_calls batch_not_found : ResumeBatchError

abbrev pub found_batch :
    Option (List (Call × Option Decision)) → Result ResumeBatchError (List (Call × Option Decision))
found_batch none = err batch_not_found
found_batch (some requests) = ok requests

abbrev pub resume_calls :
    List Message
    → List ApprovalCall
    → ResumeResponse
    → Result ResumeBatchError (List (Call × Option Decision))
resume_calls ms [] response = err no_calls
resume_calls ms (call ∷ calls) response =
    found_batch (last_batch response (pending_map [] (call ∷ calls)) ms)

-- `approvalResumeBatch`
unfoldable pub approval_resume_batch :
    List Message
    → Option ApprovalInterrupt
    → ResumeResponse
    → Result ResumeBatchError (List (Call × Option Decision))
approval_resume_batch ms none response = err no_calls
approval_resume_batch ms (some approval) response = resume_calls ms approval.calls response
