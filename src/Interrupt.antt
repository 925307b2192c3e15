-- ===== src/Interrupt.antt =====
-- Pauses for a human: agent/interrupt.go and, of agent/engine.go, what a batch of tool calls leaves
-- (`resultBlocks`, `batchOutcomeError`, `pendingInterrupt`) and the calls of a resumed batch
-- (`approvalResumeBatch`, in the module Resume). A call stands beside its outcome, as `executeBatch`
-- returns them. A range over a map takes the order of its list.
pub mod Resume
pub mod Valid
pub mod Planned
pub mod Obeyed
pub mod Remaining
use gude_agents.Prelude.{
  ℕ, String, Bool, true, false, not, ◌&&◌, List, [], ◌∷◌, Option, none, some, Result, ok, err, any,
  ◌==◌, if◌then◌else◌,
}
use gude_agents.Dict.{Dict, lookup}
use gude_agents.Message.{ContentBlock, tool_result}
use gude_agents.Execution.{
  ApprovalCall, ApprovalInterrupt, InputInterrupt, Execution, ExecutionPause, ExecutionStatus,
  paused, running, completed, failed, canceled, other_status,
}
use gude_agents.Execution.Batch.{Call, RunError}
use gude_agents.Dispatch.{
  Decision, deny, ToolOutcome, definitive, OutcomeKind, pending_approval, deferred, unknown,
  coordination_failure,
}
use gude_agents.Dispatch.Group.{is_pending}

pub record Interrupt : Type 0 where
  pub execution_id : String
  pub execution_version : ℕ
  pub type_name : String
  pub conversation_id : String
  pub revision : ℕ
  pub last_sequence : ℕ
  pub approval : Option ApprovalInterrupt
  pub input : Option InputInterrupt

pub data ResumeKind : Type 0 where
  resume_none resume_all resume_decide resume_respond : ResumeKind

pub record ResumeResponse : Type 0 where
  pub kind : ResumeKind
  pub decision : Decision
  pub decisions : Dict Decision
  pub text : String

abbrev pub zero_decision : Decision
zero_decision = record { allow = false; reason = "" }

abbrev pub approve : ResumeResponse
approve = record {
  kind = resume_all;
  decision = record { allow = true; reason = "" };
  decisions = [];
  text = "";
}

abbrev pub deny_all : String → ResumeResponse
deny_all reason = record { kind = resume_all; decision = deny reason; decisions = []; text = "" }

abbrev pub decide : Dict Decision → ResumeResponse
decide decisions = record {
  kind = resume_decide;
  decision = zero_decision;
  decisions = decisions;
  text = "";
}

abbrev pub respond : String → ResumeResponse
respond text = record {
  kind = resume_respond;
  decision = zero_decision;
  decisions = [];
  text = text;
}

pub data ResumeError : Type 0 where
  nil_interrupt no_calls respond_to_approval empty_response respond_required : ResumeError
  empty_call_id duplicate_call_id missing_decision unexpected_decision unknown_type :
      String → ResumeError

-- The identifiers of the calls, newest first, behind those that were seen.
unfoldable pub seen_calls : List String → List ApprovalCall → Result ResumeError (List String)
seen_calls seen [] = ok seen
seen_calls seen (call ∷ calls) =
    let rest = seen_calls (call.call_id ∷ seen) calls in
    if call.call_id == ""
    then err (empty_call_id call.name)
    else if any (λ id. id == call.call_id) seen
    then err (duplicate_call_id call.call_id)
    else rest

abbrev pub has_key : Dict Decision → String → Bool
has_key decisions id = any (λ entry. entry.0 == id) decisions

-- The first identifier without a decision, and the first decision without a call.
unfoldable pub missing : Dict Decision → List String → Option ResumeError
missing decisions [] = none
missing decisions (id ∷ ids) =
    let rest = missing decisions ids in
    if has_key decisions id then rest else some (missing_decision id)

unfoldable pub unexpected : List String → Dict Decision → Option ResumeError
unexpected seen [] = none
unexpected seen ((id, d) ∷ decisions) =
    let rest = unexpected seen decisions in
    if any (λ i. i == id) seen then rest else some (unexpected_decision id)

abbrev pub first_error : Option ResumeError → Option ResumeError → Option ResumeError
first_error (some e) second = some e
first_error none second = second

unfoldable pub check_response : ResumeResponse → ResumeKind → List String → Option ResumeError
check_response r resume_all seen = none
check_response r resume_decide seen =
    first_error (missing r.decisions seen) (unexpected seen r.decisions)
check_response r resume_respond seen = some respond_to_approval
check_response r resume_none seen = some empty_response

abbrev pub check_seen : ResumeResponse → Result ResumeError (List String) → Option ResumeError
check_seen r (err e) = some e
check_seen r (ok seen) = check_response r r.kind seen

abbrev pub check_calls : List ApprovalCall → ResumeResponse → Option ResumeError
check_calls [] r = some no_calls
check_calls (call ∷ calls) r = check_seen r (seen_calls [] (call ∷ calls))

unfoldable pub check_approval : Option ApprovalInterrupt → ResumeResponse → Option ResumeError
check_approval none r = some no_calls
check_approval (some approval) r = check_calls approval.calls r

abbrev pub is_respond : ResumeKind → Bool
is_respond resume_respond = true
is_respond resume_none = false
is_respond resume_all = false
is_respond resume_decide = false

-- `validateResume`: an error where there is one.
unfoldable pub validate_resume : Option Interrupt → ResumeResponse → Option ResumeError
validate_resume none r = some nil_interrupt
validate_resume (some i) r =
    if i.type_name == "approval"
    then check_approval i.approval r
    else if i.type_name == "human_input"
    then (if not (is_respond r.kind) then some respond_required else none)
    else some (unknown_type i.type_name)

-- `decisionFor`: a missing key reads as the zero decision, a denial.
unfoldable pub decision_for : ResumeResponse → String → Decision
decision_for r id = elim r.kind [
  | resume_decide ↦ elim (lookup id r.decisions) [ none ↦ zero_decision | some d ↦ d ]
  | _ ↦ r.decision
]

-- `interruptFromExecution`, and the projection of `LoadInterrupt`.
unfoldable pub interrupt_from_execution : Execution → Interrupt
interrupt_from_execution x =
    let base : Interrupt = record {
      execution_id = x.id;
      execution_version = x.version;
      type_name = "";
      conversation_id = x.conversation_id;
      revision = x.revision;
      last_sequence = x.last_sequence;
      approval = none;
      input = none;
    } in
    elim x.pause [
      | none ↦ base
      | some p ↦ record base { type_name = p.type_name; approval = p.approval; input = p.input }
    ]

-- `pauseFromInterrupt`
abbrev pub pause_from_interrupt : Interrupt → ExecutionPause
pause_from_interrupt i = record { type_name = i.type_name; approval = i.approval; input = i.input }
