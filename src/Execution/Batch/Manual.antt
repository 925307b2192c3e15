-- ===== src/Execution/Batch/Manual.antt =====
-- What a pause, a resume, the end of a run and a manual resolution change in an execution:
-- `persistApprovalDecisions`, `pauseRecoveredExecution`, `interrupt`, `finalizeExecution`,
-- `ReconcileToolExecution` and `finishResolutionClaim` of agent/engine.go, with the changes that a
-- resume and a recovery save. Each is the change alone: what is checked before it about the stores, the
-- context, the arguments, the expected version and whether the run is durable is left out.
pub mod Kept
use gude_agents.Prelude.{
  String, Bool, true, false, not, ◌||◌, List, [], ◌∷◌, Option, none, some, Result, ok, err, ◌==◌,
  if◌then◌else◌,
}
use gude_agents.Execution.{
  Execution, ExecutionPause, ExecutionStatus, ApprovalCall, ApprovalInterrupt, ToolExecution,
  ToolExecutionStatus, ToolApprovalDecision, ToolBatchExecution, ToolResolutionClaim, planned,
  ready, in_flight, tool_completed, other_tool_status, running, paused, tools, phase_paused, done,
  model, other_status, completed, failed, canceled,
}
use gude_agents.Execution.Batch.{
  RunError, recovery_unsupported, execution_conflict, Progress, with_calls, complete_calls,
  all_completed,
}

-- The inner loop of `persistApprovalDecisions`: the first call with the identifier takes its decision.
unfoldable pub approve_call :
    (String → ToolApprovalDecision)
    → String
    → List ToolExecution
    → Result RunError (List ToolExecution)
approve_call decision id [] = err recovery_unsupported
approve_call decision id (call ∷ calls) =
    let rest = approve_call decision id calls in
    if call.call_id == id
    then ok (record call { approval = some (decision call.call_id) } ∷ calls)
    else elim rest [ err e ↦ err e | ok decided ↦ ok (call ∷ decided) ]

unfoldable pub approve_calls :
    (String → ToolApprovalDecision)
    → List ApprovalCall
    → List ToolExecution
    → Result RunError (List ToolExecution)
approve_calls decision [] calls = ok calls
approve_calls decision (asked ∷ more) calls = elim (approve_call decision asked.call_id calls) [
  | err e ↦ err e
  | ok decided ↦ approve_calls decision more decided
]

abbrev pub in_batch :
    Execution
    → ToolBatchExecution
    → Result RunError (List ToolExecution)
    → Result RunError Execution
in_batch x b (err e) = err e
in_batch x b (ok calls) = ok (with_calls x b calls)

-- `persistApprovalDecisions`, with `decisionFor` of the response.
unfoldable pub approval_decisions :
    (String → ToolApprovalDecision)
    → Option ApprovalInterrupt
    → Execution
    → Result RunError Execution
approval_decisions decision none x = err recovery_unsupported
approval_decisions decision (some approval) x = elim x.tool_batch [
  | none ↦ err recovery_unsupported
  | some b ↦ in_batch x b (approve_calls decision approval.calls b.calls)
]

-- `pauseRecoveredExecution`
unfoldable pub recovered_pause : Progress → ExecutionPause → Execution → Execution
recovered_pause r p x = record x {
  status = paused;
  phase = phase_paused;
  revision = r.revision;
  last_sequence = r.last_sequence;
  pause = some p;
  pending_pause = none;
}

-- `interrupt`: the execution of a paused turn.
unfoldable pub paused_turn : Progress → ExecutionPause → Execution → Execution
paused_turn r p x = record x {
  status = paused;
  phase = phase_paused;
  revision = r.revision;
  last_sequence = r.last_sequence;
  iteration = r.iteration;
  usage = r.usage;
  pause = some p;
  pending_pause = none;
}

-- The pause that a recovery projects.
unfoldable pub projected_pause : ExecutionPause → Execution → Execution
projected_pause p x = record x {
  status = paused;
  phase = phase_paused;
  pause = some p;
  pending_pause = none;
}

-- The claim of a resume.
unfoldable pub resumed_execution : Execution → Execution
resumed_execution x = record x { status = running; phase = tools; pause = none }

-- `finalizeExecution`, with the status for the run's error. An active batch is left.
unfoldable pub finalized : Progress → ExecutionStatus → Execution → Execution
finalized r status x = elim x.tool_batch [
  | some b ↦ x
  | none ↦ record x {
    revision = r.revision;
    last_sequence = r.last_sequence;
    iteration = r.iteration;
    usage = r.usage;
    pause = none;
    phase = done;
    status = status;
  }
]

pub record ToolResolution : Type 0 where
  pub outcome : String
  pub output : String
  pub error_message : String

abbrev pub is_in_flight : ToolExecutionStatus → Bool
is_in_flight in_flight = true
is_in_flight planned = false
is_in_flight ready = false
is_in_flight tool_completed = false
is_in_flight (other_tool_status s) = false

-- The calls after a manual retry. The first call with the identifier has to be in flight.
unfoldable pub retry_call : String → List ToolExecution → Result RunError (List ToolExecution)
retry_call id [] = err execution_conflict
retry_call id (call ∷ calls) =
    let rest = retry_call id calls in
    if call.call_id == id
    then (if is_in_flight call.status
        then ok (record call { status = ready } ∷ calls)
        else err execution_conflict)
    else elim rest [ err e ↦ err e | ok retried ↦ ok (call ∷ retried) ]

abbrev pub resolution_claim : String → ToolResolution → ToolResolutionClaim
resolution_claim id res = record {
  call_id = id;
  outcome = res.outcome;
  output = res.output;
  error_message = res.error_message;
}

-- What `ReconcileToolExecution` saves first: the retried call, or the claim of a manual result.
abbrev pub reconcile_batch :
    String
    → ToolResolution
    → Execution
    → ToolBatchExecution
    → Result RunError (List ToolExecution)
    → Result RunError Execution
reconcile_batch id res x b (err e) = err e
reconcile_batch id res x b (ok retried) =
    if res.outcome == "retry"
    then ok (with_calls x b retried)
    else ok
        (record x { tool_batch = some (record b { resolution = some (resolution_claim id res) }) })

unfoldable pub reconcile : String → ToolResolution → Execution → Result RunError Execution
reconcile id res x = elim x.tool_batch [
  | none ↦ err execution_conflict
  | some b ↦ elim b.resolution [
    | some claim ↦ err execution_conflict
    | none ↦ reconcile_batch id res x b (retry_call id b.calls)
  ]
]

-- The change of `finishResolutionClaim`, for the claim that it started from.
unfoldable pub finish_resolution :
    Progress → ToolResolutionClaim → Execution → Result RunError Execution
finish_resolution r claim x = elim x.tool_batch [
  | none ↦ err execution_conflict
  | some b ↦ elim b.resolution [
    | none ↦ err execution_conflict
    | some current ↦
        let calls = complete_calls (claim.call_id ∷ []) b.calls in
        let seen = record x { revision = r.revision; last_sequence = r.last_sequence } in
        if not (current.call_id == claim.call_id)
        then err execution_conflict
        else if all_completed calls
        then ok (record seen { tool_batch = none; phase = model })
        else ok (record seen { tool_batch = some (record b { calls = calls; resolution = none }) })
  ]
]
