-- ===== src/Dispatch/Pipeline.antt =====
-- `executeCall` of agent/tool_exec.go, with the run's claim (`beginToolExecution` of
-- agent/engine.go) on its copy of the execution.
use gude_agents.Prelude.{
  String, Bool, true, false, ◌&&◌, List, [], ◌∷◌, Option, none, some, Result, ok, err, concat,
  if◌then◌else◌,
}
use gude_agents.Execution.{Execution, Json, Memory}
use gude_agents.Execution.Batch.{
  Call, RunError, uncertain, recovery_unsupported, store_failed, invalid_input, empty_call_id,
  duplicate_call_id, reused_differently, reused, conversation_conflict, execution_conflict,
  begin_tool_execution, persist_execution,
}
use gude_agents.Execution.Batch.AtMostOnce.{claimed}
use gude_agents.Dispatch.{
  Decision, ToolResult, Failure, Answer, Metadata, Output, Handler, chain_middleware, Equipped,
  Host, Run, Durable, OutcomeKind, definitive, pending_approval, unknown, coordination_failure,
  ToolOutcome, Mark, started, entered, ended, plain_result, outcome, tool_error, Refusal, refusal,
}

abbrev pub no_metadata : Metadata
no_metadata = record { idempotency_key = ""; recovery_replay = false }

abbrev pub claim_metadata : Result RunError (Execution × String × Bool) → Metadata
claim_metadata (ok (x, key, replay)) = record { idempotency_key = key; recovery_replay = replay }
claim_metadata (err e) = no_metadata

-- What the change of the claim leaves in the variables that it captures.
abbrev pub captured : Bool → String → String → Option Execution → Metadata
captured recovering id name none = no_metadata
captured recovering id name (some x) = claim_metadata (begin_tool_execution recovering id name x)

abbrev pub begun : Metadata → Option RunError → Result RunError Metadata
begun metadata none = ok metadata
begun metadata (some e) = err e

-- With what `persistExecution` left; a run that is not durable claims nothing.
abbrev pub begun_call :
    Bool
    → Durable
    → Memory × Option Execution × Option RunError
    → Metadata
    → Durable × Result RunError Metadata
begun_call false d saved metadata = (d, ok no_metadata)
begun_call true d (store, held, e) metadata =
    (record { store = store; execution = held }, begun metadata e)

unfoldable pub begin_call : Json → Run → Durable → Call → Durable × Result RunError Metadata
begin_call json r d call =
    begun_call r.durable d
      (persist_execution json d.store d.execution
        (λ x. claimed (begin_tool_execution r.recovering call.tool_use_id call.name x)))
      (captured r.recovering call.tool_use_id call.name d.execution)

abbrev pub failed_answer : String → Answer ToolResult
failed_answer message = record {
  result = err (record { message = message; outcome_unknown = false });
  widgets = [];
  human_input = none;
}

abbrev pub rich_result : Host → Call → Result Failure (Option Output) → Result Failure ToolResult
rich_result h call (err e) = err e
rich_result h call (ok none) = err (record {
  message = concat "rich tool " (concat (h.quote call.name) " returned nil output");
  outcome_unknown = false;
})
rich_result h call (ok (some o)) =
    ok (record { text = o.text; images = o.images; is_error = false })

abbrev pub text_result : Result Failure String → Result Failure ToolResult
text_result (err e) = err e
text_result (ok text) = ok (record { text = text; images = []; is_error = false })

-- `inner`
unfoldable pub inner : Host → Equipped → Handler
inner h t metadata call = elim t.rich_handler [
  | some run ↦
      let a = run metadata call.input in
      record {
        result = rich_result h call a.result;
        widgets = a.widgets;
        human_input = a.human_input;
      }
  | none ↦ elim t.handler [
    | some run ↦
        let a = run metadata call.input in
        record { result = text_result a.result; widgets = a.widgets; human_input = a.human_input }
    | none ↦ failed_answer (concat "tool " (concat (h.quote call.name) " has no handler"))
  ]
]

-- The outcome of a handler's answer, with the code of the end event.
unfoldable pub conclude :
    Host → Run → Call → Metadata → Answer ToolResult → ToolOutcome × Option String
conclude h r call metadata a = elim (a.result) [
  | err e ↦
      if e.outcome_unknown
      then (
        record {
          kind = unknown;
          result = plain_result call.tool_use_id;
          widgets = a.widgets;
          human_input = none;
          error =
              some (uncertain r.execution_id call.tool_use_id call.name metadata.idempotency_key);
        },
        some "outcome_unknown",
      )
      else (
        record {
          kind = definitive;
          result = record (plain_result call.tool_use_id) {
            content = tool_error h call.name e.message;
            is_error = true;
          };
          widgets = a.widgets;
          human_input = none;
          error = none;
        },
        some "tool_error",
      )
  | ok answer ↦ (
    record {
      kind = definitive;
      result = record (plain_result call.tool_use_id) {
        content = answer.text;
        images = answer.images;
        is_error = answer.is_error;
      };
      widgets = a.widgets;
      human_input = a.human_input;
      error = none;
    },
    if answer.is_error then some "tool_error" else none,
  )
]

-- `fail`, before the start was emitted.
unfoldable pub failed : Durable → Call → Refusal → Durable × List Mark × ToolOutcome
failed d call refused = (
  d,
  started call.tool_use_id ∷ ended call.tool_use_id (some refused.code) ∷ [],
  outcome definitive
      (record (plain_result call.tool_use_id) { content = refused.content; is_error = true }),
)

abbrev pub unclaimed_kind : RunError → OutcomeKind
unclaimed_kind (uncertain execution_id id name key) = unknown
unclaimed_kind recovery_unsupported = coordination_failure
unclaimed_kind conversation_conflict = coordination_failure
unclaimed_kind execution_conflict = coordination_failure
unclaimed_kind (empty_call_id i) = coordination_failure
unclaimed_kind (duplicate_call_id i id) = coordination_failure
unclaimed_kind (invalid_input id) = coordination_failure
unclaimed_kind (reused_differently i id) = coordination_failure
unclaimed_kind (reused i id) = coordination_failure
unclaimed_kind (store_failed e) = coordination_failure

-- From the claim on.
unfoldable pub claimed_call :
    Host
    → Run
    → Call
    → Equipped
    → Durable × Result RunError Metadata
    → Durable × List Mark × ToolOutcome
claimed_call h r call t (d, err e) = (
  d,
  started call.tool_use_id ∷ ended call.tool_use_id (some "outcome_unknown") ∷ [],
  record (outcome (unclaimed_kind e) (plain_result call.tool_use_id)) { error = some e },
)
claimed_call h r call t (d, ok metadata) =
    let answer = chain_middleware (inner h t) h.middlewares metadata call in
    let concluded = conclude h r call metadata answer in
    (
      d,
      started call.tool_use_id
          ∷ entered call.tool_use_id metadata
          ∷ ended call.tool_use_id concluded.1
          ∷ [],
      concluded.0,
    )

abbrev pub undecided : Option Decision → Bool
undecided none = true
undecided (some d) = false

-- The approval gate, behind the refusals.
unfoldable pub admitted :
    Host
    → Run
    → Durable
    → Call
    → Equipped
    → Option Decision
    → Option Refusal
    → Durable × List Mark × ToolOutcome
admitted h r d call t decision (some refused) = failed d call refused
admitted h r d call t decision none =
    if t.tool.needs_approval && undecided decision
    then (d, [], outcome pending_approval (plain_result call.tool_use_id))
    else claimed_call h r call t (begin_call h.json r d call)

unfoldable pub execute_call :
    Host
    → Run
    → Durable
    → Call
    → Option Equipped
    → Option Decision
    → Durable × List Mark × ToolOutcome
execute_call h r d call none decision =
    failed d call (record { content = concat "unknown tool: " call.name; code = "unknown_tool" })
execute_call h r d call (some t) decision =
    admitted h r d call t decision (refusal h r call t decision)
