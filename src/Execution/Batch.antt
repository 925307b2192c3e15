-- ===== src/Execution/Batch.antt =====
-- The durable tool batch of agent/engine.go: the changes that a run makes to its execution, and the
-- compare-and-swap that stores each of them. A run's copy of the execution is a value, so
-- `cloneExecution` is the identity. The hash of a tool's input, the idempotency key and the registry's
-- answer to `ReplaySafe` are parameters (SHA-256 and JSON canonicalisation stand behind them).
pub mod Spent
pub mod AtMostOnce
pub mod Race
pub mod Recovery
pub mod Manual
use gude_agents.Prelude.{
  ℕ, suc, String, Bool, true, false, not, ◌||◌, ◌&&◌, List, [], ◌∷◌, Option, none, some, Result, ok,
  err, ◌>>=◌, any, ◌==◌, if◌then◌else◌,
}
use gude_agents.Words.{Int64}
use gude_agents.Dict.{Dict, lookup}
use gude_agents.Message.{Bytes}
use gude_agents.Execution.{
  Execution, ExecutionError, ExecutionPause, tools, model, ToolExecution, ToolExecutionStatus,
  planned, ready, in_flight, tool_completed, other_tool_status, ToolBatchExecution, TokenUsage,
  Json, Memory, save,
}

-- `tool.Call`
pub record Call : Type 0 where
  pub tool_use_id : String
  pub name : String
  pub input : Bytes

pub record PriorToolUse : Type 0 where
  pub name : String
  pub input_hash : String

pub data RunError : Type 0 where
  recovery_unsupported conversation_conflict execution_conflict : RunError
  uncertain : String → String → String → String → RunError
  empty_call_id : ℕ → RunError
  duplicate_call_id : ℕ → String → RunError
  invalid_input : String → RunError
  reused_differently reused : ℕ → String → RunError
  store_failed : ExecutionError → RunError

pub record Toolbox : Type 0 where
  pub input_hash : Bytes → Option String
  pub key : String → String → String
  pub replay_safe : String → Bool

-- The runtime values that a change records.
pub record Progress : Type 0 where
  pub revision : ℕ
  pub last_sequence : ℕ
  pub iteration : Int64
  pub usage : TokenUsage

abbrev pub planned_call : Toolbox → String → Call → String → ToolExecution
planned_call box execution_id call hash = record {
  call_id = call.tool_use_id;
  name = call.name;
  status = planned;
  idempotency_key = box.key execution_id call.tool_use_id;
  input_hash = hash;
  input = call.input;
  replay_safe = box.replay_safe call.name;
  approval = none;
}

-- The loop of `planToolBatch`, from call `i` on, with the identifiers seen.
unfoldable pub plan_calls :
    Toolbox
    → Dict PriorToolUse
    → String
    → ℕ
    → List String
    → List Call
    → Result RunError (List ToolExecution)
plan_calls box prior execution_id i seen [] = ok []
plan_calls box prior execution_id i seen (call ∷ calls) =
    let id = call.tool_use_id in
    let rest = plan_calls box prior execution_id (suc i) (id ∷ seen) calls in
    if id == ""
    then err (empty_call_id i)
    else if any (λ s. s == id) seen
    then err (duplicate_call_id i id)
    else elim (box.input_hash call.input) [
      | none ↦ err (invalid_input id)
      | some hash ↦ elim (lookup id prior) [
        | some previous ↦
            if not (previous.name == call.name) || not (previous.input_hash == hash)
            then err (reused_differently i id)
            else err (reused i id)
        | none ↦ elim rest [
          | err e ↦ err e
          | ok planned_calls ↦ ok (planned_call box execution_id call hash ∷ planned_calls)
        ]
      ]
    ]

abbrev pub with_calls : Execution → ToolBatchExecution → List ToolExecution → Execution
with_calls x b calls = record x { tool_batch = some (record b { calls = calls }) }

-- `planToolBatch`
unfoldable pub plan_tool_batch :
    Toolbox → Dict PriorToolUse → Progress → List Call → Execution → Result RunError Execution
plan_tool_batch box prior r calls x = elim x.tool_batch [
  | some _ ↦ err recovery_unsupported
  | none ↦ elim (plan_calls box prior x.id 0 [] calls) [
    | err e ↦ err e
    | ok planned_calls ↦ ok (record x {
      revision = r.revision;
      last_sequence = r.last_sequence;
      phase = tools;
      iteration = r.iteration;
      tool_batch = some (record {
        iteration = r.iteration;
        calls = planned_calls;
        tool_use_revision = 0;
        tool_use_last_sequence = 0;
        resolution = none;
      });
    })
  ]
]

abbrev pub is_planned : ToolExecutionStatus → Bool
is_planned planned = true
is_planned ready = false
is_planned in_flight = false
is_planned tool_completed = false
is_planned (other_tool_status s) = false

-- The loop of `markToolBatchReady`.
unfoldable pub ready_calls : List ToolExecution → Result RunError (List ToolExecution)
ready_calls [] = ok []
ready_calls (call ∷ calls) =
    let rest = ready_calls calls in
    if not (is_planned call.status) then err recovery_unsupported else elim rest [
      | err e ↦ err e
      | ok readied ↦ ok (record call { status = ready; input = [] } ∷ readied)
    ]

unfoldable pub mark_tool_batch_ready : Progress → Execution → Result RunError Execution
mark_tool_batch_ready r x = elim x.tool_batch [
  | none ↦ err recovery_unsupported
  | some b ↦ elim (ready_calls b.calls) [
    | err e ↦ err e
    | ok calls ↦ ok (record x {
      revision = r.revision;
      last_sequence = r.last_sequence;
      tool_batch = some (record b {
        calls = calls;
        tool_use_revision = r.revision;
        tool_use_last_sequence = r.last_sequence;
      });
    })
  ]
]

-- What a claim answers: the calls with the claim, the key, and whether it is a replay.
pub record Claim : Type 0 where
  pub calls : List ToolExecution
  pub key : String
  pub recovery_replay : Bool

-- The `switch` of `beginToolExecution` on the claimed call, before the calls that follow it.
unfoldable pub claim_call :
    Bool
    → String
    → String
    → ToolExecution
    → List ToolExecution
    → ToolExecutionStatus
    → Result RunError Claim
claim_call recovering execution_id tool_name call calls ready = ok (record {
  calls = record call { status = in_flight } ∷ calls;
  key = call.idempotency_key;
  recovery_replay = false;
})
claim_call recovering execution_id tool_name call calls in_flight =
    if recovering && call.replay_safe
    then ok (record { calls = call ∷ calls; key = call.idempotency_key; recovery_replay = true })
    else err (uncertain execution_id call.call_id tool_name call.idempotency_key)
claim_call recovering execution_id tool_name call calls planned = err recovery_unsupported
claim_call recovering execution_id tool_name call calls tool_completed = err recovery_unsupported
claim_call recovering execution_id tool_name call calls (other_tool_status s) =
    err recovery_unsupported

-- The loop of `beginToolExecution`.
unfoldable pub claim_calls :
    Bool → String → String → String → List ToolExecution → Result RunError Claim
claim_calls recovering execution_id call_id tool_name [] = err recovery_unsupported
claim_calls recovering execution_id call_id tool_name (call ∷ calls) =
    let rest = claim_calls recovering execution_id call_id tool_name calls in
    if call.call_id == call_id
    then claim_call recovering execution_id tool_name call calls call.status
    else elim rest [ err e ↦ err e | ok c ↦ ok (record c { calls = call ∷ c.calls }) ]

unfoldable pub begin_tool_execution :
    Bool → String → String → Execution → Result RunError (Execution × String × Bool)
begin_tool_execution recovering call_id tool_name x = elim x.tool_batch [
  | none ↦ err recovery_unsupported
  | some b ↦ elim (claim_calls recovering x.id call_id tool_name b.calls) [
    | err e ↦ err e
    | ok c ↦ ok (with_calls x b c.calls, c.key, c.recovery_replay)
  ]
]

abbrev pub complete_call : List String → ToolExecution → ToolExecution
complete_call completed call =
    if any (λ id. id == call.call_id) completed
    then record call { status = tool_completed }
    else call

abbrev pub complete_calls : List String → List ToolExecution → List ToolExecution
complete_calls completed [] = []
complete_calls completed (call ∷ calls) =
    complete_call completed call ∷ complete_calls completed calls

abbrev pub is_completed : ToolExecutionStatus → Bool
is_completed tool_completed = true
is_completed planned = false
is_completed ready = false
is_completed in_flight = false
is_completed (other_tool_status s) = false

abbrev pub all_completed : List ToolExecution → Bool
all_completed [] = true
all_completed (call ∷ calls) = is_completed call.status && all_completed calls

-- `removeToolCalls`
unfoldable pub remove_tool_calls : Progress → List String → Execution → Execution
remove_tool_calls r completed x =
    let seen = record x { revision = r.revision; last_sequence = r.last_sequence } in
    elim x.tool_batch [
      | none ↦ seen
      | some b ↦
          let calls = complete_calls completed b.calls in
          if all_completed calls
          then record seen { tool_batch = none; phase = model }
          else with_calls seen b calls
    ]

-- `persistRuntimeProgress`, `persistPendingPause` and `persistExecutionStartCursor`
unfoldable pub runtime_progress : Progress → Execution → Execution
runtime_progress r x = record x { iteration = r.iteration; usage = r.usage }

unfoldable pub pending_pause : Progress → ExecutionPause → Execution → Execution
pending_pause r p x = record x { pending_pause = some p; iteration = r.iteration; usage = r.usage }

unfoldable pub start_cursor : Progress → Execution → Execution
start_cursor r x = if x.start_cursor_persisted then x else record x {
  start_revision = r.revision;
  start_last_sequence = r.last_sequence;
  start_cursor_persisted = true;
}

-- The run's copy after a save.
abbrev pub persisted :
    Execution
    → Memory × Result ExecutionError Execution
    → Memory × Option Execution × Option RunError
persisted x (m, ok updated) = (m, some updated, none)
persisted x (m, err e) = (m, some x, some (store_failed e))

-- `persistExecution` of a durable run: the store, the run's copy and the error.
unfoldable pub persist_execution :
    Json
    → Memory
    → Option Execution
    → (Execution → Result RunError Execution)
    → Memory × Option Execution × Option RunError
persist_execution json m none change = (m, none, some recovery_unsupported)
persist_execution json m (some x) change = elim (change x) [
  | err e ↦ (m, some x, some e)
  | ok next ↦ persisted x (save json m next next.version)
]
