-- ===== src/Examples/Executions.antt =====
-- Concrete runs for agent/execution and the durable tool batch of agent/engine.go.
use gude_agents.Prelude.{
  String, true, false, List, [], ◌∷◌, Option, none, some, ap, sym, subst, inl, inr, Bool-cases,
  ◌==◌, eq_iff, if◌then◌else◌, ok, err, ◌≡◌, ◌≢◌, refl, arith, All, ◌+◌,
}
use gude_agents.Dict.{lookup}
use gude_agents.Message.{Bytes, Message, role_assistant, role_user, tool_use, tool_result}
use gude_agents.Execution.{
  Execution, ToolExecution, ToolBatchExecution, running, tools, ready, in_flight, TokenUsage, Json,
  Memory, conflict, save,
}
use gude_agents.Execution.Store.{Codec, kept, IsCurrent, Written, save_outcome}
use gude_agents.Execution.Versions.{saving, writes, save_once}
use gude_agents.Execution.Batch.{
  Call, Toolbox, Progress, store_failed, begin_tool_execution, claim_calls, claim_call,
  persist_execution, runtime_progress,
}
use gude_agents.Execution.Batch.AtMostOnce.{
  Change, claiming, reconciling, progressing, changes, begin_once,
}
use gude_agents.Execution.Batch.Spent.{Fails}
use gude_agents.Execution.Batch.Race.{persist_execution_race}
use gude_agents.Execution.Batch.Recovery.{
  active_tool_batch, match_uses, message_results, block_results, Reads, IsDistinct, contains,
  call_ids, active_tool_batch-Reads,
}

abbrev no_usage : TokenUsage
no_usage = record {
  input_tokens = 0;
  output_tokens = 0;
  cache_read_tokens = 0;
  cache_write_tokens = 0;
}

abbrev payment : ToolExecution
payment = record {
  call_id = "c1";
  name = "pay";
  status = ready;
  idempotency_key = "k1";
  input_hash = "h";
  input = [];
  replay_safe = false;
  approval = none;
}

abbrev batch : List ToolExecution → ToolBatchExecution
batch calls = record {
  iteration = 1;
  calls = calls;
  tool_use_revision = 3;
  tool_use_last_sequence = 2;
  resolution = none;
}

abbrev execution : Option ToolBatchExecution → Execution
execution b = record {
  id = "e1";
  conversation_id = "conv";
  revision = 3;
  last_sequence = 2;
  start_revision = 0;
  start_last_sequence = 0;
  start_cursor_persisted = true;
  status = running;
  phase = tools;
  iteration = 1;
  pause = none;
  pending_pause = none;
  tool_batch = b;
  usage = no_usage;
  version = 1;
}

abbrev toolbox : Toolbox
toolbox = record { input_hash = λ b. some "h"; key = λ x c. c; replay_safe = λ n. false }

abbrev progress : Progress
progress = record { revision = 3; last_sequence = 2; iteration = 1; usage = no_usage }

abbrev before_claim : Execution
before_claim = execution (some (batch (payment ∷ [])))

abbrev after_claim : Execution
after_claim = execution (some (batch (record payment { status = in_flight } ∷ [])))

granted : begin_tool_execution false "c1" "pay" before_claim ≡ ok (after_claim, "k1", false)
unfolding begin_tool_execution claim_calls claim_call
granted = refl

-- The application reports that the payment was made.
abbrev recheck : Change
recheck = reconciling "c1" (record { outcome = "succeeded"; output = "paid"; error_message = "" })

begin_once_example : Fails (
    begin_tool_execution true "c1" "pay" (
      changes toolbox (progressing progress ∷ recheck ∷ claiming true "c1" "pay" ∷ []) after_claim))
begin_once_example =
    begin_once toolbox "c1" false true "pay" "pay" "k1" false before_claim after_claim
      (progressing progress ∷ recheck ∷ claiming true "c1" "pay" ∷ []) refl granted
      (tt, (refl, (tt, tt)))

-- An encoder for the executions of one identifier.
abbrev plain : Execution
plain = execution none

abbrev renamed : String → Execution
renamed id = record plain { id = id; version = 0 }

abbrev json : Json
json = record {
  marshal = λ x. if x.id == "e1" then some (1 ∷ []) else none;
  unmarshal = λ b. some (renamed "e1");
}

decodes :
    (x : Execution) (payload : Bytes)
    → json.marshal x ≡ some payload
    → json.unmarshal payload ≡ some (renamed x.id)
decodes x payload e = elim (Bool-cases (x.id == "e1")) [
  | inl same ↦ ap (λ i. some (renamed i)) (sym ((eq_iff x.id "e1").0 same))
  | inr other ↦
      let bad : none ≡ some payload =
        subst (λ b. (if b then some (1 ∷ []) else none) ≡ some payload) other e in
      ground arith
]

abbrev codec : Codec json
codec = record { normal = λ x. renamed x.id; normal_id = λ x. refl; decodes = decodes }

abbrev one : Memory
one = ("e1", record { version = 1; payload = 1 ∷ [] }) ∷ []

abbrev payload : Bytes
payload = 1 ∷ []

named : plain.id ≢ ""
named e = ground (arith, eq_iff "e1" "")

current : IsCurrent one "e1" 1
unfolding lookup
current = (omega arith, omega arith, (record { version = 1; payload = 1 ∷ [] }, refl, refl))

save_outcome_example :
    ((save json one plain 1).1 ≡ ok (kept codec plain (1 + 1)))
    × Written json codec plain payload refl named one (save json one plain 1).0 (1 + 1)
save_outcome_example = (save_outcome json codec plain payload refl named one 1).0 current

save_once_example :
    let m' = writes json (save json one plain 1).0 (saving plain 2 ∷ []) in
    save json m' plain 1 ≡ (m', err (conflict "save" "e1"))
save_once_example =
    save_once json codec one plain plain 1 payload payload (saving plain 2 ∷ []) refl refl named
      refl current

persist_execution_race_example :
    let first = persist_execution json one (some plain) (λ x. ok (runtime_progress progress x)) in
    let m' = writes json first.0 (saving plain 7 ∷ []) in
    (first ≡ (first.0, some (kept codec plain 2), none))
    × (persist_execution json m' (some plain) (λ x. ok (runtime_progress progress x))
        ≡ (m', some plain, some (store_failed (conflict "save" "e1"))))
unfolding runtime_progress
persist_execution_race_example =
    persist_execution_race json codec one plain plain plain plain
      (λ x. ok (runtime_progress progress x)) (λ x. ok (runtime_progress progress x)) payload
      payload (saving plain 7 ∷ []) refl refl refl refl named refl refl current

abbrev turns : List Message
turns =
    record {
      role = role_assistant;
      content = tool_use (record { tool_use_id = "c1"; name = "pay"; input = [] }) ∷ [];
    }
    ∷ record {
      role = role_user;
      content =
          tool_result
            (record { tool_use_id = "c1"; content = "done"; is_error = false; images = [] })
          ∷ [];
    }
    ∷ []

abbrev pay_call : Call
pay_call = record { tool_use_id = "c1"; name = "pay"; input = [] }

read_turns :
    active_tool_batch toolbox turns (some (batch (payment ∷ []))) ≡ ok (pay_call ∷ [], "c1" ∷ [])
unfolding active_tool_batch match_uses message_results block_results
read_turns = refl

active_tool_batch-Reads_example :
    Reads toolbox (pay_call ∷ []) (payment ∷ [])
    × IsDistinct ("c1" ∷ [])
    × All (λ id. contains (call_ids (pay_call ∷ [])) id ≡ true) ("c1" ∷ [])
active_tool_batch-Reads_example =
    active_tool_batch-Reads toolbox turns (batch (payment ∷ [])) (pay_call ∷ []) ("c1" ∷ [])
      read_turns
