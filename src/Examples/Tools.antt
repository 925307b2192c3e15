-- ===== src/Examples/Tools.antt =====
-- Concrete runs for the tool pipeline of agent/tool_exec.go and agent/turn_messages.go.
use gude_agents.Prelude.{
  String, Bool, true, false, List, [], ◌∷◌, Option, none, some, ok, any, ◌≡◌, refl, arith,
  Bool-cases, inl, inr, ◌==◌, eq_iff, sym, ap, subst, if◌then◌else◌,
}
use gude_agents.Dict.{Dict, lookup}
use gude_agents.Message.{
  Bytes, Message, ContentBlock, tool_use, tool_result, text, image, document, widget, role_user,
  role_assistant,
}
use gude_agents.Tool.{Tool, allowed_for_principal}
use gude_agents.Execution.{
  Execution, ToolExecution, running, tools, ready, in_flight, TokenUsage, Json, save, validate_id,
  check_expected, marshal_execution, unmarshal_execution,
}
use gude_agents.Execution.Store.{Codec}
use gude_agents.Execution.Batch.{
  Call, persist_execution, begin_tool_execution, claim_calls, claim_call,
}
use gude_agents.Dispatch.{
  Decision, Equipped, Host, Run, Durable, refusal, human_denial, policy_denial, schema_error,
  guard_denial,
}
use gude_agents.Dispatch.Pipeline.{execute_call, admitted, claimed_call, begin_call}
use gude_agents.Dispatch.Cleared.{is_entered, Cleared}
use gude_agents.Dispatch.Once.{KeepsCalls, execute_call_once}
use gude_agents.Dispatch.Group.{
  Policy, execute_batch, preflight, run_jobs, one_by_one, attempt, exec, in_order, concurrent_limit,
}
use gude_agents.Dispatch.Group.Approval.{execute_batch-pending}
use gude_agents.Dispatch.Order.{TurnMessages}

abbrev pay : Tool
pay = record { name = "pay"; needs_approval = false; replay_safe = false; role_policy = none }

abbrev equipped : Tool → Equipped
equipped t = record {
  tool = t;
  guard = some (λ input. ok (record { allow = true; reason = "" }));
  rich_handler = none;
  handler =
      some (λ metadata input. record { result = ok "paid"; widgets = []; human_input = none });
}

abbrev no_usage : TokenUsage
no_usage = record {
  input_tokens = 0;
  output_tokens = 0;
  cache_read_tokens = 0;
  cache_write_tokens = 0;
}

abbrev payment : ToolExecution
payment = record {
  call_id = "c1";
  name = "pay";
  status = ready;
  idempotency_key = "k1";
  input_hash = "h";
  input = [];
  replay_safe = false;
  approval = none;
}

abbrev execution : ToolExecution → Execution
execution call = record {
  id = "e1";
  conversation_id = "conv";
  revision = 3;
  last_sequence = 2;
  start_revision = 0;
  start_last_sequence = 0;
  start_cursor_persisted = true;
  status = running;
  phase = tools;
  iteration = 1;
  pause = none;
  pending_pause = none;
  tool_batch = some (record {
    iteration = 1;
    calls = call ∷ [];
    tool_use_revision = 3;
    tool_use_last_sequence = 2;
    resolution = none;
  });
  usage = no_usage;
  version = 1;
}

abbrev dispatched : ToolExecution
dispatched = record payment { status = in_flight }

-- An encoder for the executions of one identifier, whose call was dispatched.
abbrev kept_as : String → Execution
kept_as id = record (execution dispatched) { id = id; version = 0 }

abbrev json : Json
json = record {
  marshal = λ x. if x.id == "e1" then some (1 ∷ []) else none;
  unmarshal = λ b. some (kept_as "e1");
}

decodes :
    (x : Execution) (payload : Bytes)
    → json.marshal x ≡ some payload
    → json.unmarshal payload ≡ some (kept_as x.id)
decodes x payload e = elim (Bool-cases (x.id == "e1")) [
  | inl same ↦ ap (λ i. some (kept_as i)) (sym ((eq_iff x.id "e1").0 same))
  | inr other ↦
      let bad : none ≡ some payload =
        subst (λ b. (if b then some (1 ∷ []) else none) ≡ some payload) other e in
      ground arith
]

abbrev codec : Codec json
codec = record { normal = λ x. kept_as x.id; normal_id = λ x. refl; decodes = decodes }

keeps : KeepsCalls codec
keeps id x spent = elim (Bool-cases ("c1" == id)) [
  | inl same ↦ rw same (tt, refl)
  | inr other ↦ rw other tt
]

abbrev host : Host
host = record {
  validate = λ t input. none;
  quote = λ s. s;
  denial_json = λ name reason. reason;
  middlewares = [];
  json = json;
}

abbrev run : Run
run = record { durable = true; recovering = false; execution_id = "e1"; principal = none }

abbrev local : Run
local = record run { durable = false }

abbrev call : Call
call = record { tool_use_id = "c1"; name = "pay"; input = [] }

abbrev durable : Durable
durable = record {
  store = ("e1", record { version = 1; payload = 1 ∷ [] }) ∷ [];
  execution = some (execution payment);
}

execute_call_once_example :
    any is_entered
      (execute_call host run
        (execute_call host run durable call (some (equipped pay)) none).0
        call
        (some (equipped pay))
        none).1
    ≡ false
unfolding execute_call admitted refusal human_denial policy_denial schema_error guard_denial
    allowed_for_principal begin_call persist_execution begin_tool_execution claim_calls claim_call
    save validate_id check_expected marshal_execution unmarshal_execution lookup claimed_call
execute_call_once_example =
    execute_call_once host codec run run durable call call (some (equipped pay))
      (some (equipped pay)) none none keeps refl refl refl refl refl

-- A batch with a tool that needs an approval and one that does not.
abbrev wipe : Tool
wipe = record { name = "wipe"; needs_approval = true; replay_safe = false; role_policy = none }

abbrev policy : Policy
policy = record {
  sequential = false;
  max_concurrent_tools = 0;
  order = λ jobs. jobs;
  canceled = λ i. none;
}

abbrev available : Dict Equipped
available = ("pay", equipped pay) ∷ ("wipe", equipped wipe) ∷ []

abbrev requests : List (Call × Option Decision)
requests = (call, none) ∷ (record { tool_use_id = "c2"; name = "wipe"; input = [] }, none) ∷ []

execute_batch-pending_example :
    any is_entered (execute_batch host local policy available false requests durable).marks ≡ false
unfolding execute_batch preflight run_jobs one_by_one attempt exec in_order concurrent_limit
    execute_call admitted refusal human_denial policy_denial schema_error guard_denial
    allowed_for_principal lookup
execute_batch-pending_example =
    execute_batch-pending host local policy available (λ q jobs e. e) requests durable 1 refl

abbrev question : Message
question = record {
  role = role_assistant;
  content =
      tool_use (record { tool_use_id = "c1"; name = "pay"; input = [] })
      ∷ tool_use (record { tool_use_id = "c2"; name = "wipe"; input = [] })
      ∷ [];
}

abbrev result_of : String → Message
result_of id = record {
  role = role_user;
  content =
      tool_result (record { tool_use_id = id; content = "done"; is_error = false; images = [] })
      ∷ [];
}

abbrev turn : TurnMessages
turn = record {
  canonical = question ∷ result_of "c2" ∷ result_of "c1" ∷ [];
  transient = record { role = role_user; content = text (record { text = "context" }) ∷ [] } ∷ [];
}

abbrev is_text : ContentBlock → Bool
is_text (text t) = true
is_text (tool_use u) = false
is_text (tool_result r) = false
is_text (image i) = false
is_text (document d) = false
is_text (widget w) = false
