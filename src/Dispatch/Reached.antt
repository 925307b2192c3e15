-- ===== src/Dispatch/Reached.antt =====
-- What `executeCall` of agent/tool_exec.go does with the handler and the middlewares of a call: it
-- reports what they answer, or neither of them has any influence.
use gude_agents.Prelude.{List, [], Option, none, some, Result, ok, err, ◌≡◌, if◌then◌else◌, String}
use gude_agents.Message.{Bytes}
use gude_agents.Execution.Batch.{Call}
use gude_agents.Dispatch.{
  Decision, Failure, Answer, Metadata, Output, Handler, chain_middleware, Equipped, Host, Run,
  Durable, definitive, unknown, ToolOutcome, plain_result,
}
use gude_agents.Dispatch.Pipeline.{begin_call, inner, conclude, execute_call}
use gude_agents.Dispatch.Cleared.{Cleared}

abbrev pub with_middlewares : Host → List (Handler → Handler) → Host
with_middlewares h mws = record h { middlewares = mws }

abbrev pub with_handlers :
    Equipped
    → Option (Metadata → Bytes → Answer (Option Output))
    → Option (Metadata → Bytes → Answer String)
    → Equipped
with_handlers t rich plain = record t { rich_handler = rich; handler = plain }

-- The outcome of what a handler of plain text answered.
abbrev pub Reports : Call → Answer String → Result Failure String → ToolOutcome → Type 0
Reports call a (ok text) o =
    (o.kind ≡ definitive)
    × (o.result ≡ record (plain_result call.tool_use_id) { content = text })
    × (o.widgets ≡ a.widgets)
    × (o.human_input ≡ a.human_input)
    × (o.error ≡ none)
Reports call a (err e) o =
    (o.kind ≡ (if e.outcome_unknown then unknown else definitive))
    × (o.result.tool_use_id ≡ call.tool_use_id)
    × (o.widgets ≡ a.widgets)
    × (o.human_input ≡ none)

module _ (h : Host) (r : Run) (call : Call) (d : Durable) (t : Equipped)
    (decision : Option Decision) where
  -- The middlewares around the handler ran, with the metadata of the claim, and their answer is
  -- reported; without middlewares that is what the handler answers.
  abbrev pub Ran : Type 0
  Ran =
      (metadata : Metadata) × ((begin_call h.json r d call).1 ≡ ok metadata)
      × ((execute_call h r d call (some t) decision).2
          ≡ (conclude h r call metadata
              (chain_middleware (inner h t) h.middlewares metadata call)).0)
      × ((plain : Metadata → Bytes → Answer String)
          → Reports call (plain metadata call.input) (plain metadata call.input).result
              (execute_call (with_middlewares h []) r d call
                (some (with_handlers t none (some plain))) decision).2)

  -- Whatever the handlers and the middlewares, the state, the events and the outcome are the same.
  abbrev pub Untouched : Type 0
  Untouched =
      (mws : List (Handler → Handler)) (rich : Option (Metadata → Bytes → Answer (Option Output)))
      (plain : Option (Metadata → Bytes → Answer String))
      → execute_call (with_middlewares h mws) r d call (some (with_handlers t rich plain)) decision
        ≡ execute_call h r d call (some t) decision

module _ (h : Host) (r : Run) (call : Call) (t : Equipped) (mws : List (Handler → Handler))
    (rich : Option (Metadata → Bytes → Answer (Option Output)))
    (plain : Option (Metadata → Bytes → Answer String)) where
  abbrev h' : Host
  h' = with_middlewares h mws

  abbrev t' : Equipped
  t' = with_handlers t rich plain
