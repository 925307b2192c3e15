-- ===== src/Dispatch/Group/Waiting.antt =====
-- A call of agent/tool_exec.go that waits for its approval.
use gude_agents.Prelude.{
  Bool, true, false, ◌&&◌, List, Option, none, some, Result, ok, err, any, if◌then◌else◌, ◌≡◌, refl,
  sym, ◌∙◌, inl, inr, arith, Bool-cases, and_split, clash, Result-cases,
}
use gude_agents.Execution.Batch.{
  Call, RunError, uncertain, recovery_unsupported, store_failed, invalid_input, empty_call_id,
  duplicate_call_id, reused_differently, reused, conversation_conflict, execution_conflict,
}
use gude_agents.Dispatch.{
  Decision, Equipped, Host, Run, Durable, ToolResult, Answer, Metadata, Refusal, ToolOutcome, Mark,
  refusal, chain_middleware,
}
use gude_agents.Dispatch.Pipeline.{
  execute_call, admitted, claimed_call, conclude, failed, undecided, begin_call, unclaimed_kind,
  inner,
}
use gude_agents.Dispatch.Cleared.{is_entered, execute_call-entered}
use gude_agents.Dispatch.Group.{needs, is_pending}

-- Only a call of a tool that needs an approval is left pending.
unclaimed_kind-pending : (e : RunError) → is_pending (unclaimed_kind e) ≡ false
unclaimed_kind-pending (uncertain x id name key) = refl
unclaimed_kind-pending recovery_unsupported = refl
unclaimed_kind-pending conversation_conflict = refl
unclaimed_kind-pending execution_conflict = refl
unclaimed_kind-pending (empty_call_id i) = refl
unclaimed_kind-pending (duplicate_call_id i id) = refl
unclaimed_kind-pending (invalid_input id) = refl
unclaimed_kind-pending (reused_differently i id) = refl
unclaimed_kind-pending (reused i id) = refl
unclaimed_kind-pending (store_failed e) = refl

conclude-pending :
    (h : Host) (r : Run) (call : Call) (metadata : Metadata) (a : Answer ToolResult)
    → is_pending (conclude h r call metadata a).0.kind ≡ false
unfolding conclude
conclude-pending h r call metadata a = elim (Result-cases a.result) [
  | inl (e, bad) ↦
      rw (bad, conclude)
        (elim (Bool-cases e.outcome_unknown) [
          | inl lost ↦ rw lost refl
          | inr known ↦ rw known refl
        ])
  | inr (answer, good) ↦ rw (good, conclude) refl
]

claimed_call-pending :
    (h : Host) (r : Run) (call : Call) (t : Equipped) (claim : Durable × Result RunError Metadata)
    → is_pending (claimed_call h r call t claim).2.kind ≡ false
unfolding claimed_call
claimed_call-pending h r call t (d, err e) = unclaimed_kind-pending e
claimed_call-pending h r call t (d, ok metadata) =
    conclude-pending h r call metadata (chain_middleware (inner h t) h.middlewares metadata call)

gate-pending :
    (b : Bool) (early : Durable × List Mark × ToolOutcome) (h : Host) (r : Run) (call : Call)
    (t : Equipped) (claim : Durable × Result RunError Metadata)
    → is_pending (if b then early else claimed_call h r call t claim).2.kind ≡ true
    → b ≡ true
gate-pending true early h r call t claim e = refl
gate-pending false early h r call t claim e = sym (claimed_call-pending h r call t claim) ∙ e

admitted-pending :
    (h : Host) (r : Run) (d : Durable) (call : Call) (t : Equipped) (decision : Option Decision)
    (refused : Option Refusal)
    → is_pending (admitted h r d call t decision refused).2.kind ≡ true
    → t.tool.needs_approval ≡ true
unfolding admitted failed
admitted-pending h r d call t decision (some refused) e = ground arith
admitted-pending h r d call t decision none e =
    (and_split t.tool.needs_approval (undecided decision) (
      gate-pending (t.tool.needs_approval && undecided decision) _ h r call t
        (begin_call h.json r d call) e)).0

pub execute_call-pending :
    (h : Host) (r : Run) (d : Durable) (call : Call) (t : Option Equipped)
    (decision : Option Decision)
    → is_pending (execute_call h r d call t decision).2.kind ≡ true
    → needs t ≡ true
unfolding execute_call failed
execute_call-pending h r d call none decision e = e
execute_call-pending h r d call (some t) decision e =
    admitted-pending h r d call t decision (refusal h r call t decision) e

-- A call that needs an approval and has no decision does not enter its handler.
pub execute_call-waits :
    (h : Host) (r : Run) (d : Durable) (call : Call) (t : Option Equipped)
    (decision : Option Decision)
    → (needs t && undecided decision) ≡ true
    → any is_entered (execute_call h r d call t decision).1 ≡ false
execute_call-waits h r d call none decision e = absurd (ground arith)
execute_call-waits h r d call (some t) decision e =
    elim (Bool-cases (any is_entered (execute_call h r d call (some t) decision).1)) [
      | inl entered ↦
          let gate = ((execute_call-entered h r call d (some t) decision).0 entered).1 in
          absurd (clash (t.tool.needs_approval && undecided decision) e gate)
      | inr quiet ↦ quiet
    ]
