-- ===== src/Examples/Pauses.antt =====
-- Concrete runs for agent/interrupt.go and the resumed batches of agent/engine.go.
use gude_agents.Prelude.{false, List, [], ◌∷◌, Option, none, some, ok, All, ◌≡◌, ◌↔◌, refl}
use gude_agents.Dict.{lookup, insert}
use gude_agents.Message.{Message, tool_use, role_assistant}
use gude_agents.Execution.{ApprovalCall}
use gude_agents.Execution.Batch.{Call, Toolbox, plan_calls}
use gude_agents.Dispatch.{
  Decision, ToolOutcome, outcome, definitive, pending_approval, deferred, plain_result,
}
use gude_agents.Interrupt.{
  Interrupt, ResumeResponse, decide, decision_for, deny_all, validate_resume,
}
use gude_agents.Interrupt.Resume.{
  new_interrupt, pending_interrupt, result_blocks, approval_resume_batch, last_batch, message_calls,
  seen_pending, with_decisions, pending_map,
}
use gude_agents.Interrupt.Valid.{CanResume, validate_resume-CanResume}
use gude_agents.Interrupt.Planned.{Resumable, asked_calls, awaiting, pending_interrupt-Resumable}
use gude_agents.Interrupt.Remaining.{are_requests, tool_uses, filter_completed_tool_calls}
use gude_agents.Interrupt.Remaining.Committed.{
  append_definitive, decided, filter_completed_tool_calls-result_blocks,
}
use gude_agents.Interrupt.Obeyed.{Obeys, approval_resume_batch-Obeys}

abbrev wipe : ApprovalCall
wipe = record { call_id = "c2"; name = "wipe"; input = 7 ∷ [] }

abbrev asked : Interrupt
asked = new_interrupt "approval" (some (record { calls = wipe ∷ [] })) none

abbrev refusing : ResumeResponse
refusing = decide (("c2", record { allow = false; reason = "no" }) ∷ [])

validate_resume-CanResume_example :
    (validate_resume (some asked) refusing ≡ none) ↔ CanResume asked refusing
validate_resume-CanResume_example = validate_resume-CanResume asked refusing

abbrev toolbox : Toolbox
toolbox = record { input_hash = λ b. some "h"; key = λ x c. c; replay_safe = λ n. false }

abbrev entries : List (Call × ToolOutcome)
entries =
    (record { tool_use_id = "c1"; name = "pay"; input = [] }, outcome deferred (plain_result ""))
    ∷ (
      record { tool_use_id = "c2"; name = "wipe"; input = 7 ∷ [] },
      outcome pending_approval (plain_result "c2"),
    )
    ∷ []

pending_interrupt-Resumable_example :
    Resumable (pending_interrupt entries).1
    × (awaiting (pending_interrupt entries).0 ≡ asked_calls (pending_interrupt entries).1)
unfolding plan_calls lookup
pending_interrupt-Resumable_example = pending_interrupt-Resumable toolbox [] "e1" entries _ refl

abbrev question : Message
question = record {
  role = role_assistant;
  content =
      tool_use (record { tool_use_id = "c1"; name = "pay"; input = [] })
      ∷ tool_use (record { tool_use_id = "c2"; name = "wipe"; input = [] })
      ∷ [];
}

abbrev requests : List (Call × Option Decision)
requests =
    (record { tool_use_id = "c1"; name = "pay"; input = [] }, none)
    ∷ (
      record { tool_use_id = "c2"; name = "wipe"; input = 7 ∷ [] },
      some (record { allow = false; reason = "no" }),
    )
    ∷ []

approval_resume_batch-Obeys_example : All (Obeys (wipe ∷ []) (deny_all "no")) requests
unfolding approval_resume_batch last_batch message_calls seen_pending with_decisions pending_map
    lookup insert decision_for
approval_resume_batch-Obeys_example =
    approval_resume_batch-Obeys (question ∷ []) (wipe ∷ []) (deny_all "no") requests refl

abbrev pay : Call
pay = record { tool_use_id = "c1"; name = "pay"; input = [] }

abbrev wipe_call : Call
wipe_call = record { tool_use_id = "c2"; name = "wipe"; input = [] }

abbrev finished : List (Call × ToolOutcome)
finished =
    (pay, outcome definitive (plain_result "c1"))
    ∷ (wipe_call, outcome pending_approval (plain_result "c2"))
    ∷ []

filter_completed_tool_calls-result_blocks_example :
    filter_completed_tool_calls toolbox
      (question ∷ question ∷ append_definitive (result_blocks finished))
      (pay ∷ wipe_call ∷ [])
      none
    ≡ ok (wipe_call ∷ [], none)
unfolding are_requests tool_uses decided
filter_completed_tool_calls-result_blocks_example =
    filter_completed_tool_calls-result_blocks toolbox (question ∷ []) question pay (wipe_call ∷ [])
      none finished refl refl
