-- ===== src/Interrupt/Obeyed.antt =====
-- The decisions of a resumed approval: `approvalResumeBatch` of agent/engine.go with `executeCall` of
-- agent/tool_exec.go.
use gude_agents.Prelude.{
  String, true, false, ◌&&◌, ◌||◌, List, [], ◌∷◌, Option, none, some, Result, ok, err, any, All,
  ◌==◌, ◌≡◌, refl, ap, ◌∙◌, subst, ◌⊎◌, inl, inr, Bool-cases, Option-cases, clash,
}
use gude_agents.Dict.{Dict, lookup, insert, lookup-insert}
use gude_agents.Message.{
  Message, ContentBlock, text, tool_use, tool_result, image, document, widget, role_assistant,
}
use gude_agents.Execution.{ApprovalCall}
use gude_agents.Execution.Batch.{Call}
use gude_agents.Dispatch.{Decision, Host, Run, Durable, Equipped}
use gude_agents.Dispatch.Pipeline.{execute_call}
use gude_agents.Dispatch.Cleared.{is_entered, Cleared, Undenied, execute_call-entered}
use gude_agents.Interrupt.{ResumeResponse, decision_for}
use gude_agents.Interrupt.Resume.{
  pending_map, resumed_input, message_calls, decision_of, with_decisions, is_batch, last_batch,
  ResumeBatchError, found_batch, approval_resume_batch,
}

-- The identifier is one of the map's.
abbrev Has : String → Dict ApprovalCall → Type 0
Has id m = (a : ApprovalCall) × (lookup id m ≡ some a)

insert-Has :
    (id : String) (call : ApprovalCall) (m : Dict ApprovalCall)
    → ((call.call_id == id) ≡ true) ⊎ Has id m
    → Has id (insert call.call_id call m)
insert-Has id call m h = elim (Bool-cases (call.call_id == id)) [
  | inl same ↦ (call, lookup-insert call.call_id id call m ∙ rw same refl)
  | inr other ↦ elim h [
    | inl same ↦ absurd (clash _ same other)
    | inr old ↦ (old.0, lookup-insert call.call_id id call m ∙ rw other old.1)
  ]
]

pending_map-Has :
    (id : String) (calls : List ApprovalCall) (m : Dict ApprovalCall)
    → (any (λ call. call.call_id == id) calls ≡ true) ⊎ Has id m
    → Has id (pending_map m calls)
unfolding pending_map
pending_map-Has id [] m (inl e) = absurd (clash false e refl)
pending_map-Has id [] m (inr h) = h
pending_map-Has id (call ∷ calls) m (inr h) =
    pending_map-Has id calls (insert call.call_id call m) (inr (insert-Has id call m (inr h)))
pending_map-Has id (call ∷ calls) m (inl e) = elim (Bool-cases (call.call_id == id)) [
  | inl same ↦
      pending_map-Has id calls (insert call.call_id call m) (inr (insert-Has id call m (inl same)))
  | inr other ↦
      pending_map-Has id calls (insert call.call_id call m)
        (inl (subst (λ b. (b || any (λ c. c.call_id == id) calls) ≡ true) other e))
]

module _ (response : ResumeResponse) (pending : Dict ApprovalCall) where
  -- A call takes its input from what was approved.
  abbrev TakesInput : Call → Type 0
  TakesInput call =
      (a : ApprovalCall) → lookup call.tool_use_id pending ≡ some a → call.input ≡ a.input

  message_calls-TakesInput : (bs : List ContentBlock) → All TakesInput (message_calls pending bs)
  unfolding message_calls
  message_calls-TakesInput [] = tt
  message_calls-TakesInput (tool_use u ∷ bs) =
      ((λ a found. ap (resumed_input u.input) found), message_calls-TakesInput bs)
  message_calls-TakesInput (text t ∷ bs) = message_calls-TakesInput bs
  message_calls-TakesInput (tool_result r ∷ bs) = message_calls-TakesInput bs
  message_calls-TakesInput (image i ∷ bs) = message_calls-TakesInput bs
  message_calls-TakesInput (document d ∷ bs) = message_calls-TakesInput bs
  message_calls-TakesInput (widget w ∷ bs) = message_calls-TakesInput bs

  abbrev Decided : Call × Option Decision → Type 0
  Decided request =
      (a : ApprovalCall)
      → lookup request.0.tool_use_id pending ≡ some a
      → (request.0.input ≡ a.input)
        × (request.1 ≡ some (decision_for response request.0.tool_use_id))

  with_decisions-Decided :
      (calls : List Call)
      → All TakesInput calls
      → All Decided (with_decisions response pending calls)
  unfolding with_decisions
  with_decisions-Decided [] h = tt
  with_decisions-Decided (call ∷ calls) h = (
    (λ a found. (h.0 a found, ap (decision_of response call.tool_use_id) found)),
    with_decisions-Decided calls h.1,
  )

  abbrev AllDecided : Option (List (Call × Option Decision)) → Type 0
  AllDecided none = Unit
  AllDecided (some requests) = All Decided requests

  last_batch-AllDecided : (ms : List Message) → AllDecided (last_batch response pending ms)
  unfolding last_batch
  last_batch-AllDecided [] = tt
  last_batch-AllDecided (m ∷ ms) = elim (Option-cases (last_batch response pending ms)) [
    | inr (found, later) ↦
        rw (later, last_batch) (subst AllDecided later (last_batch-AllDecided ms))
    | inl nothing ↦
        rw (nothing, last_batch)
          (elim (Bool-cases
            ((m.role == role_assistant) && is_batch pending (message_calls pending m.content))) [
              | inl here ↦ rw here (with_decisions-Decided _ (message_calls-TakesInput m.content))
              | inr not_here ↦ rw not_here tt
            ])
  ]

abbrev ResumeOk :
    (List (Call × Option Decision) → Type 0)
    → Result ResumeBatchError (List (Call × Option Decision))
    → Type 0
ResumeOk P (ok requests) = P requests
ResumeOk P (err e) = Unit

found_batch-Decided :
    (response : ResumeResponse) (pending : Dict ApprovalCall)
    (found : Option (List (Call × Option Decision)))
    → AllDecided response pending found
    → ResumeOk (All (Decided response pending)) (found_batch found)
found_batch-Decided response pending none h = tt
found_batch-Decided response pending (some requests) h = h

approval_resume_batch-Decided :
    (ms : List Message) (calls : List ApprovalCall) (response : ResumeResponse)
    → ResumeOk
        (All (Decided response (pending_map [] calls)))
        (approval_resume_batch ms (some (record { calls = calls })) response)
unfolding approval_resume_batch
approval_resume_batch-Decided ms [] response = tt
approval_resume_batch-Decided ms (call ∷ calls) response =
    let pending = pending_map [] (call ∷ calls) in
    found_batch-Decided response pending (last_batch response pending ms)
      (last_batch-AllDecided response pending ms)

-- What a resumed request that the human was asked about keeps to.
abbrev pub Obeys : List ApprovalCall → ResumeResponse → Call × Option Decision → Type 0
Obeys calls response request =
    any (λ call. call.call_id == request.0.tool_use_id) calls ≡ true
    → ((a : ApprovalCall) × (lookup request.0.tool_use_id (pending_map [] calls) ≡ some a)
        × (request.0.input ≡ a.input))
      × ((decision_for response request.0.tool_use_id).allow ≡ false
          → (h : Host) (r : Run) (d : Durable) (t : Option Equipped)
          → any is_entered (execute_call h r d request.0 t request.1).1 ≡ false)

Cleared-Undenied :
    (h : Host) (r : Run) (d : Durable) (call : Call) (t : Option Equipped)
    (decision : Option Decision)
    → Cleared h r call d t decision
    → Undenied decision
Cleared-Undenied h r d call none decision cleared = absurd cleared
Cleared-Undenied h r d call (some t) decision cleared = cleared.0.0

denied-waits :
    (h : Host) (r : Run) (d : Durable) (call : Call) (t : Option Equipped)
    (decision : Option Decision) (human : Decision)
    → decision ≡ some human
    → human.allow ≡ false
    → any is_entered (execute_call h r d call t decision).1 ≡ false
denied-waits h r d call t decision human decided denied =
    elim (Bool-cases (any is_entered (execute_call h r d call t decision).1)) [
      | inr waits ↦ waits
      | inl entered ↦ absurd (
          clash human.allow
            (subst Undenied decided (
              Cleared-Undenied h r d call t decision
                ((execute_call-entered h r call d t decision).0 entered)))
            denied)
    ]

Decided-Obeys :
    (calls : List ApprovalCall) (response : ResumeResponse)
    (requests : List (Call × Option Decision))
    → All (Decided response (pending_map [] calls)) requests
    → All (Obeys calls response) requests
Decided-Obeys calls response [] h = tt
Decided-Obeys calls response ((call, decision) ∷ requests) h = (
  (λ asked.
      let (a, found) = pending_map-Has call.tool_use_id calls [] (inl asked) in
      let (same_input, decided) = h.0 a found in
      (
        (a, found, same_input),
        (λ denied hs r d t.
            denied-waits hs r d call t decision (decision_for response call.tool_use_id) decided
              denied),
      )),
  Decided-Obeys calls response requests h.1,
)

-- In the batch of a resumed approval, each call that the interrupt asked about has the input that was
-- shown for it, and when the response denies it, its handler is not entered, whatever the tool, the
-- principal and the state of the run.
pub approval_resume_batch-Obeys :
    (ms : List Message) (calls : List ApprovalCall) (response : ResumeResponse)
    (requests : List (Call × Option Decision))
    → approval_resume_batch ms (some (record { calls = calls })) response ≡ ok requests
    → All (Obeys calls response) requests
approval_resume_batch-Obeys ms calls response requests found =
    Decided-Obeys calls response requests (
      subst (ResumeOk (All (Decided response (pending_map [] calls)))) found
        (approval_resume_batch-Decided ms calls response))
