-- ===== src/Interrupt/Planned.antt =====
-- The interrupts that `pendingInterrupt` of agent/engine.go derives from a batch that `planToolBatch`
-- accepted, and what is left pending.
use gude_agents.Prelude.{
  Bool, true, ap, filter, ◌∙◌, ℕ, suc, String, false, not, ◌||◌, List, [], ◌∷◌, Option, none, some,
  Result, ok, err, any, map, ◌==◌, ◌≡◌, refl, sym, subst, ◌⊎◌, inl, inr, arith, Bool-cases,
  Option-cases, Result-cases, or_none,
}
use gude_agents.Dict.{Dict, lookup}
use gude_agents.Execution.{ApprovalCall, InputInterrupt, ToolExecution}
use gude_agents.Execution.Batch.{Call, RunError, Toolbox, PriorToolUse, plan_calls}
use gude_agents.Dispatch.{
  ToolOutcome, OutcomeKind, definitive, pending_approval, deferred, unknown, coordination_failure,
}
use gude_agents.Dispatch.Group.{is_pending}
use gude_agents.Interrupt.{Interrupt, approve, deny_all, respond, validate_resume}
use gude_agents.Interrupt.Resume.{
  new_interrupt, pending_interrupt, pending_calls, approval_call, approval_interrupt, first_input,
  cancel_pending,
}
use gude_agents.Interrupt.Valid.{IsFresh, validate_resume-CanResume}

abbrev PlannedFresh : List String → List Call → Result RunError (List ToolExecution) → Type 0
PlannedFresh seen calls (err e) = Unit
PlannedFresh seen calls (ok planned) = IsFresh seen (map approval_call calls)

module _ (box : Toolbox) (prior : Dict PriorToolUse) (execution_id : String) where
  plan_calls-PlannedFresh :
      (i : ℕ) (seen : List String) (calls : List Call)
      → PlannedFresh seen calls (plan_calls box prior execution_id i seen calls)
  unfolding plan_calls
  plan_calls-PlannedFresh i seen [] = tt
  plan_calls-PlannedFresh i seen (call ∷ calls) = elim (Bool-cases (call.tool_use_id == "")) [
    | inl empty ↦ rw empty tt
    | inr named ↦ elim (Bool-cases (any (λ s. s == call.tool_use_id) seen)) [
      | inl again ↦ rw (named, again) tt
      | inr new ↦
          rw (named, new)
            (elim (Option-cases (box.input_hash call.input)) [
              | inl bad ↦ rw bad tt
              | inr (hash, good) ↦ rw good (elim (Option-cases (lookup call.tool_use_id prior)) [
                | inr (previous, used) ↦
                    rw used
                      (elim (Bool-cases
                        (not (previous.name == call.name) || not (previous.input_hash == hash))) [
                          | inl differs ↦ rw differs tt
                          | inr same ↦ rw same tt
                        ])
                | inl unused ↦
                    rw unused
                      (elim (Result-cases (
                        plan_calls box prior execution_id (suc i) (call.tool_use_id ∷ seen)
                          calls)) [
                            | inl (e, refused) ↦ rw (refused, plan_calls) tt
                            | inr (planned, fine) ↦
                                rw (fine, plan_calls)
                                  (
                                    named,
                                    new,
                                    subst (PlannedFresh (call.tool_use_id ∷ seen) calls) fine (
                                        plan_calls-PlannedFresh (suc i) (call.tool_use_id ∷ seen)
                                          calls),
                                  )
                          ])
              ])
            ])
    ]
  ]

pending_calls-IsFresh :
    (entries : List (Call × ToolOutcome)) (seen seen' : List String)
    → ((id : String) → any (λ i. i == id) seen ≡ false → any (λ i. i == id) seen' ≡ false)
    → IsFresh seen (map approval_call (map (λ entry. entry.0) entries))
    → IsFresh seen' (pending_calls entries)
unfolding pending_calls
pending_calls-IsFresh [] seen seen' sub h = tt
pending_calls-IsFresh ((call, o) ∷ entries) seen seen' sub h =
    elim (Bool-cases (is_pending o.kind)) [
      | inl pends ↦ rw pends (
        h.0,
        sub call.tool_use_id h.1,
        pending_calls-IsFresh entries (call.tool_use_id ∷ seen) (call.tool_use_id ∷ seen')
            (λ id e.
              let (here, later) = or_none (call.tool_use_id == id) (any (λ i. i == id) seen) e in
              rw here (sub id later))
            h.2,
      )
      | inr settled ↦ rw settled (
          pending_calls-IsFresh entries (call.tool_use_id ∷ seen) seen'
            (λ id e. sub id (or_none (call.tool_use_id == id) (any (λ i. i == id) seen) e).1) h.2)
    ]

pending_calls-cancel :
    (entries : List (Call × ToolOutcome)) → pending_calls (cancel_pending entries) ≡ []
unfolding pending_calls cancel_pending
pending_calls-cancel [] = refl
pending_calls-cancel ((call, o) ∷ entries) = elim (Bool-cases (is_pending o.kind)) [
  | inl pends ↦ rw (pends) (pending_calls-cancel entries)
  | inr settled ↦ rw (settled, settled) (pending_calls-cancel entries)
]

-- The calls that wait for an approval.
abbrev awaits : OutcomeKind → Bool
awaits pending_approval = true
awaits definitive = false
awaits deferred = false
awaits unknown = false
awaits coordination_failure = false

abbrev pub awaiting : List (Call × ToolOutcome) → List ApprovalCall
awaiting entries =
    map
      (λ entry. record {
        call_id = entry.0.tool_use_id;
        name = entry.0.name;
        input = entry.0.input;
      })
      (filter (λ entry. awaits entry.1.kind) entries)

awaits-is_pending : (kind : OutcomeKind) → is_pending kind ≡ awaits kind
awaits-is_pending pending_approval = refl
awaits-is_pending definitive = refl
awaits-is_pending deferred = refl
awaits-is_pending unknown = refl
awaits-is_pending coordination_failure = refl

pending_calls-awaiting :
    (entries : List (Call × ToolOutcome)) → pending_calls entries ≡ awaiting entries
unfolding pending_calls
pending_calls-awaiting [] = refl
pending_calls-awaiting ((call, o) ∷ entries) = elim (Bool-cases (awaits o.kind)) [
  | inl waits ↦
      rw (awaits-is_pending o.kind, waits)
        (ap (λ calls. approval_call call ∷ calls) (pending_calls-awaiting entries))
  | inr settled ↦ rw (awaits-is_pending o.kind, settled) (pending_calls-awaiting entries)
]

abbrev pub asked_calls : Option Interrupt → List ApprovalCall
asked_calls none = []
asked_calls (some i) = elim i.approval [ none ↦ [] | some approval ↦ approval.calls ]

-- The human can approve or deny what is asked, or give the text.
abbrev pub Resumable : Option Interrupt → Type 0
Resumable none = Unit
Resumable (some i) =
    ((i.type_name ≡ "approval")
      × (validate_resume (some i) approve ≡ none)
      × ((reason : String) → validate_resume (some i) (deny_all reason) ≡ none))
    ⊎ ((i.type_name ≡ "human_input")
        × ((text : String) → validate_resume (some i) (respond text) ≡ none))

approval_interrupt-Resumable :
    (calls : List ApprovalCall)
    → IsFresh [] calls
    → Resumable (approval_interrupt calls) × (calls ≡ asked_calls (approval_interrupt calls))
approval_interrupt-Resumable [] fresh = (tt, refl)
approval_interrupt-Resumable (call ∷ calls) fresh =
    let i = new_interrupt "approval" (some (record { calls = call ∷ calls })) none in
    (
      inl (
        refl,
        (validate_resume-CanResume i approve).1 (inl (refl, ((λ e. ground arith), fresh, tt))),
        (λ reason.
            (validate_resume-CanResume i (deny_all reason)).1
              (inl (refl, ((λ e. ground arith), fresh, tt)))),
      ),
      refl,
    )

abbrev Fits : List (Call × ToolOutcome) × Option Interrupt → Type 0
Fits p = Resumable p.1 × (awaiting p.0 ≡ asked_calls p.1)

left_alone :
    (entries : List (Call × ToolOutcome))
    → first_input entries ≡ none
    → pending_interrupt entries ≡ (entries, approval_interrupt (pending_calls entries))
unfolding pending_interrupt
left_alone entries e = rw (e, pending_interrupt) refl

left_canceled :
    (entries : List (Call × ToolOutcome)) (asked : InputInterrupt)
    → first_input entries ≡ some asked
    → pending_interrupt entries
      ≡ (cancel_pending entries, some (new_interrupt "human_input" none (some asked)))
unfolding pending_interrupt
left_canceled entries asked e = rw (e, pending_interrupt) refl

-- Of a batch whose calls were planned, `pendingInterrupt` leaves pending exactly the calls that its
-- interrupt asks about, by identifier, name and input and in their order, none when it asks for input,
-- and `validateResume` accepts an approval and a
-- denial of an approval interrupt, and a text for one that asks for input.
pub pending_interrupt-Resumable :
    (box : Toolbox) (prior : Dict PriorToolUse) (execution_id : String)
    (entries : List (Call × ToolOutcome)) (planned : List ToolExecution)
    → plan_calls box prior execution_id 0 [] (map (λ entry. entry.0) entries) ≡ ok planned
    → Resumable (pending_interrupt entries).1
      × (awaiting (pending_interrupt entries).0 ≡ asked_calls (pending_interrupt entries).1)
pending_interrupt-Resumable box prior execution_id entries planned accepted =
    let calls = map (λ entry. entry.0) entries in
    let fresh =
      subst (PlannedFresh [] calls) accepted
        (plan_calls-PlannedFresh box prior execution_id 0 [] calls) in
    elim (Option-cases (first_input entries)) [
      | inl none_asks ↦ subst Fits (sym (left_alone entries none_asks)) (
          let asked =
            approval_interrupt-Resumable (pending_calls entries)
              (pending_calls-IsFresh entries [] [] (λ id e. e) fresh) in
          (asked.0, sym (pending_calls-awaiting entries) ∙ asked.1))
      | inr (asked, asks) ↦ subst Fits (sym (left_canceled entries asked asks)) (
        inr (
          refl,
          (λ text.
              (validate_resume-CanResume (new_interrupt "human_input" none (some asked))
                  (respond text)).1
                (inr (refl, refl))),
        ),
        sym (pending_calls-awaiting (cancel_pending entries)) ∙ pending_calls-cancel entries,
      )
    ]
