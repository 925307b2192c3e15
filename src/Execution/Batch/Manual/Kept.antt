-- ===== src/Execution/Batch/Manual/Kept.antt =====
-- An unsafe call that has been dispatched stays so through pauses, resumes, approvals and manual
-- results, and through the manual retry of another call.
use gude_agents.Prelude.{
  String, false, not, ◌&&◌, List, [], ◌∷◌, some, ◌==◌, inl, inr, ◌≡◌, sym, subst, Bool-cases,
  Option-cases, Result-cases, eq_iff,
}
use gude_agents.Execution.{
  Execution, ExecutionStatus, ApprovalCall, ApprovalInterrupt, ToolExecution, ToolApprovalDecision,
  ToolResolutionClaim,
}
use gude_agents.Execution.Batch.{Progress, complete_calls, all_completed}
use gude_agents.Execution.Batch.Spent.{
  Spent, Spent-here, Spent-later, AllOk, at_ok, AllOk-guard, complete_calls-Spent, SpentBatch,
  SpentIn,
}
use gude_agents.Execution.Batch.Manual.{
  approve_call, approve_calls, approval_decisions, finalized, ToolResolution, is_in_flight,
  retry_call, reconcile, finish_resolution,
}

-- What is spent in the calls before is spent in the calls after.
abbrev Keeps : String → List ToolExecution → List ToolExecution → Type 0
Keeps id before after = Spent id before → Spent id after

Keeps-tail :
    (id : String) (call : ToolExecution) (before after : List ToolExecution)
    → Keeps id before after
    → Keeps id (call ∷ before) (call ∷ after)
Keeps-tail id call before after k h = elim (Bool-cases (call.call_id == id)) [
  | inl here ↦ rw here (Spent-here id call before here h)
  | inr later ↦ rw later (k (Spent-later id call before later h))
]

module _ (id : String) (decision : String → ToolApprovalDecision) where
  approve_call-Keeps :
      (asked : String) (calls : List ToolExecution)
      → AllOk (Keeps id calls) (approve_call decision asked calls)
  unfolding approve_call
  approve_call-Keeps asked [] = tt
  approve_call-Keeps asked (call ∷ calls) = elim (Bool-cases (call.call_id == asked)) [
    | inl this ↦ rw this (λ h. h)
    | inr other ↦ rw other (elim (Result-cases (approve_call decision asked calls)) [
      | inl (e, bad) ↦ rw bad tt
      | inr (decided, good) ↦ rw good (
          Keeps-tail id call calls decided
            (at_ok (Keeps id calls) _ decided (approve_call-Keeps asked calls) good))
    ])
  ]

  approve_calls-Keeps :
      (asked : List ApprovalCall) (calls : List ToolExecution)
      → AllOk (Keeps id calls) (approve_calls decision asked calls)
  unfolding approve_calls
  approve_calls-Keeps [] calls = λ h. h
  approve_calls-Keeps (a ∷ more) calls =
      elim (Result-cases (approve_call decision a.call_id calls)) [
        | inl (e, bad) ↦ rw (bad, approve_calls) tt
        | inr (decided, good) ↦
            let first =
              at_ok (Keeps id calls) _ decided (approve_call-Keeps a.call_id calls) good in
            rw (good, approve_calls)
              (elim (Result-cases (approve_calls decision more decided)) [
                | inl (e, bad) ↦ rw bad tt
                | inr (last, fine) ↦ rw fine (λ h.
                    at_ok (Keeps id decided) _ last (approve_calls-Keeps more decided) fine
                      (first h))
              ])
      ]

  pub approval_decisions-SpentIn :
      (approval : ApprovalInterrupt) (x : Execution)
      → SpentIn id x
      → AllOk (SpentIn id) (approval_decisions decision (some approval) x)
  unfolding approval_decisions
  approval_decisions-SpentIn approval x h = elim (Option-cases x.tool_batch) [
    | inl idle ↦ rw (idle, approval_decisions) tt
    | inr (b, active) ↦
        rw (active, approval_decisions)
          (elim (Result-cases (approve_calls decision approval.calls b.calls)) [
            | inl (e, bad) ↦ rw bad tt
            | inr (calls, good) ↦ rw good (
                at_ok (Keeps id b.calls) _ calls (approve_calls-Keeps approval.calls b.calls) good
                  (subst (SpentBatch id) active h))
          ])
  ]

pub finalized-SpentIn :
    (id : String) (r : Progress) (status : ExecutionStatus) (x : Execution)
    → SpentIn id x
    → SpentIn id (finalized r status x)
unfolding finalized
finalized-SpentIn id r status x h = elim (Option-cases x.tool_batch) [
  | inl idle ↦ rw (idle, finalized) (rw idle tt)
  | inr (b, active) ↦ rw (active, finalized) h
]

retry_call-Keeps :
    (id other : String) (calls : List ToolExecution)
    → (other == id) ≡ false
    → AllOk (Keeps id calls) (retry_call other calls)
unfolding retry_call
retry_call-Keeps id other [] apart = tt
retry_call-Keeps id other (call ∷ calls) apart = elim (Bool-cases (call.call_id == other)) [
  | inl this ↦
      let unlike : (call.call_id == id) ≡ false =
        subst (λ i. (i == id) ≡ false) (sym ((eq_iff call.call_id other).0 this)) apart in
      rw this (elim (Bool-cases (is_in_flight call.status)) [
        | inl flying ↦ rw flying (λ h. rw unlike (Spent-later id call calls unlike h))
        | inr settled ↦ rw settled tt
      ])
  | inr another ↦ rw another (elim (Result-cases (retry_call other calls)) [
    | inl (e, bad) ↦ rw bad tt
    | inr (retried, good) ↦ rw good (
        Keeps-tail id call calls retried
          (at_ok (Keeps id calls) _ retried (retry_call-Keeps id other calls apart) good))
  ])
]

pub reconcile-SpentIn :
    (id other : String) (res : ToolResolution) (x : Execution)
    → ((res.outcome == "retry") && (other == id)) ≡ false
    → SpentIn id x
    → AllOk (SpentIn id) (reconcile other res x)
unfolding reconcile
reconcile-SpentIn id other res x apart h = elim (Option-cases x.tool_batch) [
  | inl idle ↦ rw (idle, reconcile) tt
  | inr (b, active) ↦
      rw (active, reconcile)
        (elim (Option-cases b.resolution) [
          | inr (claim, owned) ↦ rw (owned, reconcile) tt
          | inl free ↦
              rw (free, reconcile)
                (elim (Result-cases (retry_call other b.calls)) [
                  | inl (e, bad) ↦ rw bad tt
                  | inr (retried, good) ↦ rw good (elim (Bool-cases (res.outcome == "retry")) [
                    | inr manual ↦ rw manual (subst (SpentBatch id) active h)
                    | inl again ↦ rw again (
                        at_ok (Keeps id b.calls) _ retried
                          (retry_call-Keeps id other b.calls
                            (subst (λ t. (t && (other == id)) ≡ false) again apart))
                          good (subst (SpentBatch id) active h))
                  ])
                ])
        ])
]

pub finish_resolution-SpentIn :
    (id : String) (r : Progress) (claim : ToolResolutionClaim) (x : Execution)
    → SpentIn id x
    → AllOk (SpentIn id) (finish_resolution r claim x)
unfolding finish_resolution
finish_resolution-SpentIn id r claim x h = elim (Option-cases x.tool_batch) [
  | inl idle ↦ rw (idle, finish_resolution) tt
  | inr (b, active) ↦
      rw (active, finish_resolution)
        (elim (Option-cases b.resolution) [
          | inl free ↦ rw (free, finish_resolution) tt
          | inr (current, owned) ↦
              rw (owned, finish_resolution)
                (AllOk-guard (SpentIn id) (not (current.call_id == claim.call_id)) _ _
                  (elim (Bool-cases (all_completed (complete_calls (claim.call_id ∷ []) b.calls))) [
                    | inl over ↦ rw over tt
                    | inr more ↦ rw more (
                        complete_calls-Spent id (claim.call_id ∷ []) b.calls
                          (subst (SpentBatch id) active h))
                  ]))
        ])
]
