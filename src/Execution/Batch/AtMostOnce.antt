-- ===== src/Execution/Batch/AtMostOnce.antt =====
-- An unsafe call of the durable tool batch of agent/engine.go reaches its handler at most once.
use gude_agents.Prelude.{
  String, Bool, false, ◌&&◌, ◌==◌, List, [], ◌∷◌, Option, none, some, Result, ok, err, All, inl,
  inr, ◌≡◌, refl, subst, Bool-cases, Option-cases, Result-cases,
}
use gude_agents.Dict.{Dict, lookup}
use gude_agents.Execution.{
  Execution, ExecutionPause, ExecutionStatus, ToolBatchExecution, ToolApprovalDecision,
  ApprovalInterrupt, ToolResolutionClaim,
}
use gude_agents.Execution.Batch.{
  Call, PriorToolUse, RunError, Toolbox, Progress, plan_calls, plan_tool_batch, ready_calls,
  mark_tool_batch_ready, claim_calls, begin_tool_execution, complete_calls, all_completed,
  remove_tool_calls, runtime_progress, pending_pause, start_cursor,
}
use gude_agents.Execution.Batch.Spent.{
  SpentBatch, SpentIn, Spent, IsUnsafe, Fails, AllOk, at_ok, claim_calls-Fails, claim_calls-Spent,
  claim_calls-Unsafe, ready_calls-Spent, complete_calls-Spent, plan_calls-Spent,
}
use gude_agents.Execution.Batch.Manual.{
  approval_decisions, recovered_pause, paused_turn, projected_pause, resumed_execution, finalized,
  ToolResolution, reconcile, finish_resolution,
}
use gude_agents.Execution.Batch.Manual.Kept.{
  approval_decisions-SpentIn, finalized-SpentIn, reconcile-SpentIn, finish_resolution-SpentIn,
}

-- The changes that a run, a resume, a recovery and `ReconcileToolExecution` make to an execution.
pub data Change : Type 0 where
  planning : Dict PriorToolUse → Progress → List Call → Change
  readying : Progress → Change
  claiming : Bool → String → String → Change
  completing : Progress → List String → Change
  progressing : Progress → Change
  pausing : Progress → ExecutionPause → Change
  starting : Progress → Change
  approving : (String → ToolApprovalDecision) → ApprovalInterrupt → Change
  pausing_recovered pausing_turn : Progress → ExecutionPause → Change
  projecting : ExecutionPause → Change
  resuming : Change
  finalizing : Progress → ExecutionStatus → Change
  reconciling : String → ToolResolution → Change
  resolving : Progress → ToolResolutionClaim → Change

-- A plan knows of the tool uses that the execution has made: this one is among them. A manual retry is
-- of another call.
abbrev pub Knows : String → Change → Type 0
Knows id (planning prior r calls) = (p : PriorToolUse) × (lookup id prior ≡ some p)
Knows id (readying r) = Unit
Knows id (claiming recovering call_id name) = Unit
Knows id (completing r completed) = Unit
Knows id (progressing r) = Unit
Knows id (pausing r p) = Unit
Knows id (starting r) = Unit
Knows id (approving decision approval) = Unit
Knows id (pausing_recovered r p) = Unit
Knows id (pausing_turn r p) = Unit
Knows id (projecting p) = Unit
Knows id resuming = Unit
Knows id (finalizing r status) = Unit
Knows id (reconciling call_id res) = ((res.outcome == "retry") && (call_id == id)) ≡ false
Knows id (resolving r claim) = Unit

abbrev pub claimed : Result RunError (Execution × String × Bool) → Result RunError Execution
claimed (ok a) = ok a.0
claimed (err e) = err e

module _ (box : Toolbox) where
  unfoldable pub change : Change → Execution → Result RunError Execution
  change (planning prior r calls) x = plan_tool_batch box prior r calls x
  change (readying r) x = mark_tool_batch_ready r x
  change (claiming recovering call_id name) x =
      claimed (begin_tool_execution recovering call_id name x)
  change (completing r completed) x = ok (remove_tool_calls r completed x)
  change (progressing r) x = ok (runtime_progress r x)
  change (pausing r p) x = ok (pending_pause r p x)
  change (starting r) x = ok (start_cursor r x)
  change (approving decision approval) x = approval_decisions decision (some approval) x
  change (pausing_recovered r p) x = ok (recovered_pause r p x)
  change (pausing_turn r p) x = ok (paused_turn r p x)
  change (projecting p) x = ok (projected_pause p x)
  change resuming x = ok (resumed_execution x)
  change (finalizing r status) x = ok (finalized r status x)
  change (reconciling call_id res) x = reconcile call_id res x
  change (resolving r claim) x = finish_resolution r claim x

  -- A sequence of changes; one that is refused leaves the execution as it is.
  unfoldable pub changes : List Change → Execution → Execution
  changes [] x = x
  changes (c ∷ cs) x = elim (change c x) [ err e ↦ changes cs x | ok y ↦ changes cs y ]

module _ (id : String) (x : Execution) where
  plan-SpentIn :
      (box : Toolbox) (prior : Dict PriorToolUse) (r : Progress) (calls : List Call)
      (p : PriorToolUse)
      → lookup id prior ≡ some p
      → AllOk (SpentIn id) (plan_tool_batch box prior r calls x)
  unfolding plan_tool_batch
  plan-SpentIn box prior r calls p known = elim (Option-cases x.tool_batch) [
    | inr (b, active) ↦ rw (active, plan_tool_batch) tt
    | inl idle ↦
        rw (idle, plan_tool_batch)
          (elim (Result-cases (plan_calls box prior x.id 0 [] calls)) [
            | inl (e, bad) ↦ rw (bad, plan_tool_batch) tt
            | inr (cs, good) ↦
                rw (good, plan_tool_batch)
                  (at_ok (Spent id) _ cs (plan_calls-Spent box prior x.id id p known 0 [] calls)
                    good)
          ])
  ]

  ready-SpentIn : (r : Progress) → SpentIn id x → AllOk (SpentIn id) (mark_tool_batch_ready r x)
  unfolding mark_tool_batch_ready
  ready-SpentIn r h = elim (Option-cases x.tool_batch) [
    | inl idle ↦ rw (idle, mark_tool_batch_ready) tt
    | inr (b, active) ↦
        let spent = subst (SpentBatch id) active h in
        rw (active, mark_tool_batch_ready)
          (elim (Result-cases (ready_calls b.calls)) [
            | inl (e, bad) ↦ rw (bad, mark_tool_batch_ready) tt
            | inr (cs, good) ↦
                rw (good, mark_tool_batch_ready)
                  (at_ok (Spent id) _ cs (ready_calls-Spent id b.calls spent) good)
          ])
  ]

  begin-SpentIn :
      (recovering : Bool) (other name : String)
      → SpentIn id x
      → AllOk (λ a. SpentIn id a.0) (begin_tool_execution recovering other name x)
  unfolding begin_tool_execution
  begin-SpentIn recovering other name h = elim (Option-cases x.tool_batch) [
    | inl idle ↦ rw (idle, begin_tool_execution) tt
    | inr (b, active) ↦
        let spent = subst (SpentBatch id) active h in
        rw (active, begin_tool_execution)
          (elim (Result-cases (claim_calls recovering x.id other name b.calls)) [
            | inl (e, bad) ↦ rw (bad, begin_tool_execution) tt
            | inr (c, good) ↦
                rw (good, begin_tool_execution)
                  (at_ok (λ d. Spent id d.calls) _ c
                    (claim_calls-Spent recovering x.id id other name b.calls spent) good)
          ])
  ]

  remove-SpentIn :
      (r : Progress) (completed : List String)
      → SpentIn id x
      → SpentIn id (remove_tool_calls r completed x)
  unfolding remove_tool_calls
  remove-SpentIn r completed h = elim (Option-cases x.tool_batch) [
    | inl idle ↦ rw (idle, remove_tool_calls) (rw idle tt)
    | inr (b, active) ↦
        let spent = subst (SpentBatch id) active h in
        rw (active, remove_tool_calls)
          (elim (Bool-cases (all_completed (complete_calls completed b.calls))) [
            | inl over ↦ rw (over, remove_tool_calls) tt
            | inr more ↦
                rw (more, remove_tool_calls) (complete_calls-Spent id completed b.calls spent)
          ])
  ]

  start-SpentIn : (r : Progress) → SpentIn id x → SpentIn id (start_cursor r x)
  unfolding start_cursor
  start-SpentIn r h = elim (Bool-cases x.start_cursor_persisted) [
    | inl already ↦ rw (already, start_cursor) h
    | inr fresh ↦ rw (fresh, start_cursor) h
  ]

-- A claim on a spent call fails.
pub begin-Fails :
    (recovering : Bool) (id name : String) (x : Execution)
    → SpentIn id x
    → Fails (begin_tool_execution recovering id name x)
unfolding begin_tool_execution
begin-Fails recovering id name x h = elim (Option-cases x.tool_batch) [
  | inl idle ↦ rw (idle, begin_tool_execution) (_, refl)
  | inr (b, active) ↦
      let (e, bad) =
        claim_calls-Fails recovering x.id id name b.calls (subst (SpentBatch id) active h) in
      (e, rw (active, begin_tool_execution) (rw (bad, begin_tool_execution) refl))
]

abbrev pub UnsafeBatch : String → Option ToolBatchExecution → Type 0
UnsafeBatch id none = Unit
UnsafeBatch id (some b) = IsUnsafe id b.calls

-- A claim of an unsafe call leaves it spent.
pub begin-Unsafe :
    (recovering : Bool) (id name : String) (x : Execution)
    → UnsafeBatch id x.tool_batch
    → AllOk (λ a. SpentIn id a.0) (begin_tool_execution recovering id name x)
unfolding begin_tool_execution
begin-Unsafe recovering id name x h = elim (Option-cases x.tool_batch) [
  | inl idle ↦ rw (idle, begin_tool_execution) tt
  | inr (b, active) ↦
      let unsafe = subst (UnsafeBatch id) active h in
      rw (active, begin_tool_execution)
        (elim (Result-cases (claim_calls recovering x.id id name b.calls)) [
          | inl (e, bad) ↦ rw (bad, begin_tool_execution) tt
          | inr (c, good) ↦
              rw (good, begin_tool_execution)
                (at_ok (λ d. Spent id d.calls) _ c
                  (claim_calls-Unsafe recovering x.id id name b.calls unsafe) good)
        ])
]

module _ (box : Toolbox) (id : String) where
  -- Whatever change a run makes, a spent call stays spent.
  change-SpentIn :
      (c : Change) (x : Execution) → Knows id c → SpentIn id x → AllOk (SpentIn id) (change box c x)
  unfolding change
  change-SpentIn (planning prior r calls) x (p, known) h =
      plan-SpentIn id x box prior r calls p known
  change-SpentIn (readying r) x k h = ready-SpentIn id x r h
  change-SpentIn (claiming recovering other name) x k h =
      elim (Result-cases (begin_tool_execution recovering other name x)) [
        | inl (e, bad) ↦ rw bad tt
        | inr (a, good) ↦
            rw good
              (at_ok (λ b. SpentIn id b.0) _ a (begin-SpentIn id x recovering other name h) good)
      ]
  change-SpentIn (completing r completed) x k h = remove-SpentIn id x r completed h
  change-SpentIn (progressing r) x k h = unfold runtime_progress in h
  change-SpentIn (pausing r p) x k h = unfold pending_pause in h
  change-SpentIn (starting r) x k h = start-SpentIn id x r h
  change-SpentIn (approving decision approval) x k h =
      approval_decisions-SpentIn id decision approval x h
  change-SpentIn (pausing_recovered r p) x k h = unfold recovered_pause in h
  change-SpentIn (pausing_turn r p) x k h = unfold paused_turn in h
  change-SpentIn (projecting p) x k h = unfold projected_pause in h
  change-SpentIn resuming x k h = unfold resumed_execution in h
  change-SpentIn (finalizing r status) x k h = finalized-SpentIn id r status x h
  change-SpentIn (reconciling other res) x k h = reconcile-SpentIn id other res x k h
  change-SpentIn (resolving r claim) x k h = finish_resolution-SpentIn id r claim x h

  changes-SpentIn :
      (cs : List Change) (x : Execution)
      → All (Knows id) cs
      → SpentIn id x
      → SpentIn id (changes box cs x)
  unfolding changes
  changes-SpentIn [] x k h = h
  changes-SpentIn (c ∷ cs) x k h = elim (Result-cases (change box c x)) [
    | inl (e, bad) ↦ rw (bad, changes) (changes-SpentIn cs x k.1 h)
    | inr (y, good) ↦
        rw (good, changes)
          (changes-SpentIn cs y k.1 (at_ok (SpentIn id) _ y (change-SpentIn c x k.0 h) good))
  ]

  -- A call that is not safe to replay is claimed at most once, unless it is retried by hand: after a claim
  -- of it has been granted, and after any changes that the run, a resume, a recovery or a manual
  -- resolution then makes, every other claim of it fails. The plans among those changes know of that
  -- tool use, and no `ReconcileToolExecution` among them has the outcome `retry` for that call.
  pub begin_once :
      (recovering again : Bool) (name name' key : String) (replay : Bool) (x y : Execution)
      (cs : List Change)
      → UnsafeBatch id x.tool_batch
      → begin_tool_execution recovering id name x ≡ ok (y, key, replay)
      → All (Knows id) cs
      → Fails (begin_tool_execution again id name' (changes box cs y))
  begin_once recovering again name name' key replay x y cs unsafe granted known =
      let spent : SpentIn id y =
        at_ok (λ a. SpentIn id a.0) _ (y, key, replay) (begin-Unsafe recovering id name x unsafe)
          granted in
      begin-Fails again id name' (changes box cs y) (changes-SpentIn cs y known spent)
