-- ===== src/Execution/Batch/Spent.antt =====
-- A call of the durable tool batch of agent/engine.go that has been dispatched, through the loops
-- over the calls of a batch.
use gude_agents.Prelude.{
  ℕ, suc, String, Bool, true, false, ◌&&◌, List, [], ◌∷◌, Option, none, some, Result, ok, err, any,
  ◌==◌, eq_iff, if◌then◌else◌, inl, inr, ◌≡◌, ◌≢◌, refl, sym, ap, ◌∙◌, subst, arith, Bool-cases,
  Option-cases, Result-cases,
}
use gude_agents.Dict.{Dict, lookup}
use gude_agents.Execution.{
  Execution, ToolBatchExecution, ToolExecution, ToolExecutionStatus, planned, ready, in_flight,
  tool_completed, other_tool_status,
}
use gude_agents.Execution.Batch.{
  Call, PriorToolUse, RunError, uncertain, is_planned, Toolbox, plan_calls, ready_calls, claim_call,
  claim_calls, complete_call, complete_calls,
}

abbrev pub IsDispatched : ToolExecutionStatus → Type 0
IsDispatched planned = ⊥
IsDispatched ready = ⊥
IsDispatched in_flight = Unit
IsDispatched tool_completed = Unit
IsDispatched (other_tool_status s) = ⊥

-- The first call with the identifier, where there is one, is unsafe and has been dispatched.
abbrev pub Spent : String → List ToolExecution → Type 0
Spent id [] = Unit
Spent id (call ∷ calls) =
    if call.call_id == id
    then IsDispatched call.status × (call.replay_safe ≡ false)
    else Spent id calls

abbrev pub SpentBatch : String → Option ToolBatchExecution → Type 0
SpentBatch id none = Unit
SpentBatch id (some b) = Spent id b.calls

abbrev pub SpentIn : String → Execution → Type 0
SpentIn id x = SpentBatch id x.tool_batch

-- The first call with the identifier is unsafe.
abbrev pub IsUnsafe : String → List ToolExecution → Type 0
IsUnsafe id [] = Unit
IsUnsafe id (call ∷ calls) =
    if call.call_id == id then call.replay_safe ≡ false else IsUnsafe id calls

abbrev pub Fails : {A : Type 0} → Result RunError A → Type 0
Fails r = (e : RunError) × (r ≡ err e)

pub Spent-here :
    (id : String) (call : ToolExecution) (calls : List ToolExecution)
    → call.call_id == id ≡ true
    → Spent id (call ∷ calls)
    → IsDispatched call.status × (call.replay_safe ≡ false)
Spent-here id call calls same h =
    subst (λ b. if b then IsDispatched call.status × (call.replay_safe ≡ false) else Spent id calls)
      same h

pub Spent-later :
    (id : String) (call : ToolExecution) (calls : List ToolExecution)
    → call.call_id == id ≡ false
    → Spent id (call ∷ calls)
    → Spent id calls
Spent-later id call calls other h =
    subst (λ b. if b then IsDispatched call.status × (call.replay_safe ≡ false) else Spent id calls)
      other h

claim_call-Fails :
    (recovering : Bool) (execution_id name : String) (call : ToolExecution)
    (calls : List ToolExecution) (s : ToolExecutionStatus)
    → IsDispatched s
    → call.replay_safe ≡ false
    → Fails (claim_call recovering execution_id name call calls s)
unfolding claim_call
claim_call-Fails true execution_id name call calls in_flight h safe =
    (uncertain execution_id call.call_id name call.idempotency_key, rw safe refl)
claim_call-Fails false execution_id name call calls in_flight h safe = (_, refl)
claim_call-Fails recovering execution_id name call calls tool_completed h safe = (_, refl)
claim_call-Fails recovering execution_id name call calls planned h safe = elim h [ ]
claim_call-Fails recovering execution_id name call calls ready h safe = elim h [ ]
claim_call-Fails recovering execution_id name call calls (other_tool_status _) h safe = elim h [ ]

-- A claim on a spent call fails.
pub claim_calls-Fails :
    (recovering : Bool) (execution_id id name : String) (calls : List ToolExecution)
    → Spent id calls
    → Fails (claim_calls recovering execution_id id name calls)
unfolding claim_calls
claim_calls-Fails recovering execution_id id name [] h = (_, refl)
claim_calls-Fails recovering execution_id id name (call ∷ calls) h =
    elim (Bool-cases (call.call_id == id)) [
      | inl same ↦
          let (dispatched, safe) = Spent-here id call calls same h in
          rw same
            (claim_call-Fails recovering execution_id name call calls call.status dispatched safe)
      | inr other ↦
          let (e, bad) =
            claim_calls-Fails recovering execution_id id name calls
              (Spent-later id call calls other h) in
          rw other (e, rw bad refl)
    ]

-- What a result gives, where it is not an error.
abbrev pub AllOk : {A : Type 0} → (A → Type 0) → Result RunError A → Type 0
AllOk P (ok a) = P a
AllOk P (err e) = Unit

pub at_ok :
    {A : Type 0} (P : A → Type 0) (r : Result RunError A) (a : A) → AllOk P r → r ≡ ok a → P a
at_ok P r a h e = subst (λ s. AllOk P s) e h

-- A guard with an early error.
pub AllOk-guard :
    {A : Type 0} (P : A → Type 0) (b : Bool) (e : RunError) (r : Result RunError A)
    → AllOk P r
    → AllOk P (if b then err e else r)
AllOk-guard P true e r h = tt
AllOk-guard P false e r h = h

module _ (P : List ToolExecution → Type 0) where
  claim_call-AllOk :
      (recovering : Bool) (execution_id name : String) (call : ToolExecution)
      (calls : List ToolExecution) (s : ToolExecutionStatus)
      → P (record call { status = in_flight } ∷ calls)
      → (s ≡ in_flight → P (call ∷ calls))
      → AllOk (λ c. P c.calls) (claim_call recovering execution_id name call calls s)
  unfolding claim_call
  claim_call-AllOk recovering execution_id name call calls ready h k = h
  claim_call-AllOk recovering execution_id name call calls in_flight h k =
      elim (Bool-cases (recovering && call.replay_safe)) [
        | inl replay ↦ rw replay (k refl)
        | inr refused ↦ rw refused tt
      ]
  claim_call-AllOk recovering execution_id name call calls planned h k = tt
  claim_call-AllOk recovering execution_id name call calls tool_completed h k = tt
  claim_call-AllOk recovering execution_id name call calls (other_tool_status s) h k = tt

-- A claim leaves spent what was spent.
pub claim_calls-Spent :
    (recovering : Bool) (execution_id id other name : String) (calls : List ToolExecution)
    → Spent id calls
    → AllOk (λ c. Spent id c.calls) (claim_calls recovering execution_id other name calls)
unfolding claim_calls
claim_calls-Spent recovering execution_id id other name [] h = tt
claim_calls-Spent recovering execution_id id other name (call ∷ calls) h =
    elim (Bool-cases (call.call_id == other)) [
      | inl same ↦ rw same (
          claim_call-AllOk (Spent id) recovering execution_id name call calls call.status
            (elim (Bool-cases (call.call_id == id)) [
              | inl here ↦ rw here (tt, (Spent-here id call calls here h).1)
              | inr later ↦ rw later (Spent-later id call calls later h)
            ])
            (λ _. h))
      | inr different ↦
          rw different (elim (Result-cases (claim_calls recovering execution_id other name calls)) [
            | inl (e, bad) ↦ rw bad tt
            | inr (c, good) ↦ rw good (elim (Bool-cases (call.call_id == id)) [
              | inl here ↦ rw here (Spent-here id call calls here h)
              | inr later ↦ rw later (
                  at_ok (λ d. Spent id d.calls) _ c
                    (claim_calls-Spent recovering execution_id id other name calls
                      (Spent-later id call calls later h))
                    good)
            ])
          ])
    ]

-- A claim of an unsafe call leaves it spent.
pub claim_calls-Unsafe :
    (recovering : Bool) (execution_id id name : String) (calls : List ToolExecution)
    → IsUnsafe id calls
    → AllOk (λ c. Spent id c.calls) (claim_calls recovering execution_id id name calls)
unfolding claim_calls
claim_calls-Unsafe recovering execution_id id name [] h = tt
claim_calls-Unsafe recovering execution_id id name (call ∷ calls) h =
    elim (Bool-cases (call.call_id == id)) [
      | inl same ↦
          let safe : call.replay_safe ≡ false =
            subst (λ b. if b then call.replay_safe ≡ false else IsUnsafe id calls) same h in
          rw same (
            claim_call-AllOk (Spent id) recovering execution_id name call calls call.status
              (rw same (tt, safe)) (λ e. rw same (subst IsDispatched (sym e) tt, safe)))
      | inr different ↦
          let later : IsUnsafe id calls =
            subst (λ b. if b then call.replay_safe ≡ false else IsUnsafe id calls) different h in
          rw different (elim (Result-cases (claim_calls recovering execution_id id name calls)) [
            | inl (e, bad) ↦ rw bad tt
            | inr (c, good) ↦ rw good (
                rw different (
                  at_ok (λ d. Spent id d.calls) _ c
                    (claim_calls-Unsafe recovering execution_id id name calls later) good))
          ])
    ]

dispatched_planned : (s : ToolExecutionStatus) → IsDispatched s → is_planned s ≢ true
dispatched_planned in_flight h = ground arith
dispatched_planned tool_completed h = ground arith
dispatched_planned planned h = elim h [ ]
dispatched_planned ready h = elim h [ ]
dispatched_planned (other_tool_status _) h = elim h [ ]

-- Calls that are made ready had none that was dispatched.
pub ready_calls-Spent :
    (id : String) (calls : List ToolExecution)
    → Spent id calls
    → AllOk (Spent id) (ready_calls calls)
unfolding ready_calls
ready_calls-Spent id [] h = tt
ready_calls-Spent id (call ∷ calls) h = elim (Bool-cases (is_planned call.status)) [
  | inr dispatched ↦ rw dispatched tt
  | inl fresh ↦ rw fresh (elim (Result-cases (ready_calls calls)) [
    | inl (e, bad) ↦ rw bad tt
    | inr (readied, good) ↦ rw good (elim (Bool-cases (call.call_id == id)) [
      | inl here ↦
          elim (dispatched_planned call.status (Spent-here id call calls here h).0 fresh) [ ]
      | inr later ↦ rw later (
          at_ok (Spent id) _ readied
            (ready_calls-Spent id calls (Spent-later id call calls later h)) good)
    ])
  ])
]

complete_call-Dispatched :
    (id : String) (completed : List String) (call : ToolExecution) (calls rest : List ToolExecution)
    → (Spent id calls → Spent id rest)
    → Spent id (call ∷ calls)
    → Spent id (complete_call completed call ∷ rest)
complete_call-Dispatched id completed call calls rest k h =
    elim (Bool-cases (any (λ i. i == call.call_id) completed)) [
      | inl now ↦ rw now (elim (Bool-cases (call.call_id == id)) [
        | inl here ↦ rw here (tt, (Spent-here id call calls here h).1)
        | inr later ↦ rw later (k (Spent-later id call calls later h))
      ])
      | inr not_now ↦ rw not_now (elim (Bool-cases (call.call_id == id)) [
        | inl here ↦ rw here (Spent-here id call calls here h)
        | inr later ↦ rw later (k (Spent-later id call calls later h))
      ])
    ]

pub complete_calls-Spent :
    (id : String) (completed : List String) (calls : List ToolExecution)
    → Spent id calls
    → Spent id (complete_calls completed calls)
complete_calls-Spent id completed [] h = tt
complete_calls-Spent id completed (call ∷ calls) h =
    complete_call-Dispatched id completed call calls (complete_calls completed calls)
      (complete_calls-Spent id completed calls) h

none≢known : {p : PriorToolUse} → none ≢ some p
none≢known e = ground arith

-- A plan that knows of a tool use refuses a call with its identifier.
module _ (box : Toolbox) (prior : Dict PriorToolUse) (execution_id id : String) (p : PriorToolUse)
    (known : lookup id prior ≡ some p) where
  pub plan_calls-Spent :
      (i : ℕ) (seen : List String) (calls : List Call)
      → AllOk (Spent id) (plan_calls box prior execution_id i seen calls)
  unfolding plan_calls
  plan_calls-Spent i seen [] = tt
  plan_calls-Spent i seen (call ∷ calls) = AllOk-guard (Spent id) (call.tool_use_id == "") _ _ (
      AllOk-guard (Spent id) (any (λ s. s == call.tool_use_id) seen) _ _
        (elim (Option-cases (box.input_hash call.input)) [
          | inl bad ↦ rw bad tt
          | inr (hash, good) ↦ rw good (elim (Option-cases (lookup call.tool_use_id prior)) [
            | inr (previous, found) ↦ rw found (AllOk-guard (Spent id) _ _ (err _) tt)
            | inl fresh ↦
                rw fresh
                  (elim (Result-cases
                    (plan_calls box prior execution_id (suc i) (call.tool_use_id ∷ seen) calls)) [
                      | inl (e, bad) ↦ rw bad tt
                      | inr (rest, done) ↦ rw done (elim (Bool-cases (call.tool_use_id == id)) [
                        | inl same ↦
                            elim (none≢known (
                              sym fresh
                              ∙ ap (λ k. lookup k prior) ((eq_iff _ id).0 same)
                              ∙ known)) [ ]
                        | inr later ↦ rw later (
                            at_ok (Spent id) _ rest
                              (plan_calls-Spent (suc i) (call.tool_use_id ∷ seen) calls) done)
                      ])
                    ])
          ])
        ]))
