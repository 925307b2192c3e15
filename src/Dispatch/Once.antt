-- ===== src/Dispatch/Once.antt =====
-- A call of a durable run through `executeCall` of agent/tool_exec.go, and the same call again.
use gude_agents.Prelude.{
  ℕ, String, Bool, true, false, ◌&&◌, List, Option, none, some, Result, ok, err, any, ◌≡◌, refl,
  sym, subst, Bool-cases, Option-cases, Result-cases, inl, inr, if◌then◌else◌, arith, nat_eq, ◌==◌,
}
use gude_agents.Dict.{lookup}
use gude_agents.Message.{Bytes}
use gude_agents.Execution.{
  Execution, ExecutionError, Json, Memory, stamped, validate_id, check_expected, marshal_execution,
  unmarshal_execution, save, next_version,
}
use gude_agents.Execution.Store.{Codec}
use gude_agents.Execution.Batch.{Call, RunError, begin_tool_execution, persist_execution, persisted}
use gude_agents.Execution.Batch.Spent.{at_ok}
use gude_agents.Execution.Batch.Spent.{SpentIn}
use gude_agents.Execution.Batch.AtMostOnce.{UnsafeBatch, begin-Unsafe, begin-Fails, claimed}
use gude_agents.Dispatch.{
  Decision, Equipped, Host, Run, Durable, Metadata, Refusal, refusal, Mark, ToolOutcome,
}
use gude_agents.Dispatch.Pipeline.{
  begin_call, execute_call, begun_call, captured, claimed_call, admitted, undecided,
}
use gude_agents.Dispatch.Cleared.{is_entered, IsOk, Cleared, refusal-Checked, execute_call-entered}

-- The status of a call and whether it is safe to replay survive the encoding.
abbrev pub KeepsCalls : {json : Json} → Codec json → Type 0
KeepsCalls c = (id : String) (x : Execution) → SpentIn id x → SpentIn id (c.normal x)

abbrev Stored : {E : Type 0} → (Execution → Type 0) → Result E Execution → Type 0
Stored P (ok x) = P x
Stored P (err e) = Unit

abbrev pub UnsafeHeld : String → Option Execution → Type 0
UnsafeHeld id none = Unit
UnsafeHeld id (some x) = UnsafeBatch id x.tool_batch

module _ (json : Json) (c : Codec json) (keeps : KeepsCalls c) (id : String) where
  decoded-SpentIn :
      (x : Execution) (payload : Bytes) (name : String) (n : ℕ)
      → SpentIn id x
      → json.marshal (stamped x 0) ≡ some payload
      → Stored (SpentIn id) (unmarshal_execution json payload name n)
  unfolding unmarshal_execution
  decoded-SpentIn x payload name n spent e =
      rw (c.decodes (stamped x 0) payload e, unmarshal_execution)
        (elim (Bool-cases ((c.normal (stamped x 0)).id == name)) [
          | inl same ↦ rw same (keeps id (stamped x 0) spent)
          | inr other ↦ rw other tt
        ])

  save-SpentIn :
      (m : Memory) (x : Execution) (expected : ℕ)
      → SpentIn id x
      → Stored (SpentIn id) (save json m x expected).1
  unfolding save marshal_execution
  save-SpentIn m x expected spent = elim (Option-cases (validate_id x.id)) [
    | inr (e, invalid) ↦ rw (invalid, save) tt
    | inl valid ↦
        rw (valid, save)
          (elim (Option-cases (check_expected x.id expected)) [
            | inr (e, out) ↦ rw (out, save) tt
            | inl fine ↦
                rw (fine, save)
                  (elim (Option-cases (json.marshal (stamped x 0))) [
                    | inl bad ↦ rw (bad, save, marshal_execution) tt
                    | inr (payload, good) ↦
                        rw (good, save, marshal_execution)
                          (elim (Option-cases (lookup x.id m)) [
                            | inl missing ↦ rw (missing, save) tt
                            | inr (current, found) ↦
                                rw (found, save)
                                  (elim (Bool-cases (nat_eq current.version expected)) [
                                    | inl same ↦ rw same (
                                        decoded-SpentIn x payload x.id (next_version expected) spent
                                          good)
                                    | inr stale ↦ rw stale tt
                                  ])
                          ])
                  ])
          ])
  ]

  abbrev Held : Option Execution → Type 0
  Held none = Unit
  Held (some y) = SpentIn id y

  -- What a change that was stored left.
  abbrev Taken : Memory × Option Execution × Option RunError → Type 0
  Taken (m, held, none) = Held held
  Taken (m, held, some e) = Unit

  persisted-Taken :
      (x : Execution) (saved : Memory × Result ExecutionError Execution)
      → Stored (SpentIn id) saved.1
      → Taken (persisted x saved)
  persisted-Taken x (m, ok y) spent = spent
  persisted-Taken x (m, err e) spent = tt

  persist-Taken :
      (recovering : Bool) (name : String) (m : Memory) (held : Option Execution)
      → UnsafeHeld id held
      → Taken
          (persist_execution json m held (λ x. claimed (begin_tool_execution recovering id name x)))
  unfolding persist_execution
  persist-Taken recovering name m none unsafe = tt
  persist-Taken recovering name m (some x) unsafe =
      elim (Result-cases (begin_tool_execution recovering id name x)) [
        | inl (e, bad) ↦ rw (bad, persist_execution) tt
        | inr (a, good) ↦
            rw (good, persist_execution)
              (persisted-Taken x (save json m a.0 a.0.version) (
                save-SpentIn m a.0 a.0.version (
                  at_ok (λ b. SpentIn id b.0) _ a (begin-Unsafe recovering id name x unsafe) good)))
      ]

  begun_call-Held :
      (b : Bool) (d : Durable) (saved : Memory × Option Execution × Option RunError)
      (metadata : Metadata)
      → b ≡ true
      → Taken saved
      → IsOk (begun_call b d saved metadata).1
      → Held (begun_call b d saved metadata).0.execution
  begun_call-Held false d saved metadata e taken granted = absurd (ground arith)
  begun_call-Held true d (m, held, none) metadata e taken granted = taken
  begun_call-Held true d (m, held, some refused) metadata e taken granted = absurd granted

  abbrev IsRefused : Memory × Option Execution × Option RunError → Type 0
  IsRefused (m, held, none) = ⊥
  IsRefused (m, held, some e) = Unit

  begun_call-refused :
      (b : Bool) (d : Durable) (saved : Memory × Option Execution × Option RunError)
      (metadata : Metadata)
      → b ≡ true
      → IsRefused saved
      → ¬ IsOk (begun_call b d saved metadata).1
  begun_call-refused false d saved metadata e refused granted = ground arith
  begun_call-refused true d (m, held, none) metadata e refused granted = refused
  begun_call-refused true d (m, held, some error) metadata e refused granted = granted

  -- A claim of a spent call is refused, and so is one of a run without an execution.
  Held-IsRefused :
      (recovering : Bool) (name : String) (m : Memory) (held : Option Execution)
      → Held held
      → IsRefused
          (persist_execution json m held (λ x. claimed (begin_tool_execution recovering id name x)))
  unfolding persist_execution
  Held-IsRefused recovering name m none spent = tt
  Held-IsRefused recovering name m (some x) spent =
      let (e, bad) = begin-Fails recovering id name x spent in rw (bad, persist_execution) tt

claimed_call-store :
    (h : Host) (r : Run) (call : Call) (t : Equipped) (claim : Durable × Result RunError Metadata)
    → (claimed_call h r call t claim).0 ≡ claim.0
unfolding claimed_call
claimed_call-store h r call t (d, ok metadata) = refl
claimed_call-store h r call t (d, err e) = refl

gate-store :
    (b : Bool) (early : Durable × List Mark × ToolOutcome) (h : Host) (r : Run) (call : Call)
    (t : Equipped) (claim : Durable × Result RunError Metadata)
    → b ≡ false
    → (if b then early else claimed_call h r call t claim).0 ≡ claim.0
gate-store true early h r call t claim e = absurd (ground arith)
gate-store false early h r call t claim e = claimed_call-store h r call t claim

admitted-store :
    (h : Host) (r : Run) (d : Durable) (call : Call) (t : Equipped) (decision : Option Decision)
    (refused : Option Refusal)
    → refused ≡ none
    → (t.tool.needs_approval && undecided decision) ≡ false
    → (admitted h r d call t decision refused).0 ≡ (begin_call h.json r d call).0
unfolding admitted
admitted-store h r d call t decision (some refused) e gate = absurd (ground arith)
admitted-store h r d call t decision none e gate =
    gate-store (t.tool.needs_approval && undecided decision) _ h r call t
      (begin_call h.json r d call) gate

-- The call that enters its handler leaves itself spent.
execute_call-Held :
    (h : Host) (c : Codec h.json) (keeps : KeepsCalls c) (r : Run) (d : Durable) (call : Call)
    (t : Option Equipped) (decision : Option Decision)
    → r.durable ≡ true
    → UnsafeHeld call.tool_use_id d.execution
    → Cleared h r call d t decision
    → Held h.json c keeps call.tool_use_id (execute_call h r d call t decision).0.execution
unfolding execute_call begin_call
execute_call-Held h c keeps r d call none decision durable unsafe cleared = absurd cleared
execute_call-Held h c keeps r d call (some t) decision durable unsafe cleared =
    let store =
      admitted-store h r d call t decision (refusal h r call t decision)
        ((refusal-Checked h r call t decision).1 cleared.0) cleared.1 in
    subst (λ left. Held h.json c keeps call.tool_use_id left.execution) (sym store)
      (begun_call-Held h.json c keeps call.tool_use_id r.durable d
        (persist_execution h.json d.store d.execution
          (λ x. claimed (begin_tool_execution r.recovering call.tool_use_id call.name x)))
        (captured r.recovering call.tool_use_id call.name d.execution) durable
        (persist-Taken h.json c keeps call.tool_use_id r.recovering call.name d.store d.execution
          unsafe)
        cleared.2)

-- A spent call is not cleared.
Held-blocks :
    (h : Host) (c : Codec h.json) (keeps : KeepsCalls c) (r : Run) (d : Durable) (call : Call)
    (t : Option Equipped) (decision : Option Decision)
    → r.durable ≡ true
    → Held h.json c keeps call.tool_use_id d.execution
    → ¬ Cleared h r call d t decision
unfolding begin_call
Held-blocks h c keeps r d call none decision durable spent cleared = cleared
Held-blocks h c keeps r d call (some t) decision durable spent cleared =
    begun_call-refused h.json c keeps call.tool_use_id r.durable d
      (persist_execution h.json d.store d.execution
        (λ x. claimed (begin_tool_execution r.recovering call.tool_use_id call.name x)))
      (captured r.recovering call.tool_use_id call.name d.execution) durable
      (Held-IsRefused h.json c keeps call.tool_use_id r.recovering call.name d.store d.execution
        spent)
      cleared.2

-- A call of a durable run that is not safe to replay enters the middlewares around its handler once:
-- after `executeCall` has entered them, no call with its identifier enters any from the state that is
-- left, in this run or in a recovery, whatever tool, input and decision come with it. The store's encoding keeps the status
-- of the calls.
pub execute_call_once :
    (h : Host) (c : Codec h.json) (r r' : Run) (d : Durable) (call call' : Call)
    (t t' : Option Equipped) (decision decision' : Option Decision)
    → KeepsCalls c
    → r.durable ≡ true
    → r'.durable ≡ true
    → call'.tool_use_id ≡ call.tool_use_id
    → UnsafeHeld call.tool_use_id d.execution
    → any is_entered (execute_call h r d call t decision).1 ≡ true
    → any is_entered (execute_call h r' (execute_call h r d call t decision).0 call' t' decision').1
      ≡ false
execute_call_once h c r r' d call call' t t' decision decision' keeps durable durable' same unsafe
      entered =
    let left = (execute_call h r d call t decision).0 in
    let cleared = (execute_call-entered h r call d t decision).0 entered in
    let spent = execute_call-Held h c keeps r d call t decision durable unsafe cleared in
    let again = subst (λ id. Held h.json c keeps id left.execution) (sym same) spent in
    elim (Bool-cases (any is_entered (execute_call h r' left call' t' decision').1)) [
      | inl entered_again ↦ absurd (
          Held-blocks h c keeps r' left call' t' decision' durable' again
            ((execute_call-entered h r' call' left t' decision').0 entered_again))
      | inr refused ↦ refused
    ]
