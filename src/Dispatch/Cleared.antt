-- ===== src/Dispatch/Cleared.antt =====
-- When `executeCall` of agent/tool_exec.go calls the middlewares around the handler.
use gude_agents.Prelude.{
  String, Bool, true, false, ◌&&◌, [], Option, none, some, Result, ok, err, any, ◌≡◌, refl, ◌↔◌,
  if◌then◌else◌, arith,
}
use gude_agents.Message.{Bytes}
use gude_agents.Tool.{Tool, allowed_for_principal}
use gude_agents.Execution.Batch.{Call, RunError}
use gude_agents.Dispatch.{
  Decision, Equipped, Host, Run, Durable, Mark, started, entered, ended, pending_approval,
  guard_decision, has_principal, roles_of, attrs_of, Refusal, or_else, human_denial, policy_denial,
  schema_error, guard_denial, input_refusal, refusal, Metadata, outcome, plain_result,
}
use gude_agents.Dispatch.Pipeline.{
  begin_call, claimed_call, admitted, undecided, failed, execute_call,
}

abbrev pub is_entered : Mark → Bool
is_entered (started id) = false
is_entered (entered id metadata) = true
is_entered (ended id code) = false

-- No human denied the call.
abbrev pub Undenied : Option Decision → Type 0
Undenied none = Unit
Undenied (some d) = d.allow ≡ true

abbrev pub Accepted : Option (Bytes → Result String Decision) → Bytes → Type 0
Accepted none input = Unit
Accepted (some guard) input = (guard_decision (guard input)).allow ≡ true

abbrev pub IsOk : {E A : Type 0} → Result E A → Type 0
IsOk (ok a) = Unit
IsOk (err e) = ⊥

pass_if : (b : Bool) (x : Refusal) → ((if b then none else some x) ≡ none) ↔ (b ≡ true)
pass_if true x = (λ e. refl, λ e. refl)
pass_if false x = (λ e. ground arith, λ e. ground arith)

or_else-none :
    (first second : Option Refusal)
    → (or_else first second ≡ none) ↔ (first ≡ none) × (second ≡ none)
or_else-none none second = (λ e. (refl, e), λ e. e.1)
or_else-none (some x) second = (λ e. ground arith, λ e. ground arith)

module _ (h : Host) (r : Run) (call : Call) where
  -- What must hold before the middlewares are called, in the order of the pipeline.
  abbrev pub Checked : Equipped → Option Decision → Type 0
  Checked t decision =
      Undenied decision
      × (allowed_for_principal t.tool (has_principal r.principal) (roles_of r.principal)
            (attrs_of r.principal)
          ≡ true)
      × (h.validate t.tool call.input ≡ none)
      × Accepted t.guard call.input

  abbrev pub Cleared : Durable → Option Equipped → Option Decision → Type 0
  Cleared d none decision = ⊥
  Cleared d (some t) decision =
      Checked t decision
      × ((t.tool.needs_approval && undecided decision) ≡ false)
      × IsOk (begin_call h.json r d call).1

  human_denial-Undenied :
      (decision : Option Decision) → (human_denial h call decision ≡ none) ↔ Undenied decision
  unfolding human_denial
  human_denial-Undenied none = (λ e. tt, λ u. refl)
  human_denial-Undenied (some d) = pass_if d.allow _

  policy_denial-allowed :
      (t : Tool)
      → (policy_denial h call r.principal t ≡ none) ↔ (
          allowed_for_principal t
            (has_principal r.principal)
            (roles_of r.principal)
            (attrs_of r.principal)
          ≡ true)
  unfolding policy_denial
  policy_denial-allowed t =
      pass_if
        (allowed_for_principal t (has_principal r.principal) (roles_of r.principal)
          (attrs_of r.principal))
        _

  by_cause : (cause : Option String) → (input_refusal h call cause ≡ none) ↔ (cause ≡ none)
  by_cause none = (λ e. refl, λ e. refl)
  by_cause (some cause) = (λ e. ground arith, λ e. ground arith)

  schema_error-validate :
      (t : Tool) → (schema_error h call t ≡ none) ↔ (h.validate t call.input ≡ none)
  unfolding schema_error
  schema_error-validate t = by_cause (h.validate t call.input)

  guard_denial-Accepted :
      (guard : Option (Bytes → Result String Decision))
      → (guard_denial h call guard ≡ none) ↔ Accepted guard call.input
  unfolding guard_denial
  guard_denial-Accepted none = (λ e. tt, λ u. refl)
  guard_denial-Accepted (some guard) = pass_if (guard_decision (guard call.input)).allow _

  pub refusal-Checked :
      (t : Equipped) (decision : Option Decision)
      → (refusal h r call t decision ≡ none) ↔ Checked t decision
  unfolding refusal
  refusal-Checked t decision =
      let human = human_denial-Undenied decision in
      let policy = policy_denial-allowed t.tool in
      let schema = schema_error-validate t.tool in
      let guard = guard_denial-Accepted t.guard in
      let all = or_else-none (human_denial h call decision) _ in
      let later = or_else-none (policy_denial h call r.principal t.tool) _ in
      let last = or_else-none (schema_error h call t.tool) (guard_denial h call t.guard) in
      (
        (λ e.
            let a = all.0 e in
            let b = later.0 a.1 in
            let c = last.0 b.1 in (human.0 a.0, policy.0 b.0, schema.0 c.0, guard.0 c.1)),
        (λ u. all.1 (human.1 u.0, later.1 (policy.1 u.1, last.1 (schema.1 u.2, guard.1 u.3)))),
      )

  claimed_call-entered :
      (t : Equipped) (claim : Durable × Result RunError Metadata)
      → (any is_entered (claimed_call h r call t claim).1 ≡ true) ↔ IsOk claim.1
  unfolding claimed_call
  claimed_call-entered t (d, err e) = (λ e. ground arith, λ u. absurd u)
  claimed_call-entered t (d, ok metadata) = (λ e. tt, λ u. refl)

  gate-entered :
      (b : Bool) (d : Durable) (t : Equipped) (claim : Durable × Result RunError Metadata)
      → (any is_entered
            (if b
              then (d, [], outcome pending_approval (plain_result call.tool_use_id))
              else claimed_call h r call t claim).1
          ≡ true)
        ↔ (b ≡ false) × IsOk claim.1
  gate-entered true d t claim = (λ e. ground arith, λ u. ground (arith, u.0))
  gate-entered false d t claim =
      let claimed = claimed_call-entered t claim in (λ e. (refl, claimed.0 e), λ u. claimed.1 u.1)

  admitted-entered :
      (d : Durable) (t : Equipped) (decision : Option Decision) (refused : Option Refusal)
      → (any is_entered (admitted h r d call t decision refused).1 ≡ true)
        ↔ (refused ≡ none)
          × ((t.tool.needs_approval && undecided decision) ≡ false)
          × IsOk (begin_call h.json r d call).1
  unfolding admitted failed
  admitted-entered d t decision none =
      let gate =
        gate-entered (t.tool.needs_approval && undecided decision) d t
          (begin_call h.json r d call) in
      (λ e. let g = gate.0 e in (refl, g.0, g.1), λ u. gate.1 (u.1, u.2))
  admitted-entered d t decision (some refused) = (λ e. ground arith, λ u. ground (arith, u.0))

-- The mark of the middlewares' call is there exactly when the tool was found, no human denied the call,
-- the principal is allowed, the input fits the schema, the guard accepts it, an approval is not needed
-- or a decision is there, and the claim of the call is granted.
pub execute_call-entered :
    (h : Host) (r : Run) (call : Call) (d : Durable) (t : Option Equipped)
    (decision : Option Decision)
    → (any is_entered (execute_call h r d call t decision).1 ≡ true) ↔ Cleared h r call d t decision
unfolding execute_call failed
execute_call-entered h r call d none decision = (λ e. ground arith, λ u. absurd u)
execute_call-entered h r call d (some t) decision =
    let checked = refusal-Checked h r call t decision in
    let gate = admitted-entered h r call d t decision (refusal h r call t decision) in
    ((λ e. let g = gate.0 e in (checked.0 g.0, g.1, g.2)), (λ u. gate.1 (checked.1 u.0, u.1, u.2)))
