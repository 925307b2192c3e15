-- ===== src/Dispatch/Group.antt =====
-- `executeBatch` of agent/tool_exec.go: the calls of one turn, under the agent's execution policy. The
-- outcomes are a table by the call's index. A parallel run is an order of the calls, each one atomic:
-- the only state that calls share is the run's execution, behind a lock, and the events. A resumed
-- batch has a decision, or none, beside each call.
pub mod Waiting
pub mod Approval
use gude_agents.Prelude.{
  ℕ, suc, String, Bool, true, false, not, ◌&&◌, List, [], ◌∷◌, ◌++◌, Option, none, some, concat,
  any, filter, length, nat_eq, ltb, if◌then◌else◌,
}
use gude_agents.Words.{Int64}
use gude_agents.Dict.{Dict, lookup}
use gude_agents.Execution.Batch.{Call}
use gude_agents.Dispatch.{
  Decision, Equipped, Host, Run, Durable, OutcomeKind, definitive, pending_approval, deferred,
  unknown, coordination_failure, ToolOutcome, Mark, plain_result, outcome,
}
use gude_agents.Dispatch.Pipeline.{execute_call}

pub record Job : Type 0 where
  pub index : ℕ
  pub call : Call
  pub decision : Option Decision

-- The agent's policy, the order in which a parallel run takes its calls, and the context's error before
-- a call of a sequential run.
pub record Policy : Type 0 where
  pub sequential : Bool
  pub max_concurrent_tools : Int64
  pub order : List Job → List Job
  pub canceled : ℕ → Option String

pub record Batched : Type 0 where
  pub durable : Durable
  pub marks : List Mark
  pub outcomes : ℕ → ToolOutcome

-- `concurrentLimit`
unfoldable pub concurrent_limit : Policy → Int64
concurrent_limit p = if p.sequential then 1 else p.max_concurrent_tools

-- `outcomes[i] = o`
abbrev pub put : ℕ → ToolOutcome → Batched → Batched
put i o s = record s { outcomes = λ k. if nat_eq k i then o else s.outcomes k }

abbrev pub zero_outcome : ToolOutcome
zero_outcome = outcome definitive (plain_result "")

abbrev pub not_executed : Call → String → ToolOutcome
not_executed call e = outcome definitive (record (plain_result call.tool_use_id) {
  content = concat "not executed: " e;
  is_error = true;
})

-- `ok && t.NeedsApproval()`
abbrev pub needs : Option Equipped → Bool
needs none = false
needs (some t) = t.tool.needs_approval

abbrev pub needs_approval : Dict Equipped → Call → Bool
needs_approval available call = needs (lookup call.name available)

abbrev pub is_pending : OutcomeKind → Bool
is_pending pending_approval = true
is_pending definitive = false
is_pending deferred = false
is_pending unknown = false
is_pending coordination_failure = false

-- The jobs of a batch, from index `i` on.
abbrev pub jobs_from : Bool → ℕ → List (Call × Option Decision) → List Job
jobs_from resumed i [] = []
jobs_from resumed i ((call, decision) ∷ requests) =
    record { index = i; call = call; decision = if resumed then decision else none }
    ∷ jobs_from resumed (suc i) requests

module _ (h : Host) (r : Run) (p : Policy) (available : Dict Equipped) where
  -- `exec`
  abbrev pub store_call : Job → Batched → Durable × List Mark × ToolOutcome → Batched
  store_call job s (d, marks, o) =
      put job.index o (record s { durable = d; marks = s.marks ++ marks })

  unfoldable pub exec : Job → Batched → Batched
  exec job s =
      store_call job s
        (execute_call h r s.durable job.call (lookup job.call.name available) job.decision)

  unfoldable pub in_order : List Job → Batched → Batched
  in_order [] s = s
  in_order (job ∷ jobs) s = in_order jobs (exec job s)

  -- One round of the sequential loop.
  unfoldable pub attempt : Job → Batched → Option String → Batched
  attempt job s (some e) = put job.index (not_executed job.call e) s
  attempt job s none = exec job s

  unfoldable pub one_by_one : List Job → Batched → Batched
  one_by_one [] s = s
  one_by_one (job ∷ jobs) s = one_by_one jobs (attempt job s (p.canceled job.index))

  -- `run`
  unfoldable pub run_jobs : List Job → Batched → Batched
  run_jobs jobs s =
      if not (nat_eq (concurrent_limit p) 1) && ltb 1 (length jobs)
      then in_order (p.order jobs) s
      else one_by_one jobs s

  abbrev pub defer_jobs : List Job → Batched → Batched
  defer_jobs [] s = s
  defer_jobs (job ∷ jobs) s = defer_jobs jobs (put job.index (outcome deferred (plain_result "")) s)

  -- The calls of a fresh batch, with those that need an approval and those that do not.
  unfoldable pub preflight : List Job → List Job → List Job → Batched → Batched
  preflight all_jobs [] remaining s = run_jobs all_jobs s
  preflight all_jobs (job ∷ jobs) remaining s =
      let first = run_jobs (job ∷ jobs) s in
      if any (λ j. is_pending (first.outcomes j.index).kind) (job ∷ jobs)
      then defer_jobs remaining first
      else run_jobs remaining first

  unfoldable pub execute_batch : Bool → List (Call × Option Decision) → Durable → Batched
  execute_batch resumed requests d =
      let jobs = jobs_from resumed 0 requests in
      let s : Batched = record { durable = d; marks = []; outcomes = λ k. zero_outcome } in
      if resumed
      then run_jobs jobs s
      else preflight jobs (filter (λ j. needs_approval available j.call) jobs)
          (filter (λ j. not (needs_approval available j.call)) jobs) s
