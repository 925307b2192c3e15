-- ===== src/Dispatch/Group/Approval.antt =====
-- A pending approval in `executeBatch` of agent/tool_exec.go.
use gude_agents.Prelude.{
  ℕ, suc, String, Bool, true, false, not, ◌&&◌, ◌||◌, List, [], ◌∷◌, Option, none, some, any, all,
  filter, length, nat_eq, ltb, nat_eq_iff, nat_eq-true, if◌then◌else◌, ◌≡◌, refl, sym, ap, ◌∙◌,
  subst, inl, inr, arith, Bool-cases, and_split, or_right, clash, clash_not, any-append,
}
use gude_agents.Dict.{Dict, lookup}
use gude_agents.Execution.Batch.{Call}
use gude_agents.Dispatch.{Decision, Equipped, Host, Run, Durable, ToolOutcome}
use gude_agents.Dispatch.Pipeline.{execute_call, undecided}
use gude_agents.Dispatch.Cleared.{is_entered}
use gude_agents.Dispatch.Group.Waiting.{execute_call-pending, execute_call-waits}
use gude_agents.Dispatch.Group.{
  Job, Policy, Batched, concurrent_limit, put, not_executed, needs, needs_approval, is_pending,
  jobs_from, exec, in_order, attempt, one_by_one, run_jobs, defer_jobs, preflight, execute_batch,
}

-- A parallel run takes only the calls that it was given.
abbrev pub Selects : (List Job → List Job) → Type 0
Selects order = (q : Job → Bool) (jobs : List Job) → all q jobs ≡ true → all q (order jobs) ≡ true

-- What every call of a run keeps holds at its end.
module _ (h : Host) (r : Run) (p : Policy) (available : Dict Equipped) (I : Batched → Type 0)
    (q : Job → Bool) (selects : Selects p.order)
    (keep : (job : Job) (s : Batched) → q job ≡ true → I s → I (exec h r p available job s))
    (skip : (job : Job) (s : Batched) (e : String)
      → q job ≡ true
      → I s
      → I (put job.index (not_executed job.call e) s)) where
  in_order-keeps :
      (jobs : List Job) (s : Batched)
      → all q jobs ≡ true
      → I s
      → I (in_order h r p available jobs s)
  unfolding in_order
  in_order-keeps [] s e i = i
  in_order-keeps (job ∷ jobs) s e i =
      let (here, later) = and_split (q job) (all q jobs) e in
      in_order-keeps jobs (exec h r p available job s) later (keep job s here i)

  attempt-keeps :
      (job : Job) (s : Batched) (canceled : Option String)
      → q job ≡ true
      → I s
      → I (attempt h r p available job s canceled)
  unfolding attempt
  attempt-keeps job s none e i = keep job s e i
  attempt-keeps job s (some error) e i = skip job s error e i

  one_by_one-keeps :
      (jobs : List Job) (s : Batched)
      → all q jobs ≡ true
      → I s
      → I (one_by_one h r p available jobs s)
  unfolding one_by_one
  one_by_one-keeps [] s e i = i
  one_by_one-keeps (job ∷ jobs) s e i =
      let (here, later) = and_split (q job) (all q jobs) e in
      one_by_one-keeps jobs _ later (attempt-keeps job s (p.canceled job.index) here i)

  run_jobs-keeps :
      (jobs : List Job) (s : Batched)
      → all q jobs ≡ true
      → I s
      → I (run_jobs h r p available jobs s)
  unfolding run_jobs
  run_jobs-keeps jobs s e i =
      elim (Bool-cases (not (nat_eq (concurrent_limit p) 1) && ltb 1 (length jobs))) [
        | inl parallel ↦ rw parallel (in_order-keeps (p.order jobs) s (selects q jobs e) i)
        | inr alone ↦ rw alone (one_by_one-keeps jobs s e i)
      ]

-- A call of a tool that needs an approval, in a fresh batch; and one of another tool.
abbrev gated : Dict Equipped → Job → Bool
gated available job = needs_approval available job.call && undecided job.decision

abbrev free : Dict Equipped → Job → Bool
free available job = not (needs_approval available job.call)

filter-all : (q : Job → Bool) (jobs : List Job) → all q (filter q jobs) ≡ true
filter-all q [] = refl
filter-all q (job ∷ jobs) = elim (Bool-cases (q job)) [
  | inl yes_job ↦ rw (yes_job, yes_job) (filter-all q jobs)
  | inr no_job ↦ rw no_job (filter-all q jobs)
]

if_nil :
    (b : Bool) (x : Job) (xs ys : List Job)
    → (if b then x ∷ xs else ys) ≡ []
    → (b ≡ false) × (ys ≡ [])
if_nil true x xs ys e = ground arith
if_nil false x xs ys e = (refl, e)

filter-none :
    (q : Job → Bool) (jobs : List Job) → filter q jobs ≡ [] → all (λ j. not (q j)) jobs ≡ true
filter-none q [] e = refl
filter-none q (job ∷ jobs) e =
    let (here, later) = if_nil (q job) job (filter q jobs) (filter q jobs) e in
    rw here (filter-none q jobs later)

all_weaken :
    (q q' : Job → Bool) (jobs : List Job)
    → ((j : Job) → q j ≡ true → q' j ≡ true)
    → all q jobs ≡ true
    → all q' jobs ≡ true
all_weaken q q' [] f e = refl
all_weaken q q' (job ∷ jobs) f e =
    let (here, later) = and_split (q job) (all q jobs) e in
    rw (f job here) (all_weaken q q' jobs f later)

self : (n : ℕ) → nat_eq n n ≡ true
self n = nat_eq-true refl

among : (given : List Job) → all (λ job. any (λ j. nat_eq j.index job.index) given) given ≡ true
among [] = refl
among (job ∷ jobs) = rw (self job.index) (
    all_weaken (λ i. any (λ j. nat_eq j.index i.index) jobs)
      (λ i. nat_eq job.index i.index || any (λ j. nat_eq j.index i.index) jobs) jobs
      (λ i e. ground (arith, e)) (among jobs))

any-index :
    (f : ℕ → Bool) (given : List Job) (k : ℕ)
    → f k ≡ true
    → any (λ j. nat_eq j.index k) given ≡ true
    → any (λ j. f j.index) given ≡ true
any-index f [] k e a = a
any-index f (job ∷ jobs) k e a = elim (Bool-cases (nat_eq job.index k)) [
  | inl same ↦ rw (ap f ((nat_eq_iff job.index k).0 same) ∙ e) refl
  | inr other ↦
      or_right (f job.index) _
        (any-index f jobs k e (subst (λ b. (b || any (λ j. nat_eq j.index k) jobs) ≡ true) other a))
]

-- What `put` leaves at an index.
if_cases :
    (P : ToolOutcome → Type 0) (b : Bool) (o old : ToolOutcome)
    → (b ≡ true → P o)
    → (b ≡ false → P old)
    → P (if b then o else old)
if_cases P true o old new kept = new refl
if_cases P false o old new kept = kept refl

module _ (h : Host) (r : Run) (p : Policy) (available : Dict Equipped)
    (selects : Selects p.order) where
  -- No handler was entered.
  abbrev IsQuiet : Batched → Type 0
  IsQuiet s = any is_entered s.marks ≡ false

  run_jobs-IsQuiet :
      (jobs : List Job) (s : Batched)
      → all (gated available) jobs ≡ true
      → IsQuiet s
      → IsQuiet (run_jobs h r p available jobs s)
  unfolding exec
  run_jobs-IsQuiet =
      run_jobs-keeps h r p available IsQuiet (gated available) selects keep (λ job s e g i. i)
    where
      keep :
          (job : Job) (s : Batched)
          → gated available job ≡ true
          → IsQuiet s
          → IsQuiet (exec h r p available job s)
      keep job s g i = any-append is_entered s.marks _ i (
          execute_call-waits h r s.durable job.call (lookup job.call.name available) job.decision g)

  -- Nothing is pending.
  abbrev IsSettled : Batched → Type 0
  IsSettled s = (k : ℕ) → is_pending (s.outcomes k).kind ≡ false

  run_jobs-IsSettled :
      (jobs : List Job) (s : Batched)
      → all (free available) jobs ≡ true
      → IsSettled s
      → IsSettled (run_jobs h r p available jobs s)
  unfolding exec
  run_jobs-IsSettled = run_jobs-keeps h r p available IsSettled (free available) selects keep skip
    where
      keep :
          (job : Job) (s : Batched)
          → free available job ≡ true
          → IsSettled s
          → IsSettled (exec h r p available job s)
      keep job s g i k =
          if_cases (λ o. is_pending o.kind ≡ false) (nat_eq k job.index) _ (s.outcomes k)
            (λ here.
              elim (Bool-cases (
                is_pending
                  (execute_call h r s.durable job.call (lookup job.call.name available)
                    job.decision).2.kind)) [
                      | inl pends ↦ absurd (
                          clash_not (needs (lookup job.call.name available)) g (
                            execute_call-pending h r s.durable job.call
                              (lookup job.call.name available) job.decision pends))
                      | inr settled ↦ settled
                    ])
            (λ there. i k)

      skip :
          (job : Job) (s : Batched) (e : String)
          → free available job ≡ true
          → IsSettled s
          → IsSettled (put job.index (not_executed job.call e) s)
      skip job s e g i k =
          if_cases (λ o. is_pending o.kind ≡ false) (nat_eq k job.index) (not_executed job.call e)
            (s.outcomes k) (λ here. refl) (λ there. i k)

  -- What is pending is one of the given calls.
  abbrev PendsIn : List Job → Batched → Type 0
  PendsIn given s =
      (k : ℕ) → is_pending (s.outcomes k).kind ≡ true → any (λ j. nat_eq j.index k) given ≡ true

  run_jobs-PendsIn :
      (given : List Job) (s : Batched)
      → PendsIn given s
      → PendsIn given (run_jobs h r p available given s)
  unfolding exec
  run_jobs-PendsIn given s i =
      run_jobs-keeps h r p available (PendsIn given)
        (λ job. any (λ j. nat_eq j.index job.index) given) selects keep skip given s (among given) i
    where
      moved :
          (job : Job) (k : ℕ)
          → any (λ j. nat_eq j.index job.index) given ≡ true
          → nat_eq k job.index ≡ true
          → any (λ j. nat_eq j.index k) given ≡ true
      moved job k g same =
          subst (λ i. any (λ j. nat_eq j.index i) given ≡ true)
            (sym ((nat_eq_iff k job.index).0 same)) g

      keep :
          (job : Job) (s : Batched)
          → any (λ j. nat_eq j.index job.index) given ≡ true
          → PendsIn given s
          → PendsIn given (exec h r p available job s)
      keep job s g i k =
          if_cases (λ o. is_pending o.kind ≡ true → any (λ j. nat_eq j.index k) given ≡ true)
            (nat_eq k job.index) _ (s.outcomes k) (λ here e. moved job k g here) (λ there. i k)

      skip :
          (job : Job) (s : Batched) (e : String)
          → any (λ j. nat_eq j.index job.index) given ≡ true
          → PendsIn given s
          → PendsIn given (put job.index (not_executed job.call e) s)
      skip job s e g i k =
          if_cases (λ o. is_pending o.kind ≡ true → any (λ j. nat_eq j.index k) given ≡ true)
            (nat_eq k job.index) (not_executed job.call e) (s.outcomes k)
            (λ here e. moved job k g here) (λ there. i k)

  defer_jobs-marks :
      (jobs : List Job) (s : Batched) → (defer_jobs h r p available jobs s).marks ≡ s.marks
  defer_jobs-marks [] s = refl
  defer_jobs-marks (job ∷ jobs) s = defer_jobs-marks jobs _

  phase :
      (b : Bool) (stop go_on : Batched)
      → IsQuiet stop
      → (b ≡ false → IsSettled go_on)
      → (k : ℕ) → is_pending ((if b then stop else go_on).outcomes k).kind ≡ true
      → IsQuiet (if b then stop else go_on)
  phase true stop go_on quiet settled k pends = quiet
  phase false stop go_on quiet settled k pends = absurd (clash _ pends (settled refl k))

  preflight-IsQuiet :
      (jobs approvals remaining : List Job) (s : Batched)
      → all (gated available) approvals ≡ true
      → all (free available) remaining ≡ true
      → (approvals ≡ [] → all (free available) jobs ≡ true)
      → IsQuiet s
      → IsSettled s
      → (k : ℕ)
      → is_pending ((preflight h r p available jobs approvals remaining s).outcomes k).kind ≡ true
      → IsQuiet (preflight h r p available jobs approvals remaining s)
  unfolding preflight
  preflight-IsQuiet jobs [] remaining s gate rest none_gated quiet settled k pends =
      absurd (clash _ pends (run_jobs-IsSettled jobs s (none_gated refl) settled k))
  preflight-IsQuiet jobs (job ∷ more) remaining s gate rest none_gated quiet settled k pends =
      let first = run_jobs h r p available (job ∷ more) s in
      let held : ℕ → Bool = λ i. is_pending (first.outcomes i).kind in
      phase (any (λ j. held j.index) (job ∷ more)) (defer_jobs h r p available remaining first)
        (run_jobs h r p available remaining first)
        (ap (any is_entered) (defer_jobs-marks remaining first)
          ∙ run_jobs-IsQuiet (job ∷ more) s gate quiet)
        (λ done. run_jobs-IsSettled remaining first rest (λ i. elim (Bool-cases (held i)) [
          | inl waiting ↦ absurd (
              clash _
                (any-index held (job ∷ more) i waiting (
                  run_jobs-PendsIn (job ∷ more) s (λ l e. absurd (clash _ e (settled l))) i
                    waiting))
                done)
          | inr fine ↦ fine
        ]))
        k pends

  gated_calls-all :
      (i : ℕ) (requests : List (Call × Option Decision))
      → all
          (gated available)
          (filter (λ j. needs_approval available j.call) (jobs_from false i requests))
        ≡ true
  gated_calls-all i [] = refl
  gated_calls-all i ((call, decision) ∷ requests) =
      elim (Bool-cases (needs_approval available call)) [
        | inl gate ↦ rw (gate, gate) (gated_calls-all (suc i) requests)
        | inr open_call ↦ rw open_call (gated_calls-all (suc i) requests)
      ]

  -- In a fresh batch that leaves a call pending for its approval, no handler was entered: neither that of
  -- a call that needs the approval nor that of any other call of the batch.
  pub execute_batch-pending :
      (requests : List (Call × Option Decision)) (d : Durable) (k : ℕ)
      → is_pending ((execute_batch h r p available false requests d).outcomes k).kind ≡ true
      → any is_entered (execute_batch h r p available false requests d).marks ≡ false
  unfolding execute_batch
  execute_batch-pending requests d k pends =
      let jobs = jobs_from false 0 requests in
      preflight-IsQuiet jobs (filter (λ j. needs_approval available j.call) jobs)
        (filter (λ j. not (needs_approval available j.call)) jobs) _ (gated_calls-all 0 requests)
        (filter-all (free available) jobs) (filter-none (λ j. needs_approval available j.call) jobs)
        refl (λ i. refl) k pends
