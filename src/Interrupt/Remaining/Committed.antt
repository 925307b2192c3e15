-- ===== src/Interrupt/Remaining/Committed.antt =====
-- The batch after its definitive results were appended: `resultBlocks`, `appendCanonical` and
-- `filterCompletedToolCalls` of agent/engine.go, as agent/tool_batch.go composes them.
use gude_agents.Prelude.{
  String, Bool, true, not, ◌||◌, ◌&&◌, List, [], ◌∷◌, ◌++◌, Option, none, some, ok, map, filter,
  any, ◌==◌, ◌≡◌, refl, ap, ◌∙◌, Bool-cases, inl, inr, all,
}
use gude_agents.Message.{Message, ContentBlock, role_user, role_assistant}
use gude_agents.Execution.Batch.{Call, Toolbox}
use gude_agents.Execution.Batch.Recovery.{contains, is_tool_result}
use gude_agents.Dispatch.{Decision, ToolOutcome}
use gude_agents.Interrupt.Resume.{is_definitive, result_blocks}
use gude_agents.Interrupt.Remaining.{
  tool_uses, are_requests, result_ids, completed_ids, pending_requests, completed_after, Requests,
  remaining_requests, or_unsupported, filter_completed_tool_calls,
}

-- `appendDefinitive`: no message where there is no result.
unfoldable pub append_definitive : List ContentBlock → List Message
append_definitive [] = []
append_definitive (b ∷ bs) = record { role = role_user; content = b ∷ bs } ∷ []

-- The outcome is a definitive result, under the call's identifier.
abbrev pub is_result_of : Call → Call × ToolOutcome → Bool
is_result_of call (c, o) =
    is_definitive o.kind
    && not (o.result.tool_use_id == "")
    && (o.result.tool_use_id == call.tool_use_id)

abbrev pub has_result : List (Call × ToolOutcome) → Call → Bool
has_result entries call = any (is_result_of call) entries

result_blocks-results :
    (entries : List (Call × ToolOutcome)) → all is_tool_result (result_blocks entries) ≡ true
unfolding result_blocks
result_blocks-results [] = refl
result_blocks-results ((call, o) ∷ rest) = elim (Bool-cases (is_definitive o.kind)) [
  | inr e ↦ rw e (result_blocks-results rest)
  | inl e ↦ elim (Bool-cases (o.result.tool_use_id == "")) [
    | inl empty ↦ rw e (rw empty (result_blocks-results rest))
    | inr full ↦ rw e (rw full (result_blocks-results rest))
  ]
]

contains-result_blocks :
    (entries : List (Call × ToolOutcome)) (call : Call)
    → contains (result_ids (result_blocks entries)) call.tool_use_id ≡ has_result entries call
unfolding result_blocks result_ids
contains-result_blocks [] call = refl
contains-result_blocks ((c, o) ∷ rest) call = elim (Bool-cases (is_definitive o.kind)) [
  | inr e ↦ rw e (contains-result_blocks rest call)
  | inl e ↦ elim (Bool-cases (o.result.tool_use_id == "")) [
    | inl empty ↦ rw e (rw empty (contains-result_blocks rest call))
    | inr full ↦ rw e (
        rw full (
          ap (λ b. (o.result.tool_use_id == call.tool_use_id) || b)
            (contains-result_blocks rest call)))
  ]
]

append_nil : (ids : List String) → ids ++ [] ≡ ids
append_nil [] = refl
append_nil (id ∷ ids) = ap (λ rest. id ∷ rest) (append_nil ids)

completed_ids-append_definitive :
    (bs : List ContentBlock)
    → all is_tool_result bs ≡ true
    → completed_ids (append_definitive bs) ≡ result_ids bs
unfolding completed_ids append_definitive result_ids
completed_ids-append_definitive [] results = refl
completed_ids-append_definitive (b ∷ bs) results = rw results (append_nil _)

module _ (box : Toolbox) (requested : List Call) where
  -- The message has the requested calls, and no later message has them.
  completed_after-append :
      (ms : List Message) (m : Message) (later : List Message)
      → m.role ≡ role_assistant
      → are_requests box (tool_uses m.content) requested ≡ true
      → completed_after box requested later ≡ none
      → completed_after box requested (ms ++ m ∷ later) ≡ some (completed_ids later)
  unfolding completed_after
  completed_after-append [] m later assistant matches last =
      rw last (rw assistant (rw matches refl))
  completed_after-append (m' ∷ ms) m later assistant matches last =
      rw (completed_after-append ms m later assistant matches last) refl

  completed_after-append_definitive :
      (bs : List ContentBlock) → completed_after box requested (append_definitive bs) ≡ none
  unfolding completed_after append_definitive
  completed_after-append_definitive [] = refl
  completed_after-append_definitive (b ∷ bs) = refl

-- The requests of a batch: each call with the decision at its index, or none.
unfoldable pub decided : List Call → List (Option Decision) → List (Call × Option Decision)
decided [] decisions = []
decided (call ∷ calls) [] = (call, none) ∷ decided calls []
decided (call ∷ calls) (d ∷ decisions) = (call, d) ∷ decided calls decisions

abbrev pub given : Option (List (Option Decision)) → List (Option Decision)
given none = []
given (some decisions) = decisions

abbrev pub requests_of : List (Call × Option Decision) → Option (List (Option Decision)) → Requests
requests_of requests none = (map (λ r. r.0) requests, none)
requests_of requests (some decisions) = (map (λ r. r.0) requests, some (map (λ r. r.1) requests))

module _ (completed : List String) (left : Call → Bool)
    (h : (call : Call) → contains completed call.tool_use_id ≡ left call) where
  abbrev open_request : Call × Option Decision → Bool
  open_request r = not (left r.0)

  pending_requests-decided :
      (calls : List Call) (decisions : List (Option Decision))
      → pending_requests completed calls decisions ≡ filter open_request (decided calls decisions)
  unfolding pending_requests decided
  pending_requests-decided [] decisions = refl
  pending_requests-decided (call ∷ calls) [] = elim (Bool-cases (left call)) [
    | inl e ↦ rw (h call) (rw e (pending_requests-decided calls []))
    | inr e ↦ rw (h call) (rw e (ap (λ rs. (call, none) ∷ rs) (pending_requests-decided calls [])))
  ]
  pending_requests-decided (call ∷ calls) (d ∷ decisions) = elim (Bool-cases (left call)) [
    | inl e ↦ rw (h call) (rw e (pending_requests-decided calls decisions))
    | inr e ↦
        rw (h call) (rw e (ap (λ rs. (call, d) ∷ rs) (pending_requests-decided calls decisions)))
  ]

  remaining_requests-decided :
      (calls : List Call) (decisions : Option (List (Option Decision)))
      → remaining_requests completed calls decisions
        ≡ requests_of (filter open_request (decided calls (given decisions))) decisions
  remaining_requests-decided calls none =
      ap (λ rs. requests_of rs none) (pending_requests-decided calls [])
  remaining_requests-decided calls (some decisions) =
      ap (λ rs. requests_of rs (some decisions)) (pending_requests-decided calls decisions)

-- Once the definitive results of a batch are appended behind the message of its calls, the batch that
-- is left has exactly the calls without a definitive result, each one with the decision at its index;
-- decisions that were nil stay nil. The messages before are arbitrary.
pub filter_completed_tool_calls-result_blocks :
    (box : Toolbox) (before : List Message) (m : Message) (call : Call) (calls : List Call)
    (decisions : Option (List (Option Decision))) (entries : List (Call × ToolOutcome))
    → m.role ≡ role_assistant
    → are_requests box (tool_uses m.content) (call ∷ calls) ≡ true
    → filter_completed_tool_calls box
        (before ++ m ∷ append_definitive (result_blocks entries))
        (call ∷ calls)
        decisions
      ≡ ok (
          requests_of
            (filter (λ r. not (has_result entries r.0)) (decided (call ∷ calls) (given decisions)))
            decisions)
unfolding filter_completed_tool_calls
filter_completed_tool_calls-result_blocks box before m call calls decisions entries assistant
      matches =
    let blocks = result_blocks entries in
    ap (or_unsupported (call ∷ calls) decisions) (
      completed_after-append box (call ∷ calls) before m (append_definitive blocks) assistant
        matches (completed_after-append_definitive box (call ∷ calls) blocks)
      ∙ ap some (completed_ids-append_definitive blocks (result_blocks-results entries)))
    ∙ ap ok (
        remaining_requests-decided (result_ids blocks) (has_result entries)
          (contains-result_blocks entries) (call ∷ calls) decisions)
