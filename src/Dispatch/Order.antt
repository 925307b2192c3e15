-- ===== src/Dispatch/Order.antt =====
-- The messages of a turn as the provider sees them: agent/turn_messages.go. In
-- `projectToolResultOrder` the inner loop over the results behind an assistant's message is the state
-- of the outer one: the identifiers of its tool calls and the results gathered so far.
pub mod Permuted
pub mod Grouped
use gude_agents.Prelude.{
  ℕ, suc, String, Bool, true, false, not, ◌&&◌, ◌||◌, List, [], ◌∷◌, ◌++◌, Option, none, some, any,
  filter, length, take, drop, ◌==◌, if◌then◌else◌,
}
use gude_agents.Words.{Int64, is_neg, slt}
use gude_agents.Message.{
  Message, ContentBlock, text, tool_use, tool_result, image, document, widget, role_user,
  role_assistant,
}
use gude_agents.Execution.Batch.Recovery.{only_tool_results}

pub record TurnMessages : Type 0 where
  pub canonical : List Message
  pub transient : List Message

pub append_canonical : List Message → TurnMessages → TurnMessages
append_canonical messages m = record m { canonical = m.canonical ++ messages }

-- The identifiers of the tool calls, each one once, in order, behind those that are known.
unfoldable pub use_order : List String → List ContentBlock → List String
use_order known [] = []
use_order known (tool_use u ∷ bs) =
    let rest = use_order (u.tool_use_id ∷ known) bs in
    let same = use_order known bs in
    if any (λ id. id == u.tool_use_id) known then same else u.tool_use_id ∷ rest
use_order known (text t ∷ bs) = use_order known bs
use_order known (tool_result r ∷ bs) = use_order known bs
use_order known (image i ∷ bs) = use_order known bs
use_order known (document d ∷ bs) = use_order known bs
use_order known (widget w ∷ bs) = use_order known bs

-- The identifier of a result; in a run of results there is no other block.
abbrev pub result_id : ContentBlock → String
result_id (tool_result r) = r.tool_use_id
result_id (text t) = ""
result_id (tool_use u) = ""
result_id (image i) = ""
result_id (document d) = ""
result_id (widget w) = ""

-- The results of each call, in the order of the calls.
unfoldable pub by_order : List String → List ContentBlock → List ContentBlock
by_order [] results = []
by_order (id ∷ ids) results = filter (λ b. id == result_id b) results ++ by_order ids results

abbrev pub is_unknown : List String → ContentBlock → Bool
is_unknown order b = not (any (λ id. id == result_id b) order)

unfoldable pub grouped : List String → List ContentBlock → List ContentBlock
grouped order results = by_order order results ++ filter (is_unknown order) results

-- The calls whose results are gathered, and the results so far.
pub record Gathering : Type 0 where
  pub order : List String
  pub results : List ContentBlock

abbrev pub flushed : Gathering → List ContentBlock → List Message
flushed g [] = []
flushed g (b ∷ bs) = record { role = role_user; content = grouped g.order (b ∷ bs) } ∷ []

abbrev pub started : Message → List String → Option Gathering
started m [] = none
started m (id ∷ ids) =
    if m.role == role_assistant then some (record { order = id ∷ ids; results = [] }) else none

unfoldable pub project_from : Option Gathering → List Message → List Message
project_from none [] = []
project_from (some g) [] = flushed g g.results
project_from none (m ∷ ms) = m ∷ project_from (started m (use_order [] m.content)) ms
project_from (some g) (m ∷ ms) =
    let gathered = project_from (some (record g { results = g.results ++ m.content })) ms in
    let afresh = project_from (started m (use_order [] m.content)) ms in
    if (m.role == role_user) && only_tool_results m.content
    then gathered
    else flushed g g.results ++ m ∷ afresh

-- `projectToolResultOrder`
abbrev pub project_tool_result_order : List Message → List Message
project_tool_result_order ms = project_from none ms

abbrev pub cut_at : TurnMessages → Int64 → ℕ
cut_at m persisted_count =
    if is_neg persisted_count || slt (length m.canonical) persisted_count
    then length m.canonical
    else persisted_count

-- `projectedCanonical`
unfoldable pub projected_canonical : TurnMessages → Int64 → List Message × List Message
projected_canonical m persisted_count =
    let n = cut_at m persisted_count in
    (project_tool_result_order (take n m.canonical), project_tool_result_order (drop n m.canonical))

unfoldable pub provider_messages : TurnMessages → Int64 → List Message
provider_messages m persisted_count =
    let projected = projected_canonical m persisted_count in
    projected.0 ++ m.transient ++ projected.1
