-- ===== src/Interrupt/Remaining.antt =====
-- The calls of a batch that are still to be executed, as a run without durable executions reads them
-- off the messages: `filterCompletedToolCalls` of agent/engine.go. A decision stands at the index of
-- its call; decisions that are nil in the source are `none`. The backward loop over the messages asks
-- the later messages first.
pub mod Committed
use gude_agents.Prelude.{
  String, Bool, true, false, not, ◌||◌, ◌&&◌, List, [], ◌∷◌, Option, none, some, Result, ok, err,
  map, ◌++◌, ◌==◌, if◌then◌else◌,
}
use gude_agents.Message.{
  Message, ContentBlock, text, tool_use, tool_result, image, document, widget, role_user,
  role_assistant, ToolUseBlock,
}
use gude_agents.Execution.Batch.{Call, RunError, recovery_unsupported, Toolbox}
use gude_agents.Execution.Batch.Recovery.{contains, only_tool_results}
use gude_agents.Dispatch.{Decision}

-- The tool calls of a message.
unfoldable pub tool_uses : List ContentBlock → List ToolUseBlock
tool_uses [] = []
tool_uses (tool_use u ∷ bs) = u ∷ tool_uses bs
tool_uses (text t ∷ bs) = tool_uses bs
tool_uses (tool_result r ∷ bs) = tool_uses bs
tool_uses (image i ∷ bs) = tool_uses bs
tool_uses (document d ∷ bs) = tool_uses bs
tool_uses (widget w ∷ bs) = tool_uses bs

-- Both inputs have a hash, and it is the same.
abbrev pub hashes_agree : Option String → Option String → Bool
hashes_agree none requested = false
hashes_agree (some hash) none = false
hashes_agree (some hash) (some requested) = hash == requested

abbrev pub is_request : Toolbox → ToolUseBlock → Call → Bool
is_request box u call =
    (u.tool_use_id == call.tool_use_id)
    && (u.name == call.name)
    && hashes_agree (box.input_hash u.input) (box.input_hash call.input)

-- As many tool calls as were requested, each one the request at its index.
unfoldable pub are_requests : Toolbox → List ToolUseBlock → List Call → Bool
are_requests box [] [] = true
are_requests box [] (call ∷ calls) = false
are_requests box (u ∷ us) [] = false
are_requests box (u ∷ us) (call ∷ calls) = is_request box u call && are_requests box us calls

-- The identifiers of the results of a message; under the guard of the loop there is no other block.
unfoldable pub result_ids : List ContentBlock → List String
result_ids [] = []
result_ids (tool_result r ∷ bs) = r.tool_use_id ∷ result_ids bs
result_ids (text t ∷ bs) = result_ids bs
result_ids (tool_use u ∷ bs) = result_ids bs
result_ids (image i ∷ bs) = result_ids bs
result_ids (document d ∷ bs) = result_ids bs
result_ids (widget w ∷ bs) = result_ids bs

-- The results up to the next message of the assistant.
unfoldable pub completed_ids : List Message → List String
completed_ids [] = []
completed_ids (m ∷ ms) =
    let later = completed_ids ms in
    let here = result_ids m.content in
    if m.role == role_assistant
    then []
    else if not (m.role == role_user) || not (only_tool_results m.content)
    then later
    else here ++ later

-- The calls without a result, each one with its decision.
unfoldable pub pending_requests :
    List String → List Call → List (Option Decision) → List (Call × Option Decision)
pending_requests completed [] decisions = []
pending_requests completed (call ∷ calls) [] =
    let rest = pending_requests completed calls [] in
    if contains completed call.tool_use_id then rest else (call, none) ∷ rest
pending_requests completed (call ∷ calls) (d ∷ decisions) =
    let rest = pending_requests completed calls decisions in
    if contains completed call.tool_use_id then rest else (call, d) ∷ rest

-- The identifiers of the results behind the last message of the requested calls.
unfoldable pub completed_after : Toolbox → List Call → List Message → Option (List String)
completed_after box requested [] = none
completed_after box requested (m ∷ ms) = elim (completed_after box requested ms) [
  | some completed ↦ some completed
  | none ↦
      if (m.role == role_assistant) && are_requests box (tool_uses m.content) requested
      then some (completed_ids ms)
      else none
]

abbrev pub Requests : Type 0
Requests = List Call × Option (List (Option Decision))

abbrev pub remaining_requests : List String → List Call → Option (List (Option Decision)) → Requests
remaining_requests completed requested none =
    (map (λ r. r.0) (pending_requests completed requested []), none)
remaining_requests completed requested (some decisions) =
    let rest = pending_requests completed requested decisions in
    (map (λ r. r.0) rest, some (map (λ r. r.1) rest))

abbrev pub or_unsupported :
    List Call → Option (List (Option Decision)) → Option (List String) → Result RunError Requests
or_unsupported requested decisions none = err recovery_unsupported
or_unsupported requested decisions (some completed) =
    ok (remaining_requests completed requested decisions)

-- `filterCompletedToolCalls`
unfoldable pub filter_completed_tool_calls :
    Toolbox → List Message → List Call → Option (List (Option Decision)) → Result RunError Requests
filter_completed_tool_calls box ms [] decisions = ok ([], decisions)
filter_completed_tool_calls box ms (call ∷ calls) decisions =
    or_unsupported (call ∷ calls) decisions (completed_after box (call ∷ calls) ms)
