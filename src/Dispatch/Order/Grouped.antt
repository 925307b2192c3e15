-- ===== src/Dispatch/Order/Grouped.antt =====
-- How agent/turn_messages.go groups tool results for the provider.
use gude_agents.Prelude.{
  String, Bool, true, false, ◌&&◌, List, [], ◌∷◌, Option, none, some, any, all, ◌==◌, if◌then◌else◌,
  ◌≡◌,
}
use gude_agents.Message.{
  Message, ContentBlock, text, tool_use, tool_result, image, document, widget, role_user,
  role_assistant,
}
use gude_agents.Execution.Batch.Recovery.{only_tool_results}
use gude_agents.Dispatch.Order.{use_order, result_id, is_unknown, Gathering}

-- Blocks in the order of the identifiers `ids`, the last ones of `order`, and behind them those of no
-- identifier in `order`.
pub data InOrder (order : List String) : List String → List ContentBlock → Type 0 where
  others :
      {ids : List String} {bs : List ContentBlock}
      → all (is_unknown order) bs ≡ true
      → InOrder order ids bs
  next_id :
      {id : String} {ids : List String} {bs : List ContentBlock}
      → InOrder order ids bs
      → InOrder order (id ∷ ids) bs
  this_id :
      {id : String} {ids : List String} {b : ContentBlock} {bs : List ContentBlock}
      → (id == result_id b) ≡ true
      → InOrder order (id ∷ ids) bs
      → InOrder order (id ∷ ids) (b ∷ bs)

-- Where a transcript stands: behind tool calls, behind their results, or elsewhere.
pub data Place : Type 0 where
  elsewhere answered : Place
  called : List String → Place

abbrev pub is_tool_use : ContentBlock → Bool
is_tool_use (tool_use b) = true
is_tool_use (text b) = false
is_tool_use (tool_result b) = false
is_tool_use (image b) = false
is_tool_use (document b) = false
is_tool_use (widget b) = false

abbrev pub is_results : Message → Bool
is_results m = (m.role == role_user) && only_tool_results m.content

abbrev pub place_of : Message → Place
place_of m =
    if (m.role == role_assistant) && any is_tool_use m.content
    then called (use_order [] m.content)
    else elsewhere

-- Behind tool calls there is at most one message of results, and it has them in the order of the calls.
abbrev pub IsGrouped : Place → List Message → Type 0
IsGrouped elsewhere [] = Unit
IsGrouped answered [] = Unit
IsGrouped (called order) [] = Unit
IsGrouped elsewhere (m ∷ ms) = IsGrouped (place_of m) ms
IsGrouped answered (m ∷ ms) = (is_results m ≡ false) × IsGrouped (place_of m) ms
IsGrouped (called order) (m ∷ ms) =
    if is_results m
    then InOrder order order m.content × IsGrouped answered ms
    else IsGrouped (place_of m) ms

abbrev place_in : Option Gathering → Place
place_in none = elsewhere
place_in (some g) = called g.order
