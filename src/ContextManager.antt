-- ===== src/ContextManager.antt =====
-- agent/contextmanager/contextmanager.go: projections of a conversation for the model. Here stand
-- `Passthrough`, `Window` and `Filter`, with the tests for split tool work; a store or an inner
-- manager is an argument, which answers alike during one call.
pub mod Window
pub mod Filter
pub mod Unresolved
pub mod Rolling
use gude_agents.Prelude.{
  ℕ, zero, suc, ◌+◌, ◌-◌, String, Bool, true, false, not, ◌||◌, List, [], ◌∷◌, ◌++◌, Option, none,
  some, Result, ok, err, ◌>>=◌, any, ltb, leb, nat_eq, ◌==◌, if◌then◌else◌,
}
use gude_agents.Words.{Int64, slt}
use gude_agents.Dict.{Dict, lookup, insert, erase}
use gude_agents.Message.{
  Message, ContentBlock, text, tool_use, tool_result, image, document, widget,
}
use gude_agents.Conversation.{ConversationSnapshot}

-- `System` and `Tools` only reach the token estimator, and stay with it.
pub record ContextManagerInput : Type 0 where
  pub boundary : ℕ
  pub revision : ℕ
  pub last_sequence : ℕ
  pub recent : List Message
  pub current : List Message
  pub transient : List Message

-- `Prepare` of `Passthrough` and of `Window`.
unfoldable pub pass_through : ContextManagerInput → List Message
pass_through input = (input.recent ++ input.transient) ++ input.current

-- `math.MaxUint64`
abbrev pub max_uint64 : ℕ
max_uint64 = 18446744073709551615

-- The blocks in order, with the identifiers of the tool uses seen so far.
unfoldable pub orphaned_blocks : List String → List ContentBlock → List String × Bool
orphaned_blocks uses [] = (uses, false)
orphaned_blocks uses (tool_use x ∷ bs) = orphaned_blocks (x.tool_use_id ∷ uses) bs
orphaned_blocks uses (tool_result x ∷ bs) =
    let rest = orphaned_blocks uses bs in
    if not (any (λ id. id == x.tool_use_id) uses) then (uses, true) else rest
orphaned_blocks uses (text _ ∷ bs) = orphaned_blocks uses bs
orphaned_blocks uses (image _ ∷ bs) = orphaned_blocks uses bs
orphaned_blocks uses (document _ ∷ bs) = orphaned_blocks uses bs
orphaned_blocks uses (widget _ ∷ bs) = orphaned_blocks uses bs

unfoldable pub orphaned_from : List String → List Message → Bool
unfolding orphaned_blocks
orphaned_from uses [] = false
orphaned_from uses (m ∷ ms) =
    let (seen, found) = orphaned_blocks uses m.content in
    let rest = orphaned_from seen ms in if found then true else rest

unfoldable pub has_orphaned_tool_result : List Message → Bool
has_orphaned_tool_result ms = orphaned_from [] ms

-- `NewWindow`: at least one message.
unfoldable pub new_window : Int64 → Option ℕ
new_window messages = if slt messages 1 then none else some messages

module _ {E : Type 0} (load_after : ℕ → Result E ConversationSnapshot) where
  -- The loop of `HistoryBoundary`, from `start` down.
  unfoldable pub boundary_from : ℕ → Result E ℕ
  boundary_from zero = load_after zero >>= λ tail. ok zero
  boundary_from (suc n) =
      let earlier = boundary_from n in
      load_after (suc n) >>= λ tail.
      if not (has_orphaned_tool_result tail.messages) then ok (suc n) else earlier

  unfoldable pub history_boundary : ℕ → Result E ℕ
  unfolding boundary_from
  history_boundary count = load_after max_uint64 >>= λ meta.
      if leb meta.last_sequence count then ok 0 else boundary_from (meta.last_sequence - count)

-- The text blocks of a message.
unfoldable pub text_blocks : List ContentBlock → List ContentBlock
text_blocks [] = []
text_blocks (text b ∷ bs) = text b ∷ text_blocks bs
text_blocks (tool_use _ ∷ bs) = text_blocks bs
text_blocks (tool_result _ ∷ bs) = text_blocks bs
text_blocks (image _ ∷ bs) = text_blocks bs
text_blocks (document _ ∷ bs) = text_blocks bs
text_blocks (widget _ ∷ bs) = text_blocks bs

abbrev pub with_blocks : Message → List ContentBlock → List Message → List Message
with_blocks m [] rest = rest
with_blocks m (b ∷ bs) rest = record { role = m.role; content = b ∷ bs } ∷ rest

unfoldable pub filter_messages : List Message → List Message
filter_messages [] = []
filter_messages (m ∷ ms) = with_blocks m (text_blocks m.content) (filter_messages ms)

-- `Filter.Prepare` behind its inner manager.
unfoldable pub filter_prepare :
    {E : Type 0}
    → (ContextManagerInput → Result E (List Message))
    → ContextManagerInput
    → Result E (List Message)
filter_prepare inner input = inner input >>= λ out. ok (filter_messages out)

-- The number of open calls of each identifier; a map has no entry for 0.
abbrev pub open_count : Dict ℕ → String → ℕ
open_count pending id = elim (lookup id pending) [ none ↦ 0 | some n ↦ n ]

unfoldable pub opened_call : String → Dict ℕ → Dict ℕ
opened_call id pending = insert id (open_count pending id + 1) pending

-- A result closes one call, and the entry goes with the last.
unfoldable pub closed_call : String → Dict ℕ → Dict ℕ
closed_call id pending =
    if ltb 0 (open_count pending id)
    then (if nat_eq (open_count pending id - 1) 0
        then erase id pending
        else insert id (open_count pending id - 1) pending)
    else pending

unfoldable pub pending_block : Dict ℕ → ContentBlock → Dict ℕ
unfolding opened_call closed_call
pending_block pending (tool_use x) = opened_call x.tool_use_id pending
pending_block pending (tool_result x) = closed_call x.tool_use_id pending
pending_block pending (text _) = pending
pending_block pending (image _) = pending
pending_block pending (document _) = pending
pending_block pending (widget _) = pending

unfoldable pub pending_blocks : Dict ℕ → List ContentBlock → Dict ℕ
pending_blocks pending [] = pending
pending_blocks pending (b ∷ bs) = pending_blocks (pending_block pending b) bs

unfoldable pub pending_messages : Dict ℕ → List Message → Dict ℕ
pending_messages pending [] = pending
pending_messages pending (m ∷ ms) = pending_messages (pending_blocks pending m.content) ms

abbrev pub is_empty {ℓ} : {A : Type ℓ} → List A → Bool
is_empty [] = true
is_empty (_ ∷ _) = false

unfoldable pub has_unresolved : List Message → Bool
unfolding pending_messages
has_unresolved ms = not (is_empty (pending_messages [] ms))
