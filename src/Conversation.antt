-- ===== src/Conversation.antt =====
-- The append-only conversation store: the contract of agent/conversation.go and its implementation
-- `InMemory` of agent/conversation/conversation.go. The lock makes each method one step. Values of
-- the model have no aliases, so `deepCopyMessages` and the copies of context data are identities.
-- The nil map of context states is the empty one.
pub mod Log
pub mod History
pub mod Counted
pub mod Envelope
use gude_agents.Prelude.{
  ℕ, ◌+◌, ◌%◌, String, Bool, true, false, not, List, [], ◌∷◌, ◌++◌, Option, none, some, Result, ok,
  err, length, drop, ltb, nat_eq, if◌then◌else◌,
}
use gude_agents.Words.{two64}
use gude_agents.Dict.{Dict, lookup, insert, erase}
use gude_agents.Message.{Bytes, Message}

pub record ConversationCursor : Type 0 where
  pub revision : ℕ
  pub last_sequence : ℕ

pub record ConversationSnapshot : Type 0 where
  pub messages : List Message
  pub revision : ℕ
  pub last_sequence : ℕ

pub record ContextStateSnapshot : Type 0 where
  pub bytes : Bytes
  pub revision : ℕ

pub data ConversationError : Type 0 where
  conversation_conflict context_state_conflict invalid_json : ConversationError

-- `memoryContextState` has the fields of a snapshot.
pub record Entry : Type 0 where
  pub messages : List Message
  pub revision : ℕ
  pub last_sequence : ℕ
  pub context_state : Dict ContextStateSnapshot

abbrev pub InMemory : Type 0
InMemory = Dict Entry

abbrev pub empty_entry : Entry
empty_entry = record { messages = []; revision = 0; last_sequence = 0; context_state = [] }

abbrev pub empty_snapshot : ConversationSnapshot
empty_snapshot = record { messages = []; revision = 0; last_sequence = 0 }

-- `m.data[id]`, which is the zero entry where the key is missing.
unfoldable pub entry_of : InMemory → String → Entry
entry_of m id = elim (lookup id m) [ none ↦ empty_entry | some e ↦ e ]

unfoldable pub snapshot_after : ℕ → Entry → ConversationSnapshot
snapshot_after after_sequence entry =
    let start =
      if ltb entry.last_sequence after_sequence then entry.last_sequence else after_sequence in
    record {
      messages = drop start entry.messages;
      revision = entry.revision;
      last_sequence = entry.last_sequence;
    }

unfoldable pub load_after : InMemory → String → ℕ → ConversationSnapshot
unfolding snapshot_after
load_after m id after_sequence = elim (lookup id m) [
  | none ↦ empty_snapshot
  | some e ↦ snapshot_after after_sequence e
]

unfoldable pub load : InMemory → String → ConversationSnapshot
unfolding load_after
load m id = load_after m id 0

abbrev pub cursor_of : Entry → ConversationCursor
cursor_of e = record { revision = e.revision; last_sequence = e.last_sequence }

-- The entry with one more batch; the counters are unsigned 64-bit integers.
unfoldable pub extended : Entry → List Message → Entry
extended e msgs = record e {
  messages = e.messages ++ msgs;
  last_sequence = (e.last_sequence + length msgs) % two64;
  revision = (e.revision + 1) % two64;
}

unfoldable pub append :
    InMemory → String → List Message → ℕ → InMemory × Result ConversationError ConversationCursor
append m id [] expected_revision =
    let entry = entry_of m id in
    if not (nat_eq entry.revision expected_revision)
    then (m, err conversation_conflict)
    else (m, ok (cursor_of entry))
append m id (msg ∷ msgs) expected_revision =
    let entry = entry_of m id in
    let entry' = extended entry (msg ∷ msgs) in
    if not (nat_eq entry.revision expected_revision)
    then (m, err conversation_conflict)
    else (insert id entry' m, ok (cursor_of entry'))

abbrev pub no_context_state : ContextStateSnapshot
no_context_state = record { bytes = []; revision = 0 }

unfoldable pub context_of : Entry → String → ContextStateSnapshot
context_of e key = elim (lookup key e.context_state) [ none ↦ no_context_state | some s ↦ s ]

unfoldable pub load_context_state : InMemory → String → String → ContextStateSnapshot
load_context_state m id key = context_of (entry_of m id) key

-- `json.Valid` is a parameter. Both branches at the end of the method store the entry.
unfoldable pub save_context_state :
    (Bytes → Bool) → InMemory → String → String → Bytes → ℕ → InMemory × Result ConversationError ℕ
save_context_state valid_json m id key bytes expected_revision =
    let entry = entry_of m id in
    let current = context_of entry key in
    let next : ContextStateSnapshot = record {
      bytes = bytes;
      revision = (current.revision + 1) % two64;
    } in
    if not (valid_json bytes)
    then (m, err invalid_json)
    else if not (nat_eq current.revision expected_revision)
    then (m, err context_state_conflict)
    else (
      insert id (record entry { context_state = insert key next entry.context_state }) m,
      ok next.revision,
    )

unfoldable pub list_ids : InMemory → List String
list_ids [] = []
list_ids ((id, e) ∷ m) = let rest = list_ids m in if ltb 0 e.revision then id ∷ rest else rest

unfoldable pub delete : InMemory → String → InMemory
delete m id = erase id m

-- `ForkConversation` of agent/conversation.go, on this store; a failed append is passed on.
unfoldable pub fork_conversation :
    InMemory → String → String → InMemory × Result ConversationError ConversationCursor
fork_conversation m source_id new_id = append m new_id (load m source_id).messages 0
