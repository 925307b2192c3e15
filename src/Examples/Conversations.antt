-- ===== src/Examples/Conversations.antt =====
-- Concrete runs for agent/conversation.
use gude_agents.Prelude.{
  String, Bool, true, List, [], ◌∷◌, ◌++◌, ◌≡◌, ◌≢◌, refl, arith, length, drop, ◌+◌, ◌%◌,
  Bool-cases, inl, inr, ◌==◌,
}
use gude_agents.Words.{two64}
use gude_agents.Dict.{lookup}
use gude_agents.Message.{Message, role_user, text, Bytes}
use gude_agents.Conversation.{
  InMemory, Entry, entry_of, append, load_after, fork_conversation, save_context_state,
  load_context_state, context_of,
}
use gude_agents.Conversation.Log.{
  IsCounted, transcript, Appended, append_outcome, load_after-transcript,
  fork_conversation-transcript,
}
use gude_agents.Conversation.Counted.{writes-IsCounted}
use gude_agents.Conversation.History.{
  appends, saves, writes, save_context_state_outcome, writes-transcript,
}

abbrev hello : Message
hello = record { role = role_user; content = text (record { text = "hello" }) ∷ [] }

abbrev entry : Entry
entry = record { messages = hello ∷ []; revision = 1; last_sequence = 1; context_state = [] }

abbrev store : InMemory
store = ("a", entry) ∷ []

append_outcome_example : Appended store "a" (hello ∷ []) (append store "a" (hello ∷ []) 1)
unfolding entry_of lookup
append_outcome_example = (append_outcome store "a" (hello ∷ []) 1).0 refl

-- The store counts its messages.
store-IsCounted : IsCounted store
unfolding entry_of lookup
store-IsCounted = record {
  counted = λ id. elim (Bool-cases ("a" == id)) [
    | inl same ↦ rw (same, entry_of, lookup) refl
    | inr other ↦ rw (other, entry_of, lookup) refl
  ];
}

load_after-transcript_example :
    ((load_after store "a" 1).messages ≡ drop 1 (transcript store "a"))
    × ((load_after store "a" 1).revision ≡ (entry_of store "a").revision)
    × ((load_after store "a" 1).last_sequence ≡ length (transcript store "a"))
unfolding entry_of lookup
load_after-transcript_example = load_after-transcript store "a" 1 store-IsCounted (omega arith)

fork_conversation-transcript_example :
    let m' = (fork_conversation store "a" "b").0 in
    (transcript m' "b" ≡ transcript store "a")
    × ((j : String) → "b" ≢ j → entry_of m' j ≡ entry_of store j)
unfolding entry_of lookup
fork_conversation-transcript_example =
    fork_conversation-transcript store "a" "b" store-IsCounted (omega arith) refl

abbrev any_json : Bytes → Bool
any_json b = true

save_context_state_outcome_example :
    let m' = (save_context_state any_json store "a" "k" (1 ∷ []) 0).0 in
    load_context_state m' "a" "k" ≡ record {
      bytes = 1 ∷ [];
      revision = ((load_context_state store "a" "k").revision + 1) % two64;
    }
unfolding load_context_state context_of entry_of lookup
save_context_state_outcome_example =
    ((save_context_state_outcome any_json store "a" "k" (1 ∷ []) 0).0 refl refl).0

writes-transcript_example :
    (tail : List Message) × (transcript
        (writes any_json store (appends "a" (hello ∷ []) 1 ∷ saves "a" "k" [] 0 ∷ []))
        "a"
      ≡ transcript store "a" ++ tail)
writes-transcript_example =
    writes-transcript any_json store (appends "a" (hello ∷ []) 1 ∷ saves "a" "k" [] 0 ∷ []) "a"

writes-IsCounted_example :
    IsCounted (writes any_json store (appends "a" (hello ∷ []) 1 ∷ saves "a" "k" [] 0 ∷ []))
writes-IsCounted_example =
    writes-IsCounted any_json store (appends "a" (hello ∷ []) 1 ∷ saves "a" "k" [] 0 ∷ [])
      store-IsCounted
