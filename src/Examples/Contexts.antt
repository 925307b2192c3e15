-- ===== src/Examples/Contexts.antt =====
-- Concrete runs for agent/contextmanager.
use gude_agents.Prelude.{
  filter, ℕ, String, false, List, [], ◌∷◌, Result, ok, err, ◌≡◌, refl, arith, ◌↔◌, ◌⊎◌, All, drop,
  ◌-◌,
}
use gude_agents.Message.{Message, role_user, role_assistant, text, tool_use, tool_result, blocks}
use gude_agents.Conversation.{ConversationSnapshot}
use gude_agents.ContextManager.{
  ContextManagerInput, max_uint64, history_boundary, filter_messages, has_unresolved,
}
use gude_agents.ContextManager.Window.{IsLatest, history_boundary-IsLatest}
use gude_agents.ContextManager.Filter.{IsSpoken, is_text, filter_messages-text}
use gude_agents.ContextManager.Unresolved.{open_calls, has_unresolved-open_calls}
use gude_agents.ContextManager.Rolling.{RollingState, RollingSummary, failed, unsaved, prepare}
use gude_agents.ContextManager.Rolling.Coverage.{Outcome, covered, prepare-Outcome}

abbrev hello : Message
hello = record { role = role_user; content = text (record { text = "hello" }) ∷ [] }

abbrev asks : Message
asks = record {
  role = role_assistant;
  content = tool_use (record { tool_use_id = "c1"; name = "pay"; input = [] }) ∷ [];
}

abbrev answers : Message
answers = record {
  role = role_user;
  content =
      tool_result (record { tool_use_id = "c1"; content = "done"; is_error = false; images = [] })
      ∷ [];
}

abbrev history : List Message
history = hello ∷ asks ∷ answers ∷ []

-- The snapshots of that history.
abbrev snapshot : ℕ → ConversationSnapshot
snapshot n = record { messages = drop n history; revision = 3; last_sequence = 3 }

abbrev read : ℕ → Result String ConversationSnapshot
read n = ok (snapshot n)

history_boundary-IsLatest_example :
    (b : ℕ) × (history_boundary read 1 ≡ ok b)
    × IsLatest read snapshot (λ n. refl) ((snapshot max_uint64).last_sequence - 1) b
history_boundary-IsLatest_example = history_boundary-IsLatest read snapshot (λ n. refl) 1

filter_messages-text_example :
    (blocks (filter_messages history) ≡ filter is_text (blocks history))
    × All IsSpoken (filter_messages history)
filter_messages-text_example = filter_messages-text history

has_unresolved-open_calls_example :
    (has_unresolved history ≡ false) ↔ ((id : String) → open_calls id 0 (blocks history) ≡ 0)
has_unresolved-open_calls_example = has_unresolved-open_calls history

abbrev input : ContextManagerInput
input = record {
  boundary = 0;
  revision = 3;
  last_sequence = 3;
  recent = history;
  current = hello ∷ [];
  transient = [];
}

abbrev manager : RollingSummary
manager = record {
  load = ok (record { version = 1; summary = ""; covered_through = 0; source_revision = 0 }, 0);
  estimate_tokens = λ ms. ok 100;
  summarizer = λ s ms. ok "greeting";
  save = λ s n. ok 1;
  max_input = 10;
  preserve = 1;
}

prepare-Outcome_example :
    ((e : String) × (manager.load ≡ err e) × (prepare manager input ≡ unsaved (err (failed e))))
    ⊎ ((state : RollingState) × (revision : ℕ) × (manager.load ≡ ok (state, revision))
        × Outcome manager input state revision
            (covered manager input state)
            (prepare manager input))
prepare-Outcome_example = prepare-Outcome manager input (omega arith)
