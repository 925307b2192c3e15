-- ===== src/Conversation/Counted.antt =====
-- The sequence numbers of the store in agent/conversation/conversation.go count its messages.
use gude_agents.Prelude.{
  ℕ, ◌%◌, ◌≡◌, ap, sym, ◌∙◌, inl, inr, String, Bool, List, [], ◌∷◌, length, length-append, arith,
  ◌==◌, Bool-cases, ℕ_discrete, nat_eq,
}
use gude_agents.Words.{two64}
use gude_agents.Dict.{lookup, insert}
use gude_agents.Message.{Message, Bytes}
use gude_agents.Conversation.{
  InMemory, Entry, entry_of, extended, append, save_context_state, load_context_state,
}
use gude_agents.Conversation.Log.{IsCounted, entry_of-insert, append-current, append_outcome}
use gude_agents.Conversation.History.{
  Write, appends, saves, write, writes, save_context_state_outcome,
}

-- An entry whose sequence number is the number of its messages.
abbrev pub Counts : Entry → Type 0
Counts e = e.last_sequence ≡ length e.messages % two64

insert-IsCounted :
    (m : InMemory) (id : String) (e : Entry) → IsCounted m → Counts e → IsCounted (insert id e m)
insert-IsCounted m id e c h = record {
  counted = λ j. elim (Bool-cases (id == j)) [
    | inl hit ↦ rw (entry_of-insert m id j e) (rw hit h)
    | inr miss ↦ rw (entry_of-insert m id j e) (rw miss (c.counted j))
  ];
}

extended-Counts : (e : Entry) (msgs : List Message) → Counts e → Counts (extended e msgs)
unfolding extended
extended-Counts e msgs h = omega (arith, h, length-append e.messages msgs)

-- The store of `NewInMemory` counts its messages.
empty-IsCounted : IsCounted []
unfolding entry_of lookup
empty-IsCounted = record { counted = λ id. omega arith }

append-IsCounted :
    (m : InMemory) (id : String) (msgs : List Message) (expected : ℕ)
    → IsCounted m
    → IsCounted (append m id msgs expected).0
append-IsCounted m id [] expected c = elim (Bool-cases (nat_eq (entry_of m id).revision expected)) [
  | inl current ↦ unfold append in rw current c
  | inr stale ↦ unfold append in rw stale c
]
append-IsCounted m id (msg ∷ msgs) expected c =
    elim (ℕ_discrete (entry_of m id).revision expected) [
      | no h ↦ rw ((append_outcome m id (msg ∷ msgs) expected).1 h) c
      | yes e ↦ rw (append-current m id msg msgs expected e) (
          insert-IsCounted m id (extended (entry_of m id) (msg ∷ msgs)) c
            (extended-Counts (entry_of m id) (msg ∷ msgs) (c.counted id)))
    ]

save-IsCounted :
    (valid_json : Bytes → Bool) (m : InMemory) (id key : String) (bytes : Bytes) (expected : ℕ)
    → IsCounted m
    → IsCounted (save_context_state valid_json m id key bytes expected).0
save-IsCounted valid_json m id key bytes expected c =
    let outcome = save_context_state_outcome valid_json m id key bytes expected in
    elim (Bool-cases (valid_json bytes)) [
      | inr bad ↦ rw (outcome.2 bad) c
      | inl good ↦ elim (ℕ_discrete (load_context_state m id key).revision expected) [
        | no h ↦ rw (outcome.1 good h) c
        | yes e ↦ record {
          counted = λ j.
              let same = (outcome.0 good e).2 j in
              same.2 ∙ c.counted j ∙ ap (λ ms. length ms % two64) (sym same.0);
        }
      ]
    ]

-- A store that counts its messages goes on to, whatever is written: every sequence number is the
-- number of messages of its conversation, modulo 2 ^ 64.
pub writes-IsCounted :
    (valid_json : Bytes → Bool) (m : InMemory) (ws : List Write)
    → IsCounted m
    → IsCounted (writes valid_json m ws)
unfolding writes write
writes-IsCounted valid_json m [] c = c
writes-IsCounted valid_json m (appends id msgs expected ∷ ws) c =
    writes-IsCounted valid_json (append m id msgs expected).0 ws
      (append-IsCounted m id msgs expected c)
writes-IsCounted valid_json m (saves id key bytes expected ∷ ws) c =
    writes-IsCounted valid_json (save_context_state valid_json m id key bytes expected).0 ws
      (save-IsCounted valid_json m id key bytes expected c)
