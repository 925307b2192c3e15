-- ===== src/Conversation/History.antt =====
-- Context state beside the history, and histories of writes.
use mathlib.Core.List.{append_assoc, append-nil}
use gude_agents.Prelude.{
  ℕ, ◌+◌, ◌%◌, ◌≡◌, refl, sym, ap, ◌∙◌, ◌≢◌, inl, inr, String, Bool, true, false, List, [], ◌∷◌,
  ◌++◌, ok, err, ℕ_discrete, subst, nat_eq-true, nat_eq-false, arith, eq_iff, eq_refl, ◌==◌,
  if◌then◌else◌, Bool-cases,
}
use gude_agents.Words.{two64}
use gude_agents.Dict.{insert, lookup-insert}
use gude_agents.Message.{Bytes, Message}
use gude_agents.Conversation.{
  InMemory, Entry, context_state_conflict, invalid_json, entry_of, append, context_of,
  load_context_state, save_context_state,
}
use gude_agents.Conversation.Log.{transcript, entry_of-insert, append_outcome}

-- One call of a method that writes.
pub data Write : Type 0 where
  appends : String → List Message → ℕ → Write
  saves : String → String → Bytes → ℕ → Write

module _ (valid_json : Bytes → Bool) where
  unfoldable pub write : InMemory → Write → InMemory
  write m (appends id msgs expected) = (append m id msgs expected).0
  write m (saves id key bytes expected) = (save_context_state valid_json m id key bytes expected).0

  unfoldable pub writes : InMemory → List Write → InMemory
  unfolding write
  writes m [] = m
  writes m (w ∷ ws) = writes (write m w) ws

abbrev pub saved : Entry → String → Bytes → Entry
saved e key bytes = record e {
  context_state =
      insert key (record { bytes = bytes; revision = ((context_of e key).revision + 1) % two64 })
        e.context_state;
}

-- The three outcomes of a save.
module _ (valid_json : Bytes → Bool) (m : InMemory) (id key : String) (bytes : Bytes)
    (expected : ℕ) where
  save-current :
      valid_json bytes ≡ true
      → (load_context_state m id key).revision ≡ expected
      → save_context_state valid_json m id key bytes expected ≡ (
        insert id (saved (entry_of m id) key bytes) m,
        ok (((load_context_state m id key).revision + 1) % two64),
      )
  unfolding save_context_state load_context_state
  save-current v e = rw (v, nat_eq-true e)

  save-stale :
      valid_json bytes ≡ true
      → (load_context_state m id key).revision ≢ expected
      → save_context_state valid_json m id key bytes expected ≡ (m, err context_state_conflict)
  unfolding save_context_state load_context_state
  save-stale v e = rw (v, nat_eq-false e)

  save-invalid :
      valid_json bytes ≡ false
      → save_context_state valid_json m id key bytes expected ≡ (m, err invalid_json)
  unfolding save_context_state
  save-invalid v = rw v

  context_of-saved :
      (e : Entry) (k : String)
      → context_of (saved e key bytes) k ≡ (
          if key == k
          then record { bytes = bytes; revision = ((context_of e key).revision + 1) % two64 }
          else context_of e k)
  unfolding context_of
  context_of-saved e k = rw (lookup-insert key k _ e.context_state, context_of) (ground arith)

  -- The history of a conversation: what a save must leave alone.
  abbrev SameHistory : Entry → Entry → Type 0
  SameHistory a b =
      (a.messages ≡ b.messages) × (a.revision ≡ b.revision) × (a.last_sequence ≡ b.last_sequence)

  saved-history :
      (j : String)
      → SameHistory (entry_of (insert id (saved (entry_of m id) key bytes) m) j) (entry_of m j)
  saved-history j = elim (Bool-cases (id == j)) [
    | inl hit ↦
        rw (entry_of-insert m id j (saved (entry_of m id) key bytes), hit, (eq_iff id j).0 hit)
          (refl, refl, refl)
    | inr miss ↦
        rw (entry_of-insert m id j (saved (entry_of m id) key bytes), miss) (refl, refl, refl)
  ]

  -- Saving valid data at the current revision of its key stores it under the next revision, keeps
  -- the other keys of the conversation, and leaves the history of every conversation as it was:
  -- transcript, revision and last sequence number. At another revision it is a conflict, and invalid
  -- data is an error; both change nothing.
  pub save_context_state_outcome :
      (valid_json bytes ≡ true
        → (load_context_state m id key).revision ≡ expected
        → let m' = (save_context_state valid_json m id key bytes expected).0 in
          (load_context_state m' id key ≡ record {
            bytes = bytes;
            revision = ((load_context_state m id key).revision + 1) % two64;
          })
          × ((k : String) → key ≢ k → load_context_state m' id k ≡ load_context_state m id k)
          × ((j : String) → SameHistory (entry_of m' j) (entry_of m j)))
      × (valid_json bytes ≡ true
          → (load_context_state m id key).revision ≢ expected
          → save_context_state valid_json m id key bytes expected ≡ (m, err context_state_conflict))
      × (valid_json bytes ≡ false
          → save_context_state valid_json m id key bytes expected ≡ (m, err invalid_json))
  unfolding load_context_state
  save_context_state_outcome = (
    λ v e.
        let found : entry_of (insert id (saved (entry_of m id) key bytes) m) id
            ≡ saved (entry_of m id) key bytes =
          simp (entry_of-insert, eq_refl) in
        rw (save-current v e) (
          ap (λ x. context_of x key) found ∙ simp (context_of-saved, eq_refl),
          λ k h.
              ap (λ x. context_of x k) found
              ∙ (rw (context_of-saved (entry_of m id) k) (ground (arith, eq_iff key k))),
          saved-history,
        ),
    save-stale,
    save-invalid,
  )

  save-transcript :
      (j : String)
      → transcript (save_context_state valid_json m id key bytes expected).0 j ≡ transcript m j
  save-transcript j = elim (Bool-cases (valid_json bytes)) [
    | inr bad ↦ rw (save-invalid bad)
    | inl good ↦ elim (ℕ_discrete (load_context_state m id key).revision expected) [
      | yes e ↦ rw (save-current good e) (saved-history j).0
      | no h ↦ rw (save-stale good h)
    ]
  ]

append-transcript :
    (m : InMemory) (id j : String) (msgs : List Message) (expected : ℕ)
    → (tail : List Message) × (transcript (append m id msgs expected).0 j ≡ transcript m j ++ tail)
append-transcript m id j msgs expected = elim (ℕ_discrete (entry_of m id).revision expected) [
  | no h ↦ ([], rw ((append_outcome m id msgs expected).1 h) (sym (append-nil (transcript m j))))
  | yes e ↦ elim (Bool-cases (id == j)) [
    | inl hit ↦ (
      msgs,
      subst (λ k. transcript (append m id msgs expected).0 k ≡ transcript m k ++ msgs)
          ((eq_iff id j).0 hit) ((append_outcome m id msgs expected).0 e).1,
    )
    | inr miss ↦ (
      [],
      ap (λ x. x.messages)
            (((append_outcome m id msgs expected).0 e).3 j (ground (arith, eq_iff id j)))
          ∙ sym (append-nil (transcript m j)),
    )
  ]
]

write-transcript :
    (valid_json : Bytes → Bool) (m : InMemory) (w : Write) (j : String)
    → (tail : List Message) × (transcript (write valid_json m w) j ≡ transcript m j ++ tail)
unfolding write
write-transcript valid_json m (appends id msgs expected) j = append-transcript m id j msgs expected
write-transcript valid_json m (saves id key bytes expected) j =
    ([], save-transcript valid_json m id key bytes expected j ∙ sym (append-nil (transcript m j)))

-- Whatever is written, by any interleaving of writers, every transcript only grows at its end.
pub writes-transcript :
    (valid_json : Bytes → Bool) (m : InMemory) (ws : List Write) (j : String)
    → (tail : List Message) × (transcript (writes valid_json m ws) j ≡ transcript m j ++ tail)
unfolding writes
writes-transcript valid_json m [] j = ([], sym (append-nil (transcript m j)))
writes-transcript valid_json m (w ∷ ws) j =
    let (t, first) = write-transcript valid_json m w j in
    let (u, rest) = writes-transcript valid_json (write valid_json m w) ws j in
    (t ++ u, rest ∙ ap (λ old. old ++ u) first ∙ append_assoc (transcript m j) t u)
