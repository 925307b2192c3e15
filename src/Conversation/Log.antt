-- ===== src/Conversation/Log.antt =====
-- The store against its contract: each conversation is a log that only grows at its end.
use mathlib.Core.List.{append-nil}
use gude_agents.Prelude.{
  ℕ, zero, suc, ◌+◌, ◌%◌, ◌<◌, ◌≤◌, ◌≡◌, refl, sym, ap, ◌∙◌, ◌≢◌, inl, inr, String, List, [], ◌∷◌,
  ◌++◌, Result, ok, err, length, drop, ltb, nat_eq-true, nat_eq-false, arith, tests, eq_iff,
  eq_refl, ◌==◌, if◌then◌else◌, Bool-cases, Option-cases,
}
use gude_agents.Words.{two64}
use gude_agents.Dict.{lookup, insert, lookup-insert}
use gude_agents.Message.{Message}
use gude_agents.Conversation.{
  InMemory, Entry, ConversationCursor, ConversationError, conversation_conflict, empty_entry,
  entry_of, snapshot_after, load_after, load, extended, cursor_of, append, fork_conversation,
}

-- Every entry counts its messages.
pub record IsCounted (m : InMemory) : Type 0 where
  pub counted :
      (id : String) → (entry_of m id).last_sequence ≡ length (entry_of m id).messages % two64

-- The abstract view: the transcript of each conversation.
abbrev pub transcript : InMemory → String → List Message
transcript m id = (entry_of m id).messages

pub entry_of-insert :
    (m : InMemory) (id j : String) (e : Entry)
    → entry_of (insert id e m) j ≡ (if id == j then e else entry_of m j)
unfolding entry_of
entry_of-insert m id j e = rw (lookup-insert id j e m, entry_of) (ground arith)

load_after-snapshot :
    (m : InMemory) (id : String) (n : ℕ) → load_after m id n ≡ snapshot_after n (entry_of m id)
unfolding load_after entry_of
load_after-snapshot m id n = elim (Option-cases (lookup id m)) [
  | inl e ↦ rw (e, load_after, entry_of) (ground arith)
  | inr (x, e) ↦ rw (e, load_after, entry_of)
]

drop-past {ℓ} : {A : Type ℓ} (n : ℕ) (xs : List A) → length xs ≤ n → drop n xs ≡ []
drop-past zero [] h = refl
drop-past zero (x ∷ xs) h = absurd (omega arith)
drop-past (suc n) [] h = refl
drop-past (suc n) (x ∷ xs) h = drop-past n xs (omega arith)

-- `LoadAfter` of a counted store returns the transcript behind the sequence number, with the current
-- revision and the number of messages; a transcript has fewer than 2 ^ 64 messages.
pub load_after-transcript :
    (m : InMemory) (id : String) (n : ℕ)
    → IsCounted m
    → length (transcript m id) < two64
    → ((load_after m id n).messages ≡ drop n (transcript m id))
      × ((load_after m id n).revision ≡ (entry_of m id).revision)
      × ((load_after m id n).last_sequence ≡ length (transcript m id))
unfolding snapshot_after
load_after-transcript m id n c short =
    let last : (entry_of m id).last_sequence ≡ length (transcript m id) =
      omega (arith, c.counted id) in
    rw (load_after-snapshot m id n) (
      elim (Bool-cases (ltb (entry_of m id).last_sequence n)) [
        | inl past ↦ rw past (
            drop-past (entry_of m id).last_sequence (transcript m id) (omega arith)
            ∙ sym (drop-past n (transcript m id) (omega tests)))
        | inr inside ↦ rw inside
      ],
      refl,
      last,
    )

-- An append that is not empty counts one revision.
abbrev pub next_revision : ℕ → List Message → ℕ
next_revision revision [] = revision
next_revision revision (_ ∷ _) = (revision + 1) % two64

-- An accepted `Append`: the batch stands at the end of the transcript, the cursor is that of the new
-- entry, and no other conversation changes.
abbrev pub Appended :
    InMemory
    → String
    → List Message
    → InMemory × Result ConversationError ConversationCursor
    → Type 0
Appended m id msgs (m', result) =
    (result ≡ ok (cursor_of (entry_of m' id)))
    × (transcript m' id ≡ transcript m id ++ msgs)
    × ((entry_of m' id).revision ≡ next_revision (entry_of m id).revision msgs)
    × ((j : String) → id ≢ j → entry_of m' j ≡ entry_of m j)

extended-Appended :
    (m : InMemory) (id : String) (msg : Message) (msgs : List Message)
    → let e = extended (entry_of m id) (msg ∷ msgs) in
      Appended m id (msg ∷ msgs) (insert id e m, ok (cursor_of e))
unfolding extended
extended-Appended m id msg msgs =
    let e = extended (entry_of m id) (msg ∷ msgs) in
    let same : entry_of (insert id e m) id ≡ e = simp (entry_of-insert, eq_refl) in
    (
      ap (λ x. ok (cursor_of x)) (sym same),
      ap (λ x. x.messages) same,
      ap (λ x. x.revision) same,
      λ j h. rw (entry_of-insert m id j e) (ground (arith, eq_iff id j)),
    )

pub append-current :
    (m : InMemory) (id : String) (msg : Message) (msgs : List Message) (expected : ℕ)
    → (entry_of m id).revision ≡ expected
    → append m id (msg ∷ msgs) expected ≡ (
      insert id (extended (entry_of m id) (msg ∷ msgs)) m,
      ok (cursor_of (extended (entry_of m id) (msg ∷ msgs))),
    )
unfolding append
append-current m id msg msgs expected e = rw (nat_eq-true e)

-- `Append` at the current revision appends the whole batch. At any other revision it is refused with
-- a conflict and changes nothing.
pub append_outcome :
    (m : InMemory) (id : String) (msgs : List Message) (expected : ℕ)
    → ((entry_of m id).revision ≡ expected → Appended m id msgs (append m id msgs expected))
      × ((entry_of m id).revision ≢ expected
          → append m id msgs expected ≡ (m, err conversation_conflict))
append_outcome m id [] expected = (
  λ e.
      unfold append in
      rw (nat_eq-true e) (refl, sym (append-nil (transcript m id)), refl, λ j h. refl),
  λ h. unfold append in rw (nat_eq-false h),
)
append_outcome m id (msg ∷ msgs) expected = (
  λ e. rw (append-current m id msg msgs expected e) (extended-Appended m id msg msgs),
  λ h. unfold append in rw (nat_eq-false h),
)

-- A writer whose batch is accepted leaves every other writer that read the same revision behind.
append_stale :
    (m : InMemory) (id : String) (msg : Message) (msgs others : List Message) (expected : ℕ)
    → expected < two64
    → (entry_of m id).revision ≡ expected
    → let m' = (append m id (msg ∷ msgs) expected).0 in
      append m' id others expected ≡ (m', err conversation_conflict)
append_stale m id msg msgs others expected small e =
    let m' : InMemory = (append m id (msg ∷ msgs) expected).0 in
    (append_outcome m' id others expected).1
      (λ same. omega (arith, ((append_outcome m id (msg ∷ msgs) expected).0 e).2))

-- A fork at a fresh identifier has the source's transcript, and leaves the source.
pub fork_conversation-transcript :
    (m : InMemory) (source_id new_id : String)
    → IsCounted m
    → length (transcript m source_id) < two64
    → entry_of m new_id ≡ empty_entry
    → let m' = (fork_conversation m source_id new_id).0 in
      (transcript m' new_id ≡ transcript m source_id)
      × ((j : String) → new_id ≢ j → entry_of m' j ≡ entry_of m j)
unfolding fork_conversation load
fork_conversation-transcript m source_id new_id c short fresh =
    let a = load_after-transcript m source_id 0 c short in
    let r : (entry_of m new_id).revision ≡ 0 = ap (λ e. e.revision) fresh in
    let t : transcript m new_id ≡ [] = ap (λ e. e.messages) fresh in
    let done = (append_outcome m new_id (load_after m source_id 0).messages 0).0 r in
    (done.1 ∙ ap (λ old. old ++ (load_after m source_id 0).messages) t ∙ a.0, done.3)
