-- ===== src/Examples/Retrieval.antt =====
-- Concrete runs for agent/rag and agent/memory.
use gude_agents.Prelude.{ℕ, String, true, List, [], ◌∷◌, some, ok, All, ◌≡◌, refl, arith, ◌-◌}
use gude_agents.Rag.Split.{Runes, split_text}
use gude_agents.Rag.Split.Chunks.{IsSized, Shares, heads, split_text-chunks}
use gude_agents.Rag.Store.{Document, MemoryStore, new_memory_store, upsert, find}
use gude_agents.Rag.Store.RoundTrip.{HasDistinct, identifiers, identified, find-upsert}
use gude_agents.Recollection.{Schema, RecallQuery, Store, recall}
use gude_agents.Recollection.Isolation.{
  Operation, remembering, forgetting_all, apply_all, recall-apply_all,
}

abbrev runes : Runes
runes = 104 ∷ 101 ∷ 108 ∷ 108 ∷ 111 ∷ []

split_text-chunks_example :
    (cs : List Runes) × (split_text runes 3 1 ≡ ok cs)
    × All (IsSized 3) cs
    × Shares (3 - 1) 1 cs
    × (heads (3 - 1) cs ≡ runes)
split_text-chunks_example = split_text-chunks runes 3 1 (omega arith) (omega arith)

abbrev note : String → String → Document
note id content = record { id = id; content = content; metadata = [] }

abbrev itoa : ℕ → String
itoa n = "n"

abbrev notes : List Document
notes = note "a" "first" ∷ note "" "second" ∷ []

abbrev empty_store : MemoryStore ℕ
empty_store = new_memory_store

find-upsert_example :
    let ids = identifiers itoa 0 notes in
    (s : MemoryStore ℕ) × (upsert itoa empty_store notes (1 ∷ 2 ∷ []) ≡ (s, ok ids))
    × HasDistinct s.entries
    × (find s ids ≡ identified notes ids)
find-upsert_example = find-upsert itoa empty_store notes (1 ∷ 2 ∷ []) tt refl (refl, (refl, tt))

-- Texts with their own content, and a similarity that is a number.
abbrev texts : Schema String ℕ ℕ
texts = record {
  set_identifier = λ identifier value. value;
  content = λ value. value;
  primary_key = λ value. "";
  embed = λ text. ok 1;
  similarity = λ v w. 1;
  is_valid = λ s. true;
  is_zero = λ s. true;
  at_least = λ s t. true;
  sort = λ entries. entries;
}

abbrev query : RecallQuery ℕ
query = record { text = "tea"; limit = 0; min_similarity = 0; filters = []; order = [] }

abbrev bought : Store texts
bought = ("ann", record { id = "1"; value = "tea"; embedding = 1 } ∷ []) ∷ []

abbrev others : List (Operation String)
others = remembering (some "2") "bob" "coffee" ∷ forgetting_all "bob" ∷ []

recall-apply_all_example :
    recall texts (apply_all texts others bought) "ann" query ≡ recall texts bought "ann" query
recall-apply_all_example = recall-apply_all texts others "ann" query bought refl
