-- ===== src/Rag/Store.antt =====
-- The in-memory vector store of agent/rag/rag.go. An embedding is of any type `V`; its similarity to
-- the query (floating-point arithmetic), the order of `sort.SliceStable` by descending score and
-- `strconv.Itoa` are parameters. The lock makes each operation one step.
pub mod RoundTrip
pub mod Removal
use gude_agents.Prelude.{
  ℕ, String, Bool, true, false, not, List, [], ◌∷◌, ◌++◌, Option, none, some, Result, ok, err, any,
  all, filter, map, length, take, nat_eq, ltb, ◌==◌, if◌then◌else◌,
}
use gude_agents.Words.{Int64, add64, slt}
use gude_agents.Dict.{Dict, lookup, insert}

pub record Document : Type 0 where
  pub id : String
  pub content : String
  pub metadata : Dict String

pub record StoreEntry (V : Type 0) : Type 0 where
  pub id : String
  pub doc : Document
  pub embedding : V

pub record MemoryStore (V : Type 0) : Type 0 where
  pub entries : List (StoreEntry V)
  pub next_id : Int64

pub data StoreError : Type 0 where
  length_mismatch : ℕ → ℕ → StoreError
  bad_top_k : Int64 → StoreError
  empty_filter : StoreError

-- The identifier of a document, and the counter behind it.
abbrev pub assign_id : (Int64 → String) → Int64 → Document → String × Int64
assign_id itoa next doc =
    if doc.id == "" then (itoa (add64 next 1), add64 next 1) else (doc.id, next)

unfoldable pub collect : Dict Document → List String → List Document
collect m [] = []
collect m (id ∷ ids) = elim (lookup id m) [ none ↦ collect m ids | some doc ↦ doc ∷ collect m ids ]

-- `m[k]`: a missing key reads as the empty text.
abbrev pub read_key : Dict String → String → String
read_key m k = elim (lookup k m) [ none ↦ "" | some v ↦ v ]

unfoldable pub metadata_matches : Dict String → Dict String → Bool
metadata_matches metadata wanted = all (λ entry. read_key metadata entry.0 == entry.1) wanted

module _ {V : Type 0} where
  abbrev pub new_memory_store : MemoryStore V
  new_memory_store = record { entries = []; next_id = 0 }

  abbrev pub new_entry : String → Document → V → StoreEntry V
  new_entry id doc v = record { id = id; doc = record doc { id = id }; embedding = v }

  -- The first entry with the identifier is replaced; without one, the entry goes to the end.
  unfoldable pub put_entry : StoreEntry V → List (StoreEntry V) → List (StoreEntry V)
  put_entry new [] = new ∷ []
  put_entry new (entry ∷ entries) =
      let rest = put_entry new entries in if entry.id == new.id then new ∷ entries else entry ∷ rest

  -- One round of the loop of `Upsert`, and the loop: the store and the identifiers.
  abbrev pub upsert_one : (Int64 → String) → MemoryStore V → Document → V → MemoryStore V
  upsert_one itoa s doc v =
      let (id, next) = assign_id itoa s.next_id doc in
      record { entries = put_entry (new_entry id doc v) s.entries; next_id = next }

  unfoldable pub upsert_all :
      (Int64 → String) → MemoryStore V → List (Document × V) → MemoryStore V × List String
  upsert_all itoa s [] = (s, [])
  upsert_all itoa s ((doc, v) ∷ docs) =
      let rest = upsert_all itoa (upsert_one itoa s doc v) docs in
      (rest.0, (assign_id itoa s.next_id doc).0 ∷ rest.1)

  abbrev pub zip : List Document → List V → List (Document × V)
  zip [] vs = []
  zip (doc ∷ docs) [] = []
  zip (doc ∷ docs) (v ∷ vs) = (doc, v) ∷ zip docs vs

  unfoldable pub upsert :
      (Int64 → String)
      → MemoryStore V
      → List Document
      → List V
      → MemoryStore V × Result StoreError (List String)
  upsert itoa s docs embeddings =
      let done = upsert_all itoa s (zip docs embeddings) in
      if not (nat_eq (length docs) (length embeddings))
      then (s, err (length_mismatch (length docs) (length embeddings)))
      else (done.0, ok done.1)

  -- The map of `Find`.
  unfoldable pub by_id : Dict Document → List (StoreEntry V) → Dict Document
  by_id m [] = m
  by_id m (entry ∷ entries) = by_id (insert entry.id entry.doc m) entries

  unfoldable pub find : MemoryStore V → List String → List Document
  find s [] = []
  find s (id ∷ ids) = collect (by_id [] s.entries) (id ∷ ids)

  unfoldable pub delete_by_metadata :
      MemoryStore V → Dict String → MemoryStore V × Option StoreError
  delete_by_metadata s [] = (s, some empty_filter)
  delete_by_metadata s (entry ∷ wanted) = (
    record s {
      entries = filter (λ e. not (metadata_matches e.doc.metadata (entry ∷ wanted))) s.entries;
    },
    none,
  )

  unfoldable pub delete : MemoryStore V → List String → MemoryStore V
  delete s [] = s
  delete s (id ∷ ids) = record s {
    entries = filter (λ e. not (any (λ i. i == e.id) (id ∷ ids))) s.entries;
  }

  -- `Search`, with the scores of type `S`.
  unfoldable pub search :
      {S : Type 0}
      → (V → V → S)
      → (List (Document × S) → List (Document × S))
      → MemoryStore V
      → V
      → Int64
      → Result StoreError (List (Document × S))
  search similarity sort s query top_k =
      let scored = sort (map (λ e. (e.doc, similarity query e.embedding)) s.entries) in
      if slt top_k 1
      then err (bad_top_k top_k)
      else ok (take (if slt (length scored) top_k then length scored else top_k) scored)
