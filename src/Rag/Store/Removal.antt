-- ===== src/Rag/Store/Removal.antt =====
-- What `Find` reads behind `Delete` in agent/rag/rag.go.
use gude_agents.Prelude.{
  String, Bool, true, false, not, List, [], ◌∷◌, Option, none, some, any, filter, ◌==◌,
  if◌then◌else◌, ◌≡◌, refl, sym, ap, ◌∙◌, inl, inr, Bool-cases, Option-cases,
}
use gude_agents.Dict.{Dict, lookup}
use gude_agents.Rag.Store.{Document, StoreEntry, MemoryStore, by_id, collect, find, delete}
use gude_agents.Rag.Store.RoundTrip.{last_doc, lookup-by_id, if_true, if_false, apart, unlike}

module _ {V : Type 0} (ids : List String) (id : String) where
  abbrev kept_entries : List (StoreEntry V) → List (StoreEntry V)
  kept_entries = filter (λ e. not (any (λ i. i == e.id) ids))

  last_doc-kept :
      (entries : List (StoreEntry V)) (found : Option Document)
      → any (λ i. i == id) ids ≡ false
      → last_doc id (kept_entries entries) found ≡ last_doc id entries found
  last_doc-kept [] found out = refl
  last_doc-kept (entry ∷ entries) found out = elim (Bool-cases (any (λ i. i == entry.id) ids)) [
    | inr stays ↦
        rw stays (last_doc-kept entries (if entry.id == id then some entry.doc else found) out)
    | inl goes ↦ rw goes (
        last_doc-kept entries found out
        ∙ ap (last_doc id entries) (
            sym (
              if_false (entry.id == id) (some entry.doc) found
                (unlike entry.id id (λ k. any (λ i. i == k) ids) goes out))))
  ]

  last_doc-removed :
      (entries : List (StoreEntry V)) (found : Option Document)
      → any (λ i. i == id) ids ≡ true
      → last_doc id (kept_entries entries) found ≡ found
  last_doc-removed [] found inside = refl
  last_doc-removed (entry ∷ entries) found inside =
      elim (Bool-cases (any (λ i. i == entry.id) ids)) [
        | inr stays ↦ rw stays (
            last_doc-removed entries (if entry.id == id then some entry.doc else found) inside
            ∙ if_false (entry.id == id) (some entry.doc) found
                (apart entry.id id (unlike id entry.id (λ k. any (λ i. i == k) ids) inside stays)))
        | inl goes ↦ rw goes (last_doc-removed entries found inside)
      ]

abbrev one_doc : Option Document → List Document
one_doc none = []
one_doc (some doc) = doc ∷ []

collect-one_doc : (id : String) (m : Dict Document) → collect m (id ∷ []) ≡ one_doc (lookup id m)
unfolding collect
collect-one_doc id m = elim (Option-cases (lookup id m)) [
  | inl missing ↦ rw (missing, collect) refl
  | inr (doc, found) ↦ rw (found, collect) refl
]

module _ {V : Type 0} (id : String) where
  lookup-delete :
      (ids : List String) (s : MemoryStore V)
      → lookup id (by_id [] (delete s ids).entries)
        ≡ (if any (λ i. i == id) ids then none else lookup id (by_id [] s.entries))
  unfolding delete lookup
  lookup-delete [] s = refl
  lookup-delete (first ∷ ids) s =
      lookup-by_id id (kept_entries (first ∷ ids) id s.entries) []
      ∙ elim (Bool-cases (any (λ i. i == id) (first ∷ ids))) [
        | inl gone ↦
            last_doc-removed (first ∷ ids) id s.entries none gone
            ∙ sym (
                if_true (any (λ i. i == id) (first ∷ ids)) none (lookup id (by_id [] s.entries))
                  gone)
        | inr here ↦
            last_doc-kept (first ∷ ids) id s.entries none here
            ∙ sym (lookup-by_id id s.entries [])
            ∙ sym (
                if_false (any (λ i. i == id) (first ∷ ids)) none (lookup id (by_id [] s.entries))
                  here)
      ]

  -- `Delete` removes the documents of the given identifiers, as `Find` sees them, and keeps the others.
  find-delete :
      (ids : List String) (s : MemoryStore V)
      → find (delete s ids) (id ∷ []) ≡ (if any (λ i. i == id) ids then [] else find s (id ∷ []))
  unfolding find
  find-delete ids s =
      collect-one_doc id (by_id [] (delete s ids).entries)
      ∙ ap one_doc (lookup-delete ids s)
      ∙ spread (any (λ i. i == id) ids) (lookup id (by_id [] s.entries))
      ∙ ap (λ docs. if any (λ i. i == id) ids then [] else docs)
          (sym (collect-one_doc id (by_id [] s.entries)))
    where
      spread :
          (b : Bool) (o : Option Document)
          → one_doc (if b then none else o) ≡ (if b then [] else one_doc o)
      spread true o = refl
      spread false o = refl
