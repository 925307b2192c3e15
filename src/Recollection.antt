-- ===== src/Recollection.antt =====
-- The in-memory store of agent/memory/store.go: entries of a type `T` by the identifier of their owner.
-- The fields of `T` (found by reflection over its tags), the embedder, the random identifier, the
-- similarity and the order of `sort.SliceStable` by descending score are parameters. The lock makes
-- each operation one step, and the embedder is called before it.
pub mod Isolation
use gude_agents.Prelude.{
  String, Bool, true, false, not, ◌&&◌, List, [], ◌∷◌, ◌++◌, Option, none, some, Result, ok, err,
  filter, map, length, take, ◌==◌, if◌then◌else◌,
}
use gude_agents.Words.{Int64, is_neg, slt}
use gude_agents.Dict.{Dict, lookup, insert, erase}

pub record Entry (T : Type 0) (V : Type 0) : Type 0 where
  pub id : String
  pub value : T
  pub embedding : V

-- What the store takes from the type's schema, the embedder and the scores of type `S`.
pub record Schema (T : Type 0) (V : Type 0) (S : Type 0) : Type 0 where
  pub set_identifier : String → T → T
  pub content : T → String
  pub primary_key : T → String
  pub embed : String → Result String V
  pub similarity : V → V → S
  pub is_valid : S → Bool
  pub is_zero : S → Bool
  pub at_least : S → S → Bool
  pub sort : List (Entry T V × S) → List (Entry T V × S)

pub record RecallQuery (S : Type 0) : Type 0 where
  pub text : String
  pub limit : Int64
  pub min_similarity : S
  pub filters : List String
  pub order : List String

pub record Recalled (T : Type 0) (S : Type 0) : Type 0 where
  pub id : String
  pub value : T
  pub score : S

pub data RecallError : Type 0 where
  empty_identifier empty_id empty_content random_failed : RecallError
  empty_text bad_limit bad_similarity filters_unsupported order_unsupported : RecallError
  embed_failed not_found : String → RecallError

module _ {T V S : Type 0} (schema : Schema T V S) where
  abbrev pub Store : Type 0
  Store = Dict (List (Entry T V))

  -- `s.entries[identifier]`: a missing key reads as no entries.
  abbrev pub entries_of : Option (List (Entry T V)) → List (Entry T V)
  entries_of none = []
  entries_of (some entries) = entries

  abbrev pub bucket : String → Store → List (Entry T V)
  bucket identifier s = entries_of (lookup identifier s)

  abbrev pub remembered :
      Store → String → T → Option String → Result String V → Store × Option RecallError
  remembered s identifier value none embedding = (s, some random_failed)
  remembered s identifier value (some id) (err e) = (s, some (embed_failed e))
  remembered s identifier value (some id) (ok v) = (
    insert identifier (bucket identifier s ++ record { id = id; value = value; embedding = v } ∷ [])
        s,
    none,
  )

  -- `Remember`, with the random identifier where there is one.
  unfoldable pub remember : Option String → Store → String → T → Store × Option RecallError
  remember random s identifier value =
      let owned = schema.set_identifier identifier value in
      let id = if schema.primary_key owned == "" then random else some (schema.primary_key owned) in
      if identifier == ""
      then (s, some empty_identifier)
      else if schema.content owned == ""
      then (s, some empty_content)
      else remembered s identifier owned id (schema.embed (schema.content owned))

  -- The first entry with the identifier replaced, where there is one.
  unfoldable pub replace : Entry T V → List (Entry T V) → Option (List (Entry T V))
  replace new [] = none
  replace new (entry ∷ entries) =
      let rest = replace new entries in
      if entry.id == new.id
      then some (new ∷ entries)
      else elim rest [ none ↦ none | some replaced ↦ some (entry ∷ replaced) ]

  abbrev pub replaced_in :
      Store → String → String → Option (List (Entry T V)) → Store × Option RecallError
  replaced_in s identifier id none = (s, some (not_found id))
  replaced_in s identifier id (some entries) = (insert identifier entries s, none)

  abbrev pub updated : Store → String → String → T → Result String V → Store × Option RecallError
  updated s identifier id value (err e) = (s, some (embed_failed e))
  updated s identifier id value (ok v) =
      replaced_in s identifier id
        (replace (record { id = id; value = value; embedding = v }) (bucket identifier s))

  unfoldable pub update : Store → String → String → T → Store × Option RecallError
  update s identifier id value =
      let owned = schema.set_identifier identifier value in
      if identifier == ""
      then (s, some empty_identifier)
      else if id == ""
      then (s, some empty_id)
      else if schema.content owned == ""
      then (s, some empty_content)
      else updated s identifier id owned (schema.embed (schema.content owned))

  unfoldable pub forget_all : Store → String → Store × Option RecallError
  forget_all s identifier =
      if identifier == "" then (s, some empty_identifier) else (erase identifier s, none)

  -- The entries without the first one that has the identifier, where there is one.
  unfoldable pub without : String → List (Entry T V) → Option (List (Entry T V))
  without id [] = none
  without id (entry ∷ entries) =
      let rest = without id entries in
      if entry.id == id
      then some entries
      else elim rest [ none ↦ none | some others ↦ some (entry ∷ others) ]

  abbrev pub left_over : Store → String → Option (List (Entry T V)) → Store × Option RecallError
  left_over s identifier none = (s, none)
  left_over s identifier (some entries) = (insert identifier entries s, none)

  unfoldable pub forget : Store → String → String → Store × Option RecallError
  forget s identifier id =
      if identifier == ""
      then (s, some empty_identifier)
      else if id == ""
      then (s, some empty_id)
      else left_over s identifier (without id (bucket identifier s))

  -- The tests of `Recall` before the query is embedded.
  unfoldable pub check_recall : String → RecallQuery S → Option RecallError
  check_recall identity query =
      if identity == ""
      then some empty_identifier
      else if query.text == ""
      then some empty_text
      else if is_neg query.limit
      then some bad_limit
      else if not (schema.is_valid query.min_similarity)
      then some bad_similarity
      else if slt 0 (length query.filters)
      then some filters_unsupported
      else if slt 0 (length query.order)
      then some order_unsupported
      else none

  abbrev pub scored : V → RecallQuery S → List (Entry T V) → List (Entry T V × S)
  scored v query entries =
      filter
        (λ e.
          if schema.is_zero query.min_similarity
          then true
          else schema.at_least e.1 query.min_similarity)
        (map (λ e. (e, schema.similarity v e.embedding)) entries)

  abbrev pub limited : RecallQuery S → List (Entry T V × S) → List (Entry T V × S)
  limited query results =
      if slt 0 query.limit && slt query.limit (length results)
      then take query.limit results
      else results

  abbrev pub ranked :
      RecallQuery S → List (Entry T V) → Result String V → Result RecallError (List (Recalled T S))
  ranked query entries (err e) = err (embed_failed e)
  ranked query [] (ok v) = ok []
  ranked query (entry ∷ entries) (ok v) = ok (
      map (λ r. record { id = r.0.id; value = r.0.value; score = r.1 })
        (limited query (schema.sort (scored v query (entry ∷ entries)))))

  abbrev pub recalled :
      Option RecallError
      → RecallQuery S
      → List (Entry T V)
      → Result RecallError (List (Recalled T S))
  recalled (some e) query entries = err e
  recalled none query entries = ranked query entries (schema.embed query.text)

  unfoldable pub recall : Store → String → RecallQuery S → Result RecallError (List (Recalled T S))
  recall s identity query = recalled (check_recall identity query) query (bucket identity s)
