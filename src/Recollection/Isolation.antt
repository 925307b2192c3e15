-- ===== src/Recollection/Isolation.antt =====
-- The owners of the store of agent/memory/store.go.
use gude_agents.Prelude.{
  String, Bool, true, false, not, List, [], ◌∷◌, Option, none, some, Result, ok, err, all, ◌==◌,
  if◌then◌else◌, ◌≡◌, refl, ap, ◌∙◌, inl, inr, Bool-cases, and_split, clash_not,
}
use gude_agents.Dict.{lookup, insert, erase, lookup-insert, lookup-erase}
use gude_agents.Recollection.{
  Entry, Schema, RecallQuery, RecallError, Store, bucket, remembered, remember, replace,
  replaced_in, updated, update, forget_all, without, left_over, forget, check_recall, recalled,
  entries_of, recall, empty_identifier, empty_id, empty_content,
}

pub data Operation (T : Type 0) : Type 0 where
  remembering : Option String → String → T → Operation T
  updating : String → String → T → Operation T
  forgetting : String → String → Operation T
  forgetting_all : String → Operation T

module _ {T V S : Type 0} (schema : Schema T V S) where
  abbrev pub owner : Operation T → String
  owner (remembering random identifier value) = identifier
  owner (updating identifier id value) = identifier
  owner (forgetting identifier id) = identifier
  owner (forgetting_all identifier) = identifier

  unfoldable pub apply : Operation T → Store schema → Store schema
  apply (remembering random identifier value) s = (remember schema random s identifier value).0
  apply (updating identifier id value) s = (update schema s identifier id value).0
  apply (forgetting identifier id) s = (forget schema s identifier id).0
  apply (forgetting_all identifier) s = (forget_all schema s identifier).0

  unfoldable pub apply_all : List (Operation T) → Store schema → Store schema
  apply_all [] s = s
  apply_all (op ∷ ops) s = apply_all ops (apply op s)

  -- The entries of one owner are those of another store.
  abbrev Keeps : String → Store schema → Store schema → Type 0
  Keeps j s s' = lookup j s' ≡ lookup j s

  insert-Keeps :
      (i j : String) (entries : List (Entry T V)) (s : Store schema)
      → (i == j) ≡ false
      → Keeps j s (insert i entries s)
  insert-Keeps i j entries s e = lookup-insert i j entries s ∙ rw e refl

  remembered-Keeps :
      (s : Store schema) (i j : String) (value : T) (id : Option String)
      (embedding : Result String V)
      → (i == j) ≡ false
      → Keeps j s (remembered schema s i value id embedding).0
  remembered-Keeps s i j value none embedding e = refl
  remembered-Keeps s i j value (some id) (err x) e = refl
  remembered-Keeps s i j value (some id) (ok v) e = insert-Keeps i j _ s e

  updated-Keeps :
      (s : Store schema) (i j id : String) (value : T) (embedding : Result String V)
      → (i == j) ≡ false
      → Keeps j s (updated schema s i id value embedding).0
  updated-Keeps s i j id value (err x) e = refl
  updated-Keeps s i j id value (ok v) e =
      by_found
        (replace schema (record { id = id; value = value; embedding = v }) (bucket schema i s))
    where
      by_found : (found : Option (List (Entry T V))) → Keeps j s (replaced_in schema s i id found).0
      by_found none = refl
      by_found (some entries) = insert-Keeps i j entries s e

  left_over-Keeps :
      (s : Store schema) (i j : String) (found : Option (List (Entry T V)))
      → (i == j) ≡ false
      → Keeps j s (left_over schema s i found).0
  left_over-Keeps s i j none e = refl
  left_over-Keeps s i j (some entries) e = insert-Keeps i j entries s e

  -- What an operation left keeps them.
  Left : String → Store schema → Store schema × Option RecallError → Type 0
  Left j s r = Keeps j s r.0

  left :
      (j : String) (s : Store schema) (r : Store schema × Option RecallError)
      → Keeps j s r.0
      → Left j s r
  unfolding Left
  left j s r h = h

  guard-Left :
      (j : String) (s : Store schema) (b : Bool) (error : RecallError)
      (r : Store schema × Option RecallError)
      → Left j s r
      → Left j s (if b then (s, some error) else r)
  unfolding Left
  guard-Left j s true error r h = refl
  guard-Left j s false error r h = h

  abbrev result : Operation T → Store schema → Store schema × Option RecallError
  result (remembering random identifier value) s = remember schema random s identifier value
  result (updating identifier id value) s = update schema s identifier id value
  result (forgetting identifier id) s = forget schema s identifier id
  result (forgetting_all identifier) s = forget_all schema s identifier

  result-Left :
      (op : Operation T) (j : String) (s : Store schema)
      → (owner op == j) ≡ false
      → Left j s (result op s)
  unfolding remember update forget forget_all
  result-Left (remembering random i value) j s e =
      let owned = schema.set_identifier i value in
      let id = if schema.primary_key owned == "" then random else some (schema.primary_key owned) in
      let kept = remembered schema s i owned id (schema.embed (schema.content owned)) in
      guard-Left j s (i == "") empty_identifier _ (
        guard-Left j s (schema.content owned == "") empty_content kept
          (left j s kept (remembered-Keeps s i j owned id (schema.embed (schema.content owned)) e)))
  result-Left (updating i id value) j s e =
      let owned = schema.set_identifier i value in
      let kept = updated schema s i id owned (schema.embed (schema.content owned)) in
      guard-Left j s (i == "") empty_identifier _ (
        guard-Left j s (id == "") empty_id _ (
          guard-Left j s (schema.content owned == "") empty_content kept
            (left j s kept (updated-Keeps s i j id owned (schema.embed (schema.content owned)) e))))
  result-Left (forgetting i id) j s e =
      let kept = left_over schema s i (without schema id (bucket schema i s)) in
      guard-Left j s (i == "") empty_identifier _ (
        guard-Left j s (id == "") empty_id kept
          (left j s kept (left_over-Keeps s i j (without schema id (bucket schema i s)) e)))
  result-Left (forgetting_all i) j s e =
      guard-Left j s (i == "") empty_identifier (erase i s, none)
        (left j s (erase i s, none) (lookup-erase i j s ∙ rw e refl))

  apply-Keeps :
      (op : Operation T) (j : String) (s : Store schema)
      → (owner op == j) ≡ false
      → Keeps j s (apply op s)
  unfolding apply Left
  apply-Keeps (remembering random i value) j s e = result-Left (remembering random i value) j s e
  apply-Keeps (updating i id value) j s e = result-Left (updating i id value) j s e
  apply-Keeps (forgetting i id) j s e = result-Left (forgetting i id) j s e
  apply-Keeps (forgetting_all i) j s e = result-Left (forgetting_all i) j s e

  apply_all-Keeps :
      (ops : List (Operation T)) (j : String) (s : Store schema)
      → all (λ op. not (owner op == j)) ops ≡ true
      → Keeps j s (apply_all ops s)
  unfolding apply_all
  apply_all-Keeps [] j s e = refl
  apply_all-Keeps (op ∷ ops) j s e =
      let (here, later) = and_split (not (owner op == j)) (all (λ op. not (owner op == j)) ops) e in
      apply_all-Keeps ops j (apply op s) later ∙ apply-Keeps op j s (apart here)
    where
      apart : {b : Bool} → not b ≡ true → b ≡ false
      apart {b} h = elim (Bool-cases b) [
        | inl yes_b ↦ absurd (clash_not b h yes_b)
        | inr no_b ↦ no_b
      ]

  -- Whatever other owners remember, update and forget, in whatever order and with whatever outcome, an
  -- owner recalls the same.
  pub recall-apply_all :
      (ops : List (Operation T)) (identity : String) (query : RecallQuery S) (s : Store schema)
      → all (λ op. not (owner op == identity)) ops ≡ true
      → recall schema (apply_all ops s) identity query ≡ recall schema s identity query
  unfolding recall
  recall-apply_all ops identity query s e =
      ap
        (λ found.
          recalled schema (check_recall schema identity query) query (entries_of schema found))
        (apply_all-Keeps ops identity s e)
