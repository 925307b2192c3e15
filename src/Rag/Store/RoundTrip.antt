-- ===== src/Rag/Store/RoundTrip.antt =====
-- What `Find` reads behind `Upsert` in agent/rag/rag.go.
use gude_agents.Prelude.{
  String, Bool, true, false, ◌||◌, List, [], ◌∷◌, Option, none, some, ok, any, length, nat_eq-true,
  ◌==◌, eq_iff, eq_refl, if◌then◌else◌, ◌≡◌, refl, sym, ap, ◌∙◌, subst, inl, inr, arith, Bool-cases,
  clash, or_none,
}
use gude_agents.Words.{Int64, add64}
use gude_agents.Dict.{Dict, lookup, insert, lookup-insert}
use gude_agents.Rag.Store.{
  Document, StoreEntry, MemoryStore, assign_id, new_entry, put_entry, upsert_one, upsert_all,
  upsert, zip, by_id, collect, find,
}

-- Each identifier differs from those behind it.
abbrev pub IsDistinct : List String → Type 0
IsDistinct [] = Unit
IsDistinct (id ∷ ids) = (any (λ i. i == id) ids ≡ false) × IsDistinct ids

or_false : (b : Bool) → (b || false) ≡ b
or_false true = refl
or_false false = refl

or_again : (a b : Bool) → (a || b) ≡ ((a || b) || a)
or_again true b = refl
or_again false true = refl
or_again false false = refl

or_assoc : (a b c : Bool) → (a || (b || c)) ≡ ((a || b) || c)
or_assoc true b c = refl
or_assoc false b c = refl

pub apart : (a b : String) → (b == a) ≡ false → (a == b) ≡ false
apart a b e = ground (arith, eq_iff a b, eq_iff b a)

pub if_true : (b : Bool) (x y : Option Document) → b ≡ true → (if b then x else y) ≡ x
if_true true x y e = refl
if_true false x y e = absurd (clash false e refl)

pub if_false : (b : Bool) (x y : Option Document) → b ≡ false → (if b then x else y) ≡ y
if_false true x y e = absurd (clash true refl e)
if_false false x y e = refl

pub unlike : (a b : String) (f : String → Bool) → f a ≡ true → f b ≡ false → (a == b) ≡ false
unlike a b f e k = elim (Bool-cases (a == b)) [
  | inl same ↦ absurd (clash (f b) (ap f (sym ((eq_iff a b).0 same)) ∙ e) k)
  | inr other ↦ other
]

collect-some :
    (m : Dict Document) (id : String) (doc : Document) (ids : List String)
    → lookup id m ≡ some doc
    → collect m (id ∷ ids) ≡ doc ∷ collect m ids
unfolding collect
collect-some m id doc ids e = rw (e, collect) refl

module _ {V : Type 0} where
  abbrev pub HasDistinct : List (StoreEntry V) → Type 0
  HasDistinct [] = Unit
  HasDistinct (entry ∷ entries) =
      (any (λ e. e.id == entry.id) entries ≡ false) × HasDistinct entries

  -- What the map of `Find` holds: the last entry with the identifier.
  abbrev pub last_doc : String → List (StoreEntry V) → Option Document → Option Document
  last_doc id [] found = found
  last_doc id (entry ∷ entries) found =
      last_doc id entries (if entry.id == id then some entry.doc else found)

  pub lookup-by_id :
      (id : String) (entries : List (StoreEntry V)) (m : Dict Document)
      → lookup id (by_id m entries) ≡ last_doc id entries (lookup id m)
  unfolding by_id
  lookup-by_id id [] m = refl
  lookup-by_id id (entry ∷ entries) m =
      lookup-by_id id entries (insert entry.id entry.doc m)
      ∙ ap (last_doc id entries) (lookup-insert entry.id id entry.doc m)

  last_doc-absent :
      (id : String) (entries : List (StoreEntry V)) (found : Option Document)
      → any (λ e. e.id == id) entries ≡ false
      → last_doc id entries found ≡ found
  last_doc-absent id [] found e = refl
  last_doc-absent id (entry ∷ entries) found e =
      let (here, later) = or_none (entry.id == id) (any (λ e. e.id == id) entries) e in
      rw here (last_doc-absent id entries found later)

  -- An entry that was put is found at its identifier, and the others are as before.
  last_doc-put_entry :
      (new : StoreEntry V) (id : String) (entries : List (StoreEntry V)) (found : Option Document)
      → HasDistinct entries
      → last_doc id (put_entry new entries) found
        ≡ (if new.id == id then some new.doc else last_doc id entries found)
  unfolding put_entry
  last_doc-put_entry new id [] found h = refl
  last_doc-put_entry new id (entry ∷ entries) found h = elim (Bool-cases (entry.id == new.id)) [
    | inr other ↦
        rw other
          (last_doc-put_entry new id entries (if entry.id == id then some entry.doc else found) h.1)
    | inl same ↦
        let named = (eq_iff entry.id new.id).0 same in
        rw same (elim (Bool-cases (new.id == id)) [
          | inl hit ↦ rw hit (
              ap (last_doc id entries) (if_true (new.id == id) (some new.doc) found hit)
              ∙ last_doc-absent id entries (some new.doc) (
                  subst (λ i. any (λ e. e.id == i) entries ≡ false)
                    (named ∙ (eq_iff new.id id).0 hit) h.0))
          | inr miss ↦ rw miss (
              ap (last_doc id entries) (
                if_false (new.id == id) (some new.doc) found miss
                ∙ sym (
                    if_false (entry.id == id) (some entry.doc) found
                      (subst (λ i. (i == id) ≡ false) (sym named) miss))))
        ])
  ]

  any-put_entry :
      (new : StoreEntry V) (id : String) (entries : List (StoreEntry V))
      → any (λ e. e.id == id) (put_entry new entries)
        ≡ (any (λ e. e.id == id) entries || (new.id == id))
  unfolding put_entry
  any-put_entry new id [] = or_false (new.id == id)
  any-put_entry new id (entry ∷ entries) = elim (Bool-cases (entry.id == new.id)) [
    | inl same ↦
        rw (same, ap (λ i. i == id) ((eq_iff entry.id new.id).0 same))
          (or_again (new.id == id) (any (λ e. e.id == id) entries))
    | inr other ↦
        rw (other, any-put_entry new id entries)
          (or_assoc (entry.id == id) (any (λ e. e.id == id) entries) (new.id == id))
  ]

  put_entry-HasDistinct :
      (new : StoreEntry V) (entries : List (StoreEntry V))
      → HasDistinct entries
      → HasDistinct (put_entry new entries)
  unfolding put_entry
  put_entry-HasDistinct new [] h = (refl, tt)
  put_entry-HasDistinct new (entry ∷ entries) h = elim (Bool-cases (entry.id == new.id)) [
    | inl same ↦ rw same (
      subst (λ i. any (λ e. e.id == i) entries ≡ false) ((eq_iff entry.id new.id).0 same) h.0,
      h.1,
    )
    | inr other ↦ rw other (
      any-put_entry new entry.id entries ∙ rw (h.0, apart new.id entry.id other) refl,
      put_entry-HasDistinct new entries h.1,
    )
  ]

  -- The documents as they are stored, by the identifiers that were given or assigned.
  abbrev pub stored : List String → List (Document × V) → List Document
  stored [] docs = []
  stored (id ∷ ids) [] = []
  stored (id ∷ ids) ((doc, v) ∷ docs) = record doc { id = id } ∷ stored ids docs

-- The identifiers that `Upsert` answers: those of the documents, and for a document without one the
-- text of the counter, which counts on.
abbrev pub identifiers : (Int64 → String) → Int64 → List Document → List String
identifiers itoa n [] = []
identifiers itoa n (doc ∷ docs) =
    let assigned = identifiers itoa (add64 n 1) docs in
    let given = identifiers itoa n docs in
    if doc.id == "" then itoa (add64 n 1) ∷ assigned else doc.id ∷ given

identifiers-assign_id :
    (itoa : Int64 → String) (n : Int64) (doc : Document) (docs : List Document)
    → identifiers itoa n (doc ∷ docs)
      ≡ (assign_id itoa n doc).0 ∷ identifiers itoa (assign_id itoa n doc).1 docs
identifiers-assign_id itoa n doc docs = elim (Bool-cases (doc.id == "")) [
  | inl unnamed ↦ rw unnamed refl
  | inr named ↦ rw named refl
]

-- The documents, each with its identifier.
abbrev pub identified : List Document → List String → List Document
identified [] ids = []
identified (doc ∷ docs) [] = []
identified (doc ∷ docs) (id ∷ ids) = record doc { id = id } ∷ identified docs ids

module _ {V : Type 0} (itoa : Int64 → String) where
  upsert_all-HasDistinct :
      (s : MemoryStore V) (docs : List (Document × V))
      → HasDistinct s.entries
      → HasDistinct (upsert_all itoa s docs).0.entries
  unfolding upsert_all
  upsert_all-HasDistinct s [] h = h
  upsert_all-HasDistinct s ((doc, v) ∷ docs) h =
      upsert_all-HasDistinct (upsert_one itoa s doc v) docs
        (put_entry-HasDistinct (new_entry (assign_id itoa s.next_id doc).0 doc v) s.entries h)

  -- The documents of other identifiers are as before.
  upsert_all-other :
      (id : String) (s : MemoryStore V) (docs : List (Document × V)) (found : Option Document)
      → HasDistinct s.entries
      → any (λ i. i == id) (upsert_all itoa s docs).1 ≡ false
      → last_doc id (upsert_all itoa s docs).0.entries found ≡ last_doc id s.entries found
  unfolding upsert_all
  upsert_all-other id s [] found h e = refl
  upsert_all-other id s ((doc, v) ∷ docs) found h e =
      let new = new_entry (assign_id itoa s.next_id doc).0 doc v in
      let (here, later) = or_none (new.id == id) _ e in
      upsert_all-other id (upsert_one itoa s doc v) docs found
        (put_entry-HasDistinct new s.entries h) later
      ∙ last_doc-put_entry new id s.entries found h
      ∙ if_false (new.id == id) (some new.doc) (last_doc id s.entries found) here

  collect-stored :
      (s : MemoryStore V) (docs : List (Document × V))
      → HasDistinct s.entries
      → IsDistinct (upsert_all itoa s docs).1
      → collect (by_id [] (upsert_all itoa s docs).0.entries) (upsert_all itoa s docs).1
        ≡ stored (upsert_all itoa s docs).1 docs
  unfolding upsert_all collect lookup
  collect-stored s [] h distinct = refl
  collect-stored s ((doc, v) ∷ docs) h distinct =
      let new = new_entry (assign_id itoa s.next_id doc).0 doc v in
      let next = upsert_one itoa s doc v in
      let fresh = put_entry-HasDistinct new s.entries h in
      let last = (upsert_all itoa next docs).0.entries in
      let found : lookup new.id (by_id [] last) ≡ some new.doc =
        lookup-by_id new.id last []
        ∙ upsert_all-other new.id next docs none fresh distinct.0
        ∙ last_doc-put_entry new new.id s.entries none h
        ∙ if_true (new.id == new.id) (some new.doc) (last_doc new.id s.entries none)
            (eq_refl new.id) in
      collect-some (by_id [] last) new.id new.doc (upsert_all itoa next docs).1 found
      ∙ ap (λ rest. new.doc ∷ rest) (collect-stored next docs fresh distinct.1)

  find-collect :
      (s : MemoryStore V) (ids : List String) → find s ids ≡ collect (by_id [] s.entries) ids
  unfolding find collect
  find-collect s [] = refl
  find-collect s (id ∷ ids) = refl

  upsert_all-identifiers :
      (s : MemoryStore V) (docs : List Document) (embeddings : List V)
      → length docs ≡ length embeddings
      → (upsert_all itoa s (zip docs embeddings)).1 ≡ identifiers itoa s.next_id docs
  unfolding upsert_all
  upsert_all-identifiers s [] embeddings same = refl
  upsert_all-identifiers s (doc ∷ docs) [] same = absurd (omega (arith, same))
  upsert_all-identifiers s (doc ∷ docs) (v ∷ vs) same =
      ap (λ ids. (assign_id itoa s.next_id doc).0 ∷ ids)
        (upsert_all-identifiers (upsert_one itoa s doc v) docs vs (omega (arith, same)))
      ∙ sym (identifiers-assign_id itoa s.next_id doc docs)

  stored-identified :
      (ids : List String) (docs : List Document) (embeddings : List V)
      → length docs ≡ length embeddings
      → stored ids (zip docs embeddings) ≡ identified docs ids
  stored-identified [] [] vs same = refl
  stored-identified [] (doc ∷ docs) vs same = refl
  stored-identified (id ∷ ids) [] vs same = refl
  stored-identified (id ∷ ids) (doc ∷ docs) [] same = absurd (omega (arith, same))
  stored-identified (id ∷ ids) (doc ∷ docs) (v ∷ vs) same =
      ap (λ rest. record doc { id = id } ∷ rest)
        (stored-identified ids docs vs (omega (arith, same)))

  -- An upsert of as many embeddings as documents, whose identifiers (given, or assigned by the counter)
  -- are distinct, into a store of distinct identifiers: it succeeds and answers those identifiers, the
  -- identifiers of the store are distinct again, and `Find` of the answer gives all documents back, each
  -- with its identifier, in their order.
  pub find-upsert :
      (s : MemoryStore V) (docs : List Document) (embeddings : List V)
      → HasDistinct s.entries
      → length docs ≡ length embeddings
      → IsDistinct (identifiers itoa s.next_id docs)
      → let ids = identifiers itoa s.next_id docs in
        (s' : MemoryStore V) × (upsert itoa s docs embeddings ≡ (s', ok ids))
        × HasDistinct s'.entries
        × (find s' ids ≡ identified docs ids)
  unfolding upsert
  find-upsert s docs embeddings h same distinct =
      let pairs = zip docs embeddings in
      let done = upsert_all itoa s pairs in
      let named = upsert_all-identifiers s docs embeddings same in
      (
        done.0,
        rw (nat_eq-true same) (ap (λ ids. (done.0, ok ids)) named),
        upsert_all-HasDistinct s pairs h,
        subst (λ ids. find done.0 ids ≡ identified docs ids) named
            (find-collect done.0 done.1
              ∙ collect-stored s pairs h (subst IsDistinct (sym named) distinct)
              ∙ stored-identified done.1 docs embeddings same),
      )
