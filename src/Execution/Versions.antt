-- ===== src/Execution/Versions.antt =====
-- Versions as compare-and-swap tokens: sequences of writes to the store of
-- agent/execution/memory.go.
use gude_agents.Prelude.{
  ℕ, ◌+◌, ◌≤◌, String, ◌⊎◌, inl, inr, ◌≡◌, ◌≢◌, refl, sym, ap, ◌∙◌, List, [], ◌∷◌, none, some, err,
  nat_eq, nat_eq_iff, ◌==◌, eq_iff, arith, Bool-cases, Option-cases, Result-cases,
}
use gude_agents.Dict.{lookup, insert, lookup-insert}
use gude_agents.Message.{Bytes}
use gude_agents.Execution.{
  Execution, conflict, Json, MemoryRecord, Memory, stamped, validate_id, marshal_execution, create,
  save, next_version,
}
use gude_agents.Execution.Store.{IsCurrent, Codec, save_outcome, check_expected-range, next_exact}

some_version : {r s : MemoryRecord} → some r ≡ some s → r.version ≡ s.version
some_version e = ap (λ o. elim o [ none ↦ 0 | some t ↦ t.version ]) e

none≢found :
    (m : Memory) (id j : String) (s : MemoryRecord)
    → j ≡ id
    → lookup j m ≡ none
    → lookup id m ≢ some s
none≢found m id j s e f =
    λ g. let z : none ≡ some s = sym f ∙ ap (λ k. lookup k m) e ∙ g in ground arith

same_record :
    (m : Memory) (id j : String) (r s : MemoryRecord)
    → j ≡ id
    → lookup j m ≡ some r
    → lookup id m ≡ some s
    → r.version ≡ s.version
same_record m id j r s e f g = some_version (sym f ∙ ap (λ k. lookup k m) e ∙ g)

-- A write that some client sends.
pub data Write : Type 0 where
  creating : Execution → Write
  saving : Execution → ℕ → Write

module _ (json : Json) where
  unfoldable pub write : Memory → Write → Memory
  write m (creating x) = (create json m x).0
  write m (saving x expected) = (save json m x expected).0

  unfoldable pub writes : Memory → List Write → Memory
  writes m [] = m
  writes m (w ∷ ws) = writes (write m w) ws

  create_effect :
      (m : Memory) (x : Execution)
      → ((create json m x).0 ≡ m)
        ⊎ ((lookup x.id m ≡ none)
            × ((payload : Bytes) × ((create json m x).0
                  ≡ insert x.id (record { version = 1; payload = payload }) m)))
  unfolding create
  create_effect m x = elim (Option-cases (validate_id x.id)) [
    | inr (e, bad) ↦ inl (rw (bad, create) refl)
    | inl fine ↦ elim (Result-cases (marshal_execution json x)) [
      | inl (e, bad) ↦ inl (rw (fine, create) (rw (bad, create) refl))
      | inr (payload, good) ↦ elim (Option-cases (lookup x.id m)) [
        | inl absent ↦
            inr
              (absent, (payload, rw (fine, create) (rw (good, create) (rw (absent, create) refl))))
        | inr (r, present) ↦ inl (rw (fine, create) (rw (good, create) (rw (present, create) refl)))
      ]
    ]
  ]

  save_effect :
      (m : Memory) (x : Execution) (expected : ℕ)
      → ((save json m x expected).0 ≡ m)
        ⊎ (IsCurrent m x.id expected
            × ((payload : Bytes) × ((save json m x expected).0
                  ≡ insert x.id (record { version = next_version expected; payload = payload }) m)))
  unfolding save
  save_effect m x expected = elim (Option-cases (validate_id x.id)) [
    | inr (e, bad) ↦ inl (rw (bad, save) refl)
    | inl fine ↦ elim (check_expected-range x.id expected) [
      | inr (_, refused) ↦ inl (rw (fine, save) (rw (refused, save) refl))
      | inl (low, high, checked) ↦ elim (Result-cases (marshal_execution json x)) [
        | inl (e, bad) ↦ inl (rw (fine, save) (rw (checked, save) (rw (bad, save) refl)))
        | inr (payload, good) ↦ elim (Option-cases (lookup x.id m)) [
          | inl absent ↦
              inl (rw (fine, save) (rw (checked, save) (rw (good, save) (rw (absent, save) refl))))
          | inr (r, present) ↦ elim (Bool-cases (nat_eq r.version expected)) [
            | inl current ↦ inr (
              (low, high, (r, present, (nat_eq_iff r.version expected).0 current)),
              (
                payload,
                rw (fine, save)
                    (rw (checked, save)
                      (rw (good, save) (rw (present, save) (rw (current, save) refl)))),
              ),
            )
            | inr stale ↦ inl (
                rw (fine, save)
                  (rw (checked, save)
                    (rw (good, save) (rw (present, save) (rw (stale, save) refl)))))
          ]
        ]
      ]
    ]
  ]

  -- The record of an identifier is there, at a version of at least `n`.
  abbrev pub AtLeast : Memory → String → ℕ → Type 0
  AtLeast m id n = (r : MemoryRecord) × (lookup id m ≡ some r) × (n ≤ r.version)

  grows :
      (m : Memory) (id j : String) (n expected : ℕ)
      → j ≡ id
      → AtLeast m id n
      → IsCurrent m j expected
      → n ≤ next_version expected
  grows m id j n expected e (s, found, least) now =
      let (low, high, (r, here, version)) = now in
      omega (arith, next_exact j m expected now, same_record m id j r s e here found)

  insert-AtLeast :
      (m : Memory) (id j : String) (n : ℕ) (r : MemoryRecord)
      → AtLeast m id n
      → (j ≡ id → n ≤ r.version)
      → AtLeast (insert j r m) id n
  insert-AtLeast m id j n r (s, found, least) h = elim (Bool-cases (j == id)) [
    | inl same ↦ (r, rw (lookup-insert j id r m) (rw same refl), h ((eq_iff j id).0 same))
    | inr other ↦ (s, rw (lookup-insert j id r m) (rw other found), least)
  ]

  write-AtLeast :
      (m : Memory) (id : String) (n : ℕ) (w : Write) → AtLeast m id n → AtLeast (write m w) id n
  unfolding write
  write-AtLeast m id n (creating x) h = elim (create_effect m x) [
    | inl same ↦ rw same h
    | inr (absent, (payload, new)) ↦ rw new (
        insert-AtLeast m id x.id n _ h
          (λ here. elim (none≢found m id x.id h.0 here absent h.1) [ ]))
  ]
  write-AtLeast m id n (saving x expected) h = elim (save_effect m x expected) [
    | inl same ↦ rw same h
    | inr (now, (payload, new)) ↦
        rw new (insert-AtLeast m id x.id n _ h (λ here. grows m id x.id n expected here h now))
  ]

  pub writes-AtLeast :
      (m : Memory) (id : String) (n : ℕ) (ws : List Write)
      → AtLeast m id n
      → AtLeast (writes m ws) id n
  unfolding writes
  writes-AtLeast m id n [] h = h
  writes-AtLeast m id n (w ∷ ws) h = writes-AtLeast (write m w) id n ws (write-AtLeast m id n w h)

  -- A version is used once: after a save at a version has succeeded, and whatever is written then,
  -- every other save of that execution at that version is a conflict and changes nothing.
  pub save_once :
      (c : Codec json) (m : Memory) (x y : Execution) (expected : ℕ) (payload other : Bytes)
      (ws : List Write)
      → json.marshal (stamped x 0) ≡ some payload
      → json.marshal (stamped y 0) ≡ some other
      → x.id ≢ ""
      → y.id ≡ x.id
      → IsCurrent m x.id expected
      → let m' = writes (save json m x expected).0 ws in
        save json m' y expected ≡ (m', err (conflict "save" y.id))
  save_once c m x y expected payload other ws ex ey named same now =
      let done = (save_outcome json c x payload ex named m expected).0 now in
      let m' = writes (save json m x expected).0 ws in
      let least =
        writes-AtLeast (save json m x expected).0 x.id (expected + 1) ws
          (_, done.1.1, omega arith) in
      (save_outcome json c y other ey (λ e. named (sym same ∙ e)) m' expected).1 (λ cur.
        omega
          (arith, same_record m' x.id y.id cur.2.0 least.0 same cur.2.1 least.1, cur.2.2, least.2))
