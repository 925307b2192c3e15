-- ===== src/Execution/Store.antt =====
-- The execution store of agent/execution/memory.go as a map of versioned records.
use gude_agents.Prelude.{
  ℕ, ◌+◌, ◌≤◌, ◌<◌, String, ◌⊎◌, inl, inr, ◌≡◌, ◌≢◌, refl, none, some, ok, err, nat_eq-true,
  nat_eq-false, eq_iff, eq_refl, arith, Option-cases,
}
use gude_agents.Words.{two63}
use gude_agents.Dict.{lookup, insert, lookup-insert}
use gude_agents.Message.{Bytes}
use gude_agents.Execution.{
  Execution, conflict, Json, MemoryRecord, Memory, stamped, next_version, validate_id,
  check_expected, marshal_execution, unmarshal_execution, create, load, save,
}

-- What the stores rely on in package encoding/json: what was encoded is decoded again, to a value
-- with the same identifier (raw messages are compacted on the way).
pub record Codec (json : Json) : Type 0 where
  pub normal : Execution → Execution
  pub normal_id : (x : Execution) → (normal x).id ≡ x.id
  pub decodes :
      (x : Execution) (payload : Bytes)
      → json.marshal x ≡ some payload
      → json.unmarshal payload ≡ some (normal x)

-- The execution as it is stored at a version.
abbrev pub kept : {json : Json} → Codec json → Execution → ℕ → Execution
kept c x n = stamped (c.normal (stamped x 0)) n

-- The record of `id` is at a version that `Save` can be asked for.
abbrev pub IsCurrent : Memory → String → ℕ → Type 0
IsCurrent m id expected =
    (0 < expected)
    × (expected < two63)
    × ((r : MemoryRecord) × (lookup id m ≡ some r) × (r.version ≡ expected))

pub check_expected-range :
    (id : String) (expected : ℕ)
    → ((0 < expected) × (expected < two63) × (check_expected id expected ≡ none))
      ⊎ (((expected ≡ 0) ⊎ (two63 ≤ expected))
          × (check_expected id expected ≡ some (conflict "save" id)))
unfolding check_expected
check_expected-range id expected = ground arith

pub next_exact :
    (id : String) (m : Memory) (expected : ℕ)
    → IsCurrent m id expected
    → next_version expected ≡ expected + 1
next_exact id m expected (low, high, _) = omega arith

module _ (json : Json) (c : Codec json) (x : Execution) (payload : Bytes)
    (encodes : json.marshal (stamped x 0) ≡ some payload) (named : x.id ≢ "") where
  valid : validate_id x.id ≡ none
  unfolding validate_id
  valid = ground (arith, eq_iff x.id "")

  unmarshal_kept : (n : ℕ) → unmarshal_execution json payload x.id n ≡ ok (kept c x n)
  unfolding unmarshal_execution
  unmarshal_kept n =
      rw (c.decodes (stamped x 0) payload encodes, unmarshal_execution)
        (rw (c.normal_id (stamped x 0), unmarshal_execution)
          (rw (eq_refl x.id, unmarshal_execution) refl))

  marshal_kept : marshal_execution json x ≡ ok payload
  unfolding marshal_execution
  marshal_kept = rw (encodes, marshal_execution) refl

  -- The record of `x` is the one written at version `n`: it loads as `x`, and the others are as
  -- before.
  abbrev pub Written : Memory → Memory → ℕ → Type 0
  Written m m' n =
      (load json m' x.id ≡ ok (kept c x n))
      × (lookup x.id m' ≡ some (record { version = n; payload = payload }))
      × ((j : String) → x.id ≢ j → lookup j m' ≡ lookup j m)

  insert-Written :
      (m : Memory) (n : ℕ) → Written m (insert x.id (record { version = n; payload = payload }) m) n
  insert-Written m n =
      let r : MemoryRecord = record { version = n; payload = payload } in
      let found : lookup x.id (insert x.id r m) ≡ some r =
        rw (lookup-insert x.id x.id r m) (rw (eq_refl x.id) refl) in
      (
        unfold load in rw (valid, load) (rw found (unmarshal_kept n)),
        found,
        λ j h. rw (lookup-insert x.id j r m) (ground (arith, eq_iff x.id j)),
      )

  create_absent :
      (m : Memory)
      → lookup x.id m ≡ none
      → create json m x
        ≡ (insert x.id (record { version = 1; payload = payload }) m, ok (kept c x 1))
  unfolding create
  create_absent m absent =
      rw (valid, create)
        (rw (marshal_kept, create) (rw (absent, create) (rw (unmarshal_kept 1, create) refl)))

  create_present :
      (m : Memory) (r : MemoryRecord)
      → lookup x.id m ≡ some r
      → create json m x ≡ (m, err (conflict "create" x.id))
  unfolding create
  create_present m r present =
      rw (valid, create) (rw (marshal_kept, create) (rw (present, create) refl))

  -- `Create` of an identifier that is absent stores the execution at version 1, where `Load` finds it. A
  -- present identifier is a conflict, and nothing changes.
  create_outcome :
      (m : Memory)
      → (lookup x.id m ≡ none
          → ((create json m x).1 ≡ ok (kept c x 1)) × Written m (create json m x).0 1)
        × ((r : MemoryRecord)
            → lookup x.id m ≡ some r
            → create json m x ≡ (m, err (conflict "create" x.id)))
  create_outcome m = (
    λ absent. rw (create_absent m absent) (refl, insert-Written m 1),
    λ r present. create_present m r present,
  )

  save_current :
      (m : Memory) (expected : ℕ)
      → IsCurrent m x.id expected
      → save json m x expected ≡ (
        insert x.id (record { version = next_version expected; payload = payload }) m,
        ok (kept c x (next_version expected)),
      )
  unfolding save
  save_current m expected (low, high, (r, found, same)) =
      elim (check_expected-range x.id expected) [
        | inl (_, _, fine) ↦
            rw (valid, save)
              (rw (fine, save)
                (rw (marshal_kept, save)
                  (rw (found, save)
                    (rw (nat_eq-true same, save)
                      (rw (unmarshal_kept (next_version expected), save) refl)))))
        | inr (out, _) ↦ ground arith
      ]

  save_stale :
      (m : Memory) (expected : ℕ)
      → ¬ IsCurrent m x.id expected
      → save json m x expected ≡ (m, err (conflict "save" x.id))
  unfolding save
  save_stale m expected h = elim (check_expected-range x.id expected) [
    | inl (low, high, fine) ↦
        rw (valid, save)
          (rw (fine, save)
            (rw (marshal_kept, save)
              (elim (Option-cases (lookup x.id m)) [
                | inl missing ↦ rw (missing, save) refl
                | inr (r, found) ↦
                    rw (found, save)
                      (rw (nat_eq-false (λ same. h (low, high, (r, found, same))), save) refl)
              ])))
    | inr (_, refused) ↦ rw (valid, save) (rw (refused, save) refl)
  ]

  -- `Save` at the current version stores the execution at the next version, where `Load` finds it. At
  -- any other version, and for a missing record, it is a conflict, and nothing changes.
  pub save_outcome :
      (m : Memory) (expected : ℕ)
      → (IsCurrent m x.id expected
          → ((save json m x expected).1 ≡ ok (kept c x (expected + 1)))
            × Written m (save json m x expected).0 (expected + 1))
        × (¬ IsCurrent m x.id expected → save json m x expected ≡ (m, err (conflict "save" x.id)))
  save_outcome m expected = (
    λ now.
        rw (save_current m expected now)
          (rw (next_exact x.id m expected now) (refl, insert-Written m (expected + 1))),
    save_stale m expected,
  )
