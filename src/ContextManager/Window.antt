-- ===== src/ContextManager/Window.antt =====
-- The boundary that `Window` chooses.
use gude_agents.Prelude.{
  ℕ, zero, suc, ◌-◌, ◌<◌, ◌≤◌, ◌≡◌, refl, ◌⊎◌, inl, inr, Bool, true, false, Result, ok, arith,
  tests, leb, Bool-cases,
}
use gude_agents.Conversation.{ConversationSnapshot}
use gude_agents.ContextManager.{
  has_orphaned_tool_result, boundary_from, history_boundary, max_uint64,
}

module _ {E : Type 0} (load_after : ℕ → Result E ConversationSnapshot)
    (snapshot : ℕ → ConversationSnapshot) (reads : (n : ℕ) → load_after n ≡ ok (snapshot n)) where
  abbrev orphaned : ℕ → Bool
  orphaned n = has_orphaned_tool_result (snapshot n).messages

  -- The latest place up to `limit` where no result is cut off from its call, or the start.
  pub record IsLatest (limit b : ℕ) : Type 0 where
    pub within : b ≤ limit
    pub whole : (orphaned b ≡ false) ⊎ (b ≡ 0)
    pub latest : (c : ℕ) → b < c → c ≤ limit → orphaned c ≡ true

  IsLatest-down : (n b : ℕ) → orphaned (suc n) ≡ true → IsLatest n b → IsLatest (suc n) b
  IsLatest-down n b o l = record {
    within = omega (arith, l.within);
    whole = l.whole;
    latest = λ c h k. elim (Bool-cases (leb c n)) [
      | inl below ↦ l.latest c h (omega tests)
      | inr top ↦ let e : c ≡ suc n = ground arith in rw e o
    ];
  }

  boundary_from-IsLatest : (n : ℕ) → (b : ℕ) × (boundary_from load_after n ≡ ok b) × IsLatest n b
  unfolding boundary_from
  boundary_from-IsLatest zero = (
    0,
    rw (reads 0),
    record { within = omega arith; whole = inr refl; latest = λ c h k. absurd (omega arith) },
  )
  boundary_from-IsLatest (suc n) = elim (Bool-cases (orphaned (suc n))) [
    | inr whole ↦ (
      suc n,
      rw (reads (suc n), whole),
      record { within = omega arith; whole = inl whole; latest = λ c h k. absurd (omega arith) },
    )
    | inl split ↦
        let (b, found, l) = boundary_from-IsLatest n in
        (b, rw (reads (suc n), split) found, IsLatest-down n b split l)
  ]

  -- On a store that can be read, `HistoryBoundary` keeps at least the last `count` messages, and of
  -- the boundaries that do, it takes the latest at which no tool result is cut off from its call, or
  -- the start of the conversation where there is none.
  pub history_boundary-IsLatest :
      (count : ℕ)
      → (b : ℕ) × (history_boundary load_after count ≡ ok b)
        × IsLatest ((snapshot max_uint64).last_sequence - count) b
  unfolding history_boundary
  history_boundary-IsLatest count =
      let last = (snapshot max_uint64).last_sequence in
      elim (Bool-cases (leb last count)) [
        | inl short ↦
            let none_left : last - count ≡ 0 = omega tests in
            (
              0,
              rw (reads max_uint64, short),
              rw none_left (record {
                within = omega arith;
                whole = inr refl;
                latest = λ c h k. absurd (omega arith);
              }),
            )
        | inr long ↦
            let (b, found, l) = boundary_from-IsLatest (last - count) in
            (b, rw (reads max_uint64, long) found, l)
      ]
