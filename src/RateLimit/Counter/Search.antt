-- ===== src/RateLimit/Counter/Search.antt =====
-- The standard library's `sort.Search`: binary search for the first position that passes a test.
use gude_agents.Prelude.{
  ℕ, zero, suc, ◌+◌, ◌/◌, ◌≤◌, ◌<◌, ◌≡◌, Bool, true, false, arith, tests, ltb, Bool-cases, inl, inr,
}

-- `for i < j { h := (i + j) / 2; if !f(h) { i = h + 1 } else { j = h } }`; the distance falls in
-- each round, so `j - i` rounds are enough.
search_between : ℕ → (ℕ → Bool) → ℕ → ℕ → ℕ
search_between zero f i j = i
search_between (suc fuel) f i j = elim (ltb i j) [
  | false ↦ i
  | true ↦ elim (f ((i + j) / 2)) [
    | false ↦ search_between fuel f ((i + j) / 2 + 1) j
    | true ↦ search_between fuel f i ((i + j) / 2)
  ]
]

unfoldable pub search : ℕ → (ℕ → Bool) → ℕ
unfolding search_between
search n f = search_between n f 0 n

-- `k` is the first position below `n` that passes, or `n`.
pub record IsFirst (f : ℕ → Bool) (n k : ℕ) : Type 0 where
  pub within : k ≤ n
  pub before : (i : ℕ) → i < k → f i ≡ false
  pub after : (i : ℕ) → k ≤ i → i < n → f i ≡ true

module _ (f : ℕ → Bool) (n : ℕ) (mono : (a b : ℕ) → a ≤ b → f a ≡ true → f b ≡ true) where
  fails_below : (a b : ℕ) → a ≤ b → f b ≡ false → f a ≡ false
  fails_below a b le h = elim (Bool-cases (f a)) [
    | inl passes ↦ cc (mono a b le passes, h)
    | inr fails ↦ fails
  ]

  IsFirst-at :
      (i j : ℕ)
      → i ≡ j
      → j ≤ n
      → ((a : ℕ) → a < i → f a ≡ false)
      → ((a : ℕ) → j ≤ a → a < n → f a ≡ true)
      → IsFirst f n i
  IsFirst-at i j e jn lo hi = record {
    within = omega arith;
    before = lo;
    after = λ a h k. hi a (omega arith) k;
  }

  -- The loop's invariant: what is left of `i` fails, and what is from `j` on passes.
  search_between-IsFirst :
      (fuel i j : ℕ)
      → j ≤ i + fuel
      → i ≤ j
      → j ≤ n
      → ((a : ℕ) → a < i → f a ≡ false)
      → ((a : ℕ) → j ≤ a → a < n → f a ≡ true)
      → IsFirst f n (search_between fuel f i j)
  unfolding search_between
  search_between-IsFirst zero i j enough le jn lo hi = IsFirst-at i j (omega arith) jn lo hi
  search_between-IsFirst (suc fuel) i j enough le jn lo hi = elim (Bool-cases (ltb i j)) [
    | inr done ↦ rw (done, search_between) (IsFirst-at i j (ground arith) jn lo hi)
    | inl more ↦
        let mid : i ≤ (i + j) / 2 = omega tests in
        let room : (i + j) / 2 < j = omega tests in
        elim (Bool-cases (f ((i + j) / 2))) [
          | inl passes ↦
              rw (more, passes, search_between)
                (search_between-IsFirst fuel i ((i + j) / 2) (omega arith) mid (omega arith) lo
                  (λ a h k. mono ((i + j) / 2) a h passes))
          | inr fails ↦
              rw (more, fails, search_between)
                (search_between-IsFirst fuel ((i + j) / 2 + 1) j (omega arith) (omega arith) jn
                  (λ a h. fails_below a ((i + j) / 2) (omega arith) fails) hi)
        ]
  ]

  -- `Search` finds the first position that passes, when a position that passes is followed by such.
  pub search-IsFirst : IsFirst f n (search n f)
  unfolding search
  search-IsFirst =
      search_between-IsFirst n 0 n (omega arith) (omega arith) (omega arith)
        (λ a h. absurd (omega arith)) (λ a h k. absurd (omega arith))
