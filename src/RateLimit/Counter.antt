-- ===== src/RateLimit/Counter.antt =====
-- The windowed counters of agent/ratelimit/store.go. The methods on `*memoryCounter` return the
-- counter that they leave behind.
pub mod Search
pub mod Prune
use gude_agents.Prelude.{
  ℕ, ◌+◌, ◌-◌, Bool, true, false, not, ◌||◌, List, [], ◌∷◌, ◌++◌, Option, none, some, length, drop,
  get_elem?, ltb, leb, if◌then◌else◌,
}
use gude_agents.Words.{Int64, add64, sub64, slt, sle, is_neg, add_time, sub_time, two64}
use Search.{search}

-- agent/ratelimit/limiter.go
pub data WindowStrategy : Type 0 where
  sliding_window fixed_window : WindowStrategy

pub record TokenEvent : Type 0 where
  pub at : ℕ
  pub tokens : Int64

-- The zero time is `none`.
pub record Counter : Type 0 where
  pub strategy : WindowStrategy
  pub window : Int64
  pub requests : List ℕ
  pub tokens : List TokenEvent
  pub reserved : Int64
  pub fixed_start : Option ℕ
  pub fixed_requests : Int64
  pub fixed_tokens : Int64

-- `&memoryCounter{strategy: strategy, window: window}`
unfoldable pub new_counter : WindowStrategy → Int64 → Counter
new_counter strategy window = record {
  strategy = strategy;
  window = window;
  requests = [];
  tokens = [];
  reserved = 0;
  fixed_start = none;
  fixed_requests = 0;
  fixed_tokens = 0;
}

-- `!events[i].Before(cutoff)`, of events that happened at `time`; the search asks at positions of
-- the slice only.
unfoldable pub kept_at {ℓ} : {A : Type ℓ} → (A → ℕ) → List A → ℕ → ℕ → Bool
kept_at time events cutoff i = elim (get_elem? events i) [
  | none ↦ true
  | some e ↦ not (ltb (time e) cutoff)
]

unfoldable pub prune_times : List ℕ → ℕ → List ℕ
prune_times events cutoff = drop (search (length events) (kept_at (λ t. t) events cutoff)) events

unfoldable pub prune_token_events : List TokenEvent → ℕ → List TokenEvent
prune_token_events events cutoff =
    drop (search (length events) (kept_at (λ e. e.at) events cutoff)) events

-- `c.fixedStart.IsZero() || now.Sub(c.fixedStart) >= c.window`
unfoldable pub rolls_over : Counter → ℕ → Bool
rolls_over c now = elim c.fixed_start [
  | none ↦ true
  | some start ↦ sle c.window (sub_time now start)
]

unfoldable pub prune_fixed : Counter → ℕ → Counter
unfolding rolls_over
prune_fixed c now =
    if rolls_over c now
    then record c { fixed_start = some now; fixed_requests = 0; fixed_tokens = 0; reserved = 0 }
    else c

unfoldable pub prune_sliding : Counter → ℕ → Counter
prune_sliding c now =
    let cutoff = add_time now (sub64 0 c.window) in
    record c {
      requests = prune_times c.requests cutoff;
      tokens = prune_token_events c.tokens cutoff;
    }

unfoldable pub prune : Counter → ℕ → Counter
unfolding prune_fixed prune_sliding
prune c now = elim c.strategy [
  | fixed_window ↦ prune_fixed c now
  | sliding_window ↦ prune_sliding c now
]

unfoldable pub request_count : Counter → Int64
request_count c = elim c.strategy [
  | fixed_window ↦ c.fixed_requests
  | sliding_window ↦ length c.requests
]

-- `total += e.tokens`
unfoldable pub total_tokens : Int64 → List TokenEvent → Int64
total_tokens total [] = total
total_tokens total (e ∷ es) = total_tokens (add64 total e.tokens) es

unfoldable pub token_count : Counter → Int64
unfolding total_tokens
token_count c = elim c.strategy [
  | fixed_window ↦ c.fixed_tokens
  | sliding_window ↦ total_tokens 0 c.tokens
]

unfoldable pub add_request : Counter → ℕ → Counter
add_request c now = elim c.strategy [
  | fixed_window ↦ record c { fixed_requests = add64 c.fixed_requests 1 }
  | sliding_window ↦ record c { requests = c.requests ++ now ∷ [] }
]

unfoldable pub add_tokens : Counter → ℕ → Int64 → Counter
add_tokens c now n = if sle n 0 then c else elim c.strategy [
  | fixed_window ↦ record c { fixed_tokens = add64 c.fixed_tokens n }
  | sliding_window ↦ record c { tokens = c.tokens ++ record { at = now; tokens = n } ∷ [] }
]
