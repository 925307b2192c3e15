-- ===== src/RateLimit/MemoryStore.antt =====
-- `MemoryStore` of agent/ratelimit/store.go. A method takes the time that `m.now()` returns and what
-- `ctx.Err()` returns, and gives the store that it leaves with its result. The mutex makes each call
-- one step. A counter that is changed through its pointer is written back to the map.
pub mod Finish
pub mod Reserved
pub mod Lifecycle
use gude_agents.Prelude.{
  ℕ, String, Bool, true, false, not, ◌&&◌, ◌||◌, List, [], ◌∷◌, Option, none, some, Result, ok, err,
  concat, ltb, leb, nat_eq, ◌==◌, if◌then◌else◌,
}
use gude_agents.Words.{Int64, minus_one, add64, sub64, mul64, slt, sle, is_neg, add_time, sub_time}
use gude_agents.Dict.{Dict, lookup, insert, erase}
use gude_agents.RateLimit.Counter.{
  WindowStrategy, Counter, new_counter, prune, request_count, token_count, add_request, add_tokens,
}
use gude_agents.RateLimit.Types.{
  ContextError, Error, context, missing_id, invalid_request_counter, invalid_token_counter,
  invalid_ttl, lease_unknown, lease_terminal, lease_cross_terminal, lease_expired, RequestCounter,
  TokenReservation, Reservation,
}

-- A TTL that no option configured is 0.
pub record StoreConfig : Type 0 where
  pub pending_ttl : Int64
  pub terminal_ttl : Int64
  pub pending_configured : Bool
  pub terminal_configured : Bool

pub data LeaseState : Type 0 where
  pending committed released expired : LeaseState

abbrev pub same_state : LeaseState → LeaseState → Bool
same_state pending pending = true
same_state committed committed = true
same_state released released = true
same_state expired expired = true
same_state _ _ = false

pub record Lease : Type 0 where
  pub state : LeaseState
  pub tokens : List TokenReservation
  pub window : Int64
  pub pending_until : ℕ
  pub terminal_until : ℕ

pub record MemoryStore : Type 0 where
  pub leases : Dict Lease
  pub counters : Dict Counter
  pub config : StoreConfig

unfoldable pub with_pending_lease_ttl : Int64 → StoreConfig → StoreConfig
with_pending_lease_ttl ttl c = record c { pending_ttl = ttl; pending_configured = true }

unfoldable pub with_terminal_lease_ttl : Int64 → StoreConfig → StoreConfig
with_terminal_lease_ttl ttl c = record c { terminal_ttl = ttl; terminal_configured = true }

unfoldable pub configure : List (StoreConfig → StoreConfig) → StoreConfig → StoreConfig
configure [] c = c
configure (opt ∷ opts) c = configure opts (opt c)

unfoldable pub new_memory_store : List (StoreConfig → StoreConfig) → Result Error MemoryStore
unfolding configure
new_memory_store opts =
    let c = configure opts (record {
      pending_ttl = 0;
      terminal_ttl = 0;
      pending_configured = false;
      terminal_configured = false;
    }) in
    if (c.pending_configured && sle c.pending_ttl 0)
      || (c.terminal_configured && sle c.terminal_ttl 0)
    then err invalid_ttl
    else ok (record { leases = []; counters = []; config = c })

unfoldable pub pending_ttl_for : StoreConfig → Int64 → Int64
pending_ttl_for config window =
    let ttl = mul64 2 window in if slt ttl config.pending_ttl then config.pending_ttl else ttl

unfoldable pub terminal_ttl_for : StoreConfig → Int64 → Int64
terminal_ttl_for config window =
    if slt window config.terminal_ttl then config.terminal_ttl else window

abbrev pub request_key : String → String
request_key key = concat "r:" key

abbrev pub token_key : String → String
token_key key = concat "t:" key

-- `m.counter(key, strategy, window)`: the stored counter, or a new one.
unfoldable pub counter : Dict Counter → String → WindowStrategy → Int64 → Counter
counter counters key strategy window = elim (lookup key counters) [
  | some c ↦ c
  | none ↦ new_counter strategy window
]

-- The body of the loop of `settle`, on one counter.
unfoldable pub settle_counter : ℕ → Int64 → Int64 → Counter → Counter
settle_counter now actual amount c =
    let pruned = prune c now in
    let left = sub64 pruned.reserved amount in
    add_tokens (record pruned { reserved = if is_neg left then 0 else left }) now
      (if is_neg actual then amount else actual)

unfoldable pub settle : ℕ → Int64 → List TokenReservation → Dict Counter → Dict Counter
settle now actual [] counters = counters
settle now actual (r ∷ rs) counters =
    let key = token_key r.key in
    settle now actual rs (
      insert key (settle_counter now actual r.amount (counter counters key r.strategy r.window))
        counters)

-- `l.state == pending && !now.Before(l.pendingUntil)`
abbrev pub overdue : ℕ → Lease → Bool
overdue now l = same_state l.state pending && leb l.pending_until now

-- `l.state != pending && !now.Before(l.terminalUntil)`
abbrev pub forgotten : ℕ → Lease → Bool
forgotten now l = not (same_state l.state pending) && leb l.terminal_until now

unfoldable pub expire : StoreConfig → ℕ → Lease → Lease
expire config now l =
    if overdue now l
    then record l {
      state = expired;
      terminal_until = add_time now (terminal_ttl_for config l.window);
    }
    else l

unfoldable pub settle_overdue : ℕ → Lease → Dict Counter → Dict Counter
settle_overdue now l counters =
    if overdue now l then settle now minus_one l.tokens counters else counters

unfoldable pub cleanup_leases : StoreConfig → ℕ → Dict Lease → Dict Lease
cleanup_leases config now [] = []
cleanup_leases config now ((id, l) ∷ ls) =
    let rest = cleanup_leases config now ls in
    if forgotten now (expire config now l) then rest else (id, expire config now l) ∷ rest

unfoldable pub cleanup_counters : ℕ → Dict Lease → Dict Counter → Dict Counter
unfolding settle_overdue
cleanup_counters now [] counters = counters
cleanup_counters now ((id, l) ∷ ls) counters =
    cleanup_counters now ls (settle_overdue now l counters)

-- One pass over the leases; what it does to them does not depend on the counters.
unfoldable pub cleanup : ℕ → MemoryStore → MemoryStore
unfolding cleanup_leases cleanup_counters
cleanup now m = record m {
  leases = cleanup_leases m.config now m.leases;
  counters = cleanup_counters now m.leases m.counters;
}

-- The larger of `w` and the windows of the counters.
unfoldable pub max_request_window : Int64 → List RequestCounter → Int64
max_request_window w [] = w
max_request_window w (c ∷ cs) = max_request_window (if slt w c.window then c.window else w) cs

unfoldable pub max_token_window : Int64 → List TokenReservation → Int64
max_token_window w [] = w
max_token_window w (c ∷ cs) = max_token_window (if slt w c.window then c.window else w) cs

unfoldable pub reservation_window : Reservation → Int64
unfolding max_request_window max_token_window
reservation_window r = max_token_window (max_request_window 0 r.requests) r.tokens

unfoldable pub valid_requests : List RequestCounter → Bool
valid_requests [] = true
valid_requests (c ∷ cs) = not (sle c.limit 0 || sle c.window 0) && valid_requests cs

unfoldable pub valid_tokens : List TokenReservation → Bool
valid_tokens [] = true
valid_tokens (c ∷ cs) = not (sle c.limit 0 || sle c.window 0 || is_neg c.amount) && valid_tokens cs

-- nil is `none`
unfoldable pub validate_reservation : Reservation → Option Error
unfolding valid_requests valid_tokens
validate_reservation r =
    if not (valid_requests r.requests)
    then some invalid_request_counter
    else if not (valid_tokens r.tokens)
    then some invalid_token_counter
    else none

unfoldable pub terminal_error : LeaseState → LeaseState → Error
terminal_error state requested =
    if same_state state expired
    then lease_expired
    else if same_state state requested
    then lease_terminal
    else lease_cross_terminal

-- The first two loops of `Reserve` prune each counter and stop at one that has no room.
unfoldable pub check_requests : ℕ → List RequestCounter → Dict Counter → Dict Counter × Bool
check_requests now [] counters = (counters, true)
check_requests now (r ∷ rs) counters =
    let key = request_key r.key in
    let c = prune (counter counters key r.strategy r.window) now in
    let pruned = insert key c counters in
    let rest = check_requests now rs pruned in
    if sle r.limit (request_count c) then (pruned, false) else rest

unfoldable pub check_tokens : ℕ → List TokenReservation → Dict Counter → Dict Counter × Bool
check_tokens now [] counters = (counters, true)
check_tokens now (r ∷ rs) counters =
    let key = token_key r.key in
    let c = prune (counter counters key r.strategy r.window) now in
    let pruned = insert key c counters in
    let rest = check_tokens now rs pruned in
    if slt r.limit (add64 (add64 (token_count c) c.reserved) r.amount)
    then (pruned, false)
    else rest

unfoldable pub take_requests : ℕ → List RequestCounter → Dict Counter → Dict Counter
take_requests now [] counters = counters
take_requests now (r ∷ rs) counters =
    let key = request_key r.key in
    take_requests now rs
      (insert key (add_request (counter counters key r.strategy r.window) now) counters)

abbrev pub reserve_amount : Int64 → Counter → Counter
reserve_amount amount c = record c { reserved = add64 c.reserved amount }

unfoldable pub take_tokens : List TokenReservation → Dict Counter → Dict Counter
take_tokens [] counters = counters
take_tokens (r ∷ rs) counters =
    let key = token_key r.key in
    take_tokens rs
      (insert key (reserve_amount r.amount (counter counters key r.strategy r.window)) counters)

-- `Reserve` behind its guards, on the store that `cleanup` leaves.
unfoldable pub admit : ℕ → Reservation → MemoryStore → MemoryStore × Bool
admit now reservation m =
    let (requested, room) = check_requests now reservation.requests m.counters in
    let (checked, space) = check_tokens now reservation.tokens requested in
    let window = reservation_window reservation in
    let lease : Lease = record {
      state = pending;
      tokens = reservation.tokens;
      window = window;
      pending_until = add_time now (pending_ttl_for m.config window);
      terminal_until = add_time now (terminal_ttl_for m.config window);
    } in
    if not room
    then (record m { counters = requested }, false)
    else if not space
    then (record m { counters = checked }, false)
    else (
      record m {
        counters = take_tokens reservation.tokens (take_requests now reservation.requests checked);
        leases = insert reservation.id lease m.leases;
      },
      true,
    )

unfoldable pub admit_new : ℕ → Reservation → MemoryStore → MemoryStore × Bool
admit_new now reservation m = elim (lookup reservation.id m.leases) [
  | some _ ↦ (m, true)
  | none ↦ admit now reservation m
]

unfoldable pub reserve :
    Option ContextError → ℕ → Reservation → MemoryStore → MemoryStore × Result Error Bool
reserve (some e) now reservation m = (m, err (context e))
reserve none now reservation m =
    if reservation.id == "" then (m, err missing_id) else elim (validate_reservation reservation) [
      | some e ↦ (m, err e)
      | none ↦ let (m', admitted) = admit_new now reservation (cleanup now m) in (m', ok admitted)
    ]

-- What `Commit` and `Release` share behind their guards: `actual` is settled, and the lease ends in
-- the state `final`.
unfoldable pub finish : LeaseState → Int64 → ℕ → String → MemoryStore → MemoryStore × Option Error
finish final actual now id m = elim (lookup id m.leases) [
  | none ↦ (m, some lease_unknown)
  | some lease ↦
      if not (same_state lease.state pending)
      then (m, some (terminal_error lease.state final))
      else (
        record m {
          counters = settle now actual lease.tokens m.counters;
          leases =
              insert id
                (record lease {
                  state = final;
                  terminal_until = add_time now (terminal_ttl_for m.config lease.window);
                })
                m.leases;
        },
        none,
      )
]

unfoldable pub commit :
    Option ContextError → ℕ → String → Int64 → MemoryStore → MemoryStore × Option Error
commit (some e) now id actual m = (m, some (context e))
commit none now id actual m =
    finish committed (if is_neg actual then 0 else actual) now id (cleanup now m)

unfoldable pub release : Option ContextError → ℕ → String → MemoryStore → MemoryStore × Option Error
release (some e) now id m = (m, some (context e))
release none now id m = finish released minus_one now id (cleanup now m)
