-- ===== src/Examples/Limits.antt =====
-- Concrete runs for agent/ratelimit.
use gude_agents.Prelude.{true, false, List, [], ◌∷◌, none, some, ok, ◌≡◌, refl, arith, filter}
use gude_agents.Words.{sub64, add_time, is_neg, slt, sle, mul64}
use gude_agents.Dict.{lookup}
use gude_agents.RateLimit.Counter.{
  sliding_window, new_counter, prune, prune_sliding, request_count, kept_at, TokenEvent,
  prune_times, prune_token_events,
}
use gude_agents.RateLimit.Counter.Search.{search}
use gude_agents.RateLimit.Counter.Prune.{is_kept, prune-filter}
use gude_agents.RateLimit.Types.{
  RequestCounter, Reservation, lease_terminal, lease_cross_terminal, lease_expired,
}
use gude_agents.RateLimit.MemoryStore.Reserved.{reserve_finish, reserve_refused}
use gude_agents.RateLimit.MemoryStore.{
  reserve, validate_reservation, valid_requests, valid_tokens, admit_new, admit, check_requests,
  check_tokens, settle_overdue, counter, pending_ttl_for, reservation_window, max_request_window,
  max_token_window, cleanup_counters, MemoryStore, Lease, StoreConfig, pending, commit, release,
  cleanup, cleanup_leases, expire, terminal_ttl_for,
}
use gude_agents.RateLimit.MemoryStore.Lifecycle.{finish_once, finish_expired}

abbrev config : StoreConfig
config = record {
  pending_ttl = 0;
  terminal_ttl = 1000;
  pending_configured = false;
  terminal_configured = true;
}

abbrev lease : Lease
lease = record {
  state = pending;
  tokens = [];
  window = 60;
  pending_until = 100;
  terminal_until = 0;
}

abbrev store : MemoryStore
store = record { leases = ("a", lease) ∷ []; counters = []; config = config }

finish_once_example :
    let (m', result) = commit none 50 "a" 7 store in
    let (m'', result') = release none 50 "a" store in
    (result ≡ none)
    × (commit none 60 "a" 8 m' ≡ (cleanup 60 m', some lease_terminal))
    × (release none 60 "a" m' ≡ (cleanup 60 m', some lease_cross_terminal))
    × (result' ≡ none)
    × (release none 60 "a" m'' ≡ (cleanup 60 m'', some lease_terminal))
    × (commit none 60 "a" 8 m'' ≡ (cleanup 60 m'', some lease_cross_terminal))
unfolding cleanup cleanup_leases expire lookup add_time is_neg slt terminal_ttl_for
finish_once_example = finish_once store "a" lease 7 8 50 60 refl refl (omega arith)

finish_expired_example :
    let swept = cleanup 200 store in
    (commit none 200 "a" 7 store ≡ (swept, some lease_expired))
    × (release none 200 "a" store ≡ (swept, some lease_expired))
    × (commit none 1100 "a" 7 swept ≡ (cleanup 1100 swept, some lease_expired))
    × (release none 1100 "a" swept ≡ (cleanup 1100 swept, some lease_expired))
unfolding lookup add_time is_neg slt terminal_ttl_for
finish_expired_example =
    finish_expired store "a" lease 7 7 200 1100 refl refl (omega arith) (omega arith)

abbrev spent : List TokenEvent
spent = record { at = 3; tokens = 10 } ∷ record { at = 5; tokens = 20 } ∷ []

prune-filter_example :
    (prune_times (1 ∷ 4 ∷ 9 ∷ []) 4 ≡ filter (is_kept (λ t. t) 4) (1 ∷ 4 ∷ 9 ∷ []))
    × (prune_token_events spent 4 ≡ filter (is_kept (λ e. e.at) 4) spent)
prune-filter_example =
    prune-filter (1 ∷ 4 ∷ 9 ∷ []) spent 4
      ((omega arith, (omega arith, tt)), ((omega arith, tt), (tt, tt)))
      ((omega arith, tt), (tt, tt))

abbrev call_limit : RequestCounter
call_limit = record { key = "user"; limit = 2; window = 60; strategy = sliding_window }

abbrev one_call : Reservation
one_call = record { id = "b"; requests = call_limit ∷ []; tokens = [] }

is_admitted : (reserve none 50 one_call store).1 ≡ ok true
unfolding search reserve validate_reservation valid_requests valid_tokens admit_new admit
    check_requests check_tokens cleanup cleanup_leases cleanup_counters settle_overdue expire
    counter new_counter prune prune_sliding prune_times request_count kept_at sle slt is_neg lookup
    add_time terminal_ttl_for pending_ttl_for
is_admitted = refl

reserve_finish_example :
    let m' = (reserve none 50 one_call store).0 in
    ((commit none 60 "b" 7 m').1 ≡ none)
    × ((release none 60 "b" m').1 ≡ none)
    × ((reserve none 60 one_call m').1 ≡ ok true)
unfolding cleanup cleanup_leases expire lookup add_time is_neg slt pending_ttl_for mul64
    reservation_window max_request_window max_token_window terminal_ttl_for
reserve_finish_example = reserve_finish store one_call 7 50 60 refl is_admitted (omega arith)

-- The second call of a user who may make one in 60 nanoseconds.
abbrev busy : MemoryStore
busy = record {
  leases = [];
  counters = ("r:user", record (new_counter sliding_window 60) { requests = 40 ∷ [] }) ∷ [];
  config = config;
}

abbrev second_call : Reservation
second_call = record { id = "c"; requests = record call_limit { limit = 1 } ∷ []; tokens = [] }

is_refused : (reserve none 50 second_call busy).1 ≡ ok false
unfolding sub64 search reserve validate_reservation valid_requests valid_tokens admit_new admit
    check_requests check_tokens cleanup cleanup_leases cleanup_counters settle_overdue expire
    counter new_counter prune prune_sliding prune_times request_count kept_at sle slt is_neg lookup
    add_time terminal_ttl_for pending_ttl_for
is_refused = refl

reserve_refused_example :
    (lookup "c" (cleanup 50 busy).leases ≡ none)
    × ((reserve none 50 second_call busy).0.leases ≡ (cleanup 50 busy).leases)
reserve_refused_example = (reserve_refused busy second_call 50).0 is_refused
