-- ===== src/RateLimit/Types.antt =====
-- The requests and the errors of agent/ratelimit (store.go and bridge.go).
use gude_agents.Prelude.{String, List}
use gude_agents.Words.{Int64}
use gude_agents.RateLimit.Counter.{WindowStrategy}

-- What `ctx.Err()` may return.
pub data ContextError : Type 0 where
  canceled deadline_exceeded : ContextError

pub data Error : Type 0 where
  context : ContextError → Error
  missing_id invalid_request_counter invalid_token_counter invalid_ttl : Error
  lease_unknown lease_terminal lease_cross_terminal lease_expired : Error

pub record RequestCounter : Type 0 where
  pub key : String
  pub limit : Int64
  pub window : Int64
  pub strategy : WindowStrategy

pub record TokenReservation : Type 0 where
  pub key : String
  pub limit : Int64
  pub window : Int64
  pub strategy : WindowStrategy
  pub amount : Int64

pub record Reservation : Type 0 where
  pub id : String
  pub requests : List RequestCounter
  pub tokens : List TokenReservation
