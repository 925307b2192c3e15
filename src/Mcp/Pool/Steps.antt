-- ===== src/Mcp/Pool/Steps.antt =====
-- The pool of agent/mcp/pool.go with its callers, as a step relation: any interleaving of the sections
-- that hold its lock.
use gude_agents.Prelude.{ℕ, suc, ◌+◌, ◌≡◌, Bool, true, false, List, [], ◌∷◌, ◌++◌}
use gude_agents.Mcp.Pool.{
  Session, Pool, new_pool, acquire, leases, connects, connection_failed, connected, CallError,
  end_call, close,
}

-- The callers: how many are starting a session, the sessions that calls hold, and those that were
-- closed. Session `started` is the next one to be started.
pub record World : Type 0 where
  pub pool : Pool
  pub connecting : ℕ
  pub leased : List Session
  pub ended : List Session
  pub started : Session

abbrev pub new_world : ℕ → World
new_world max_size = record {
  pool = new_pool max_size 0;
  connecting = 0;
  leased = [];
  ended = [];
  started = 1;
}

-- Where a session goes that the pool keeps or does not keep.
abbrev pub ended_unless : Bool → Session → List Session → List Session
ended_unless true s ended = ended
ended_unless false s ended = s ∷ ended

abbrev pub leased_if : Bool → Session → List Session → List Session
leased_if true s leased = s ∷ leased
leased_if false s leased = leased

pub data Step (w w' : World) : Type 0 where
  takes :
      (s : Session) (p : Pool)
      → acquire w.pool ≡ leases s p
      → w' ≡ record w { pool = p; leased = s ∷ w.leased }
      → Step w w'
  starts :
      (p : Pool)
      → acquire w.pool ≡ connects p
      → w' ≡ record w { pool = p; connecting = w.connecting + 1 }
      → Step w w'
  fails :
      (n : ℕ)
      → w.connecting ≡ suc n
      → w' ≡ record w { pool = connection_failed w.pool; connecting = n }
      → Step w w'
  connects_to :
      (n : ℕ) (p : Pool) (kept : Bool)
      → w.connecting ≡ suc n
      → connected w.pool ≡ (p, kept)
      → w' ≡ record {
        pool = p;
        connecting = n;
        leased = leased_if kept w.started w.leased;
        ended = ended_unless kept w.started w.ended;
        started = suc w.started;
      }
      → Step w w'
  ends :
      (s : Session) (before after : List Session) (e : CallError) (p : Pool) (kept : Bool)
      → w.leased ≡ before ++ s ∷ after
      → end_call e s w.pool ≡ (p, kept)
      → w' ≡ record w { pool = p; leased = before ++ after; ended = ended_unless kept s w.ended }
      → Step w w'
  closes :
      (p : Pool) (idle : List Session)
      → close w.pool ≡ (p, idle)
      → w' ≡ record w { pool = p; ended = idle ++ w.ended }
      → Step w w'

-- What may become of a new pool.
pub data Reach (max_size : ℕ) : World → Type 0 where
  here : Reach max_size (new_world max_size)
  next : {w w' : World} → Reach max_size w → Step w w' → Reach max_size w'
