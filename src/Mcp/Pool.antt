-- ===== src/Mcp/Pool.antt =====
-- agent/mcp/pool.go: the pool behind its mutex. A session is a number. Each section between a lock and
-- an unlock is one function; what a caller does outside the lock (starting a subprocess, waiting on the
-- condition, calling the server) stands between two of them. `size` goes down by one only while it
-- counts a session, which Pool/Steps proves, so that the subtraction on ℕ is the source's.
pub mod Steps
pub mod Sound
use gude_agents.Prelude.{
  ℕ, ◌+◌, ◌-◌, Bool, true, false, not, String, List, [], ◌∷◌, ◌++◌, Option, none, some, Result, ok,
  err, length, ltb, leb, if◌then◌else◌,
}
use gude_agents.Words.{Int64, slt}

abbrev pub Session : Type 0
Session = ℕ

pub record PoolConfig : Type 0 where
  pub env : List String
  pub max_size : Int64

pub data PoolError : Type 0 where
  bad_size : Int64 → PoolError
  pool_closed : PoolError
  connect_failed context_done : String → PoolError

abbrev pub with_pool_env : List String → PoolConfig → Result PoolError PoolConfig
with_pool_env env c = ok (record c { env = c.env ++ env })

unfoldable pub with_pool_size : Int64 → PoolConfig → Result PoolError PoolConfig
with_pool_size n c = if slt n 1 then err (bad_size n) else ok (record c { max_size = n })

-- The options of `NewPool`, in order, from the default size.
unfoldable pub configure_pool :
    List (PoolConfig → Result PoolError PoolConfig) → PoolConfig → Result PoolError PoolConfig
configure_pool [] c = ok c
configure_pool (opt ∷ opts) c = elim (opt c) [ err e ↦ err e | ok c' ↦ configure_pool opts c' ]

abbrev pub default_config : PoolConfig
default_config = record { env = []; max_size = 5 }

-- The channel of idle sessions is a queue of at most `max_size`.
pub record Pool : Type 0 where
  pub size : ℕ
  pub max_size : ℕ
  pub closed : Bool
  pub sessions : List Session

-- `NewPool` behind its first connection.
unfoldable pub new_pool : ℕ → Session → Pool
new_pool max_size first = record {
  size = 1;
  max_size = max_size;
  closed = false;
  sessions = first ∷ [];
}

-- One round of the loop of `acquire` up to the point where the lock is given up.
pub data Round : Type 0 where
  refused : Round
  leases : Session → Pool → Round
  connects : Pool → Round
  waits : Round

unfoldable pub acquire : Pool → Round
acquire p = if p.closed then refused else elim p.sessions [
  | session ∷ idle ↦ leases session (record p { sessions = idle })
  | [] ↦ if ltb p.size p.max_size then connects (record p { size = p.size + 1 }) else waits
]

-- A slot is given back.
abbrev pub freed : Pool → Pool
freed p = record p { size = p.size - 1 }

-- `acquire` behind a connection that failed.
unfoldable pub connection_failed : Pool → Pool
connection_failed p = freed p

-- `acquire` behind a new session: is it leased, or closed at once?
unfoldable pub connected : Pool → Pool × Bool
connected p = if p.closed then (freed p, false) else (p, true)

-- `release`: is the session kept, or closed?
unfoldable pub release : Session → Pool → Pool × Bool
release session p =
    if p.closed
    then (freed p, false)
    else (record p { sessions = p.sessions ++ (session ∷ []) }, true)

-- The send of `release` blocks, with the lock held, on a full channel.
abbrev pub has_room : Pool → Bool
has_room p = ltb (length p.sessions) p.max_size

unfoldable pub discard : Pool → Pool
discard p = freed p

-- What `CallTool` may return.
pub data CallError : Type 0 where
  no_error rpc_error transport_error : CallError

abbrev pub reusable : CallError → Bool
reusable no_error = true
reusable rpc_error = true
reusable transport_error = false

-- The end of a tool call: is the session kept?
unfoldable pub end_call : CallError → Session → Pool → Pool × Bool
end_call e session p = if reusable e then release session p else (discard p, false)

-- `Close`, with the idle sessions that it closes.
unfoldable pub close : Pool → Pool × List Session
close p =
    if p.closed
    then (p, [])
    else (record p { closed = true; size = p.size - length p.sessions; sessions = [] }, p.sessions)
