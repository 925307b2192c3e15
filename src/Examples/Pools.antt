-- ===== src/Examples/Pools.antt =====
-- Concrete runs for agent/mcp.
use gude_agents.Prelude.{[], ◌∷◌, refl, arith}
use gude_agents.Mcp.Pool.{acquire, new_pool}
use gude_agents.Mcp.Pool.Steps.{World, Reach, new_world, takes, starts, here, next}
use gude_agents.Mcp.Pool.Sound.{IsSound, Reach-IsSound}

-- One call holds the first session, and another one starts a second.
abbrev held : World
held = record (new_world 2) { pool = record (new_pool 2 0) { sessions = [] }; leased = 0 ∷ [] }

abbrev busy : World
busy = record held { pool = record (new_pool 2 0) { sessions = []; size = 2 }; connecting = 1 }

busy-Reach : Reach 2 busy
unfolding acquire new_pool
busy-Reach = next (next here (takes 0 held.pool refl refl)) (starts busy.pool refl refl)

Reach-IsSound_example : IsSound 2 busy
Reach-IsSound_example = Reach-IsSound 2 busy (omega arith) busy-Reach
