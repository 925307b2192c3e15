-- ===== src/RateLimit/MemoryStore/Finish.antt =====
-- The three ways through `Commit` and `Release` behind their guards, by the lease that is found.
use gude_agents.Prelude.{ℕ, ◌≡◌, String, true, false, none, some, eq_refl}
use gude_agents.Words.{Int64, add_time}
use gude_agents.Dict.{lookup, insert, lookup-insert}
use gude_agents.RateLimit.Types.{lease_unknown}
use gude_agents.RateLimit.MemoryStore.{
  MemoryStore, Lease, LeaseState, StoreConfig, pending, same_state, settle, terminal_ttl_for,
  terminal_error, finish,
}

-- The lease in its final state.
abbrev pub ended : LeaseState → ℕ → StoreConfig → Lease → Lease
ended final now config l = record l {
  state = final;
  terminal_until = add_time now (terminal_ttl_for config l.window);
}

-- The store with the lease settled and ended.
abbrev pub finished : LeaseState → Int64 → ℕ → String → Lease → MemoryStore → MemoryStore
finished final actual now id l m = record m {
  counters = settle now actual l.tokens m.counters;
  leases = insert id (ended final now m.config l) m.leases;
}

module _ (final : LeaseState) (actual : Int64) (now : ℕ) (id : String) (m : MemoryStore) where
  pub finish-unknown :
      lookup id m.leases ≡ none → finish final actual now id m ≡ (m, some lease_unknown)
  unfolding finish
  finish-unknown e = rw (e, finish)

  pub finish-ended :
      (l : Lease)
      → lookup id m.leases ≡ some l
      → same_state l.state pending ≡ false
      → finish final actual now id m ≡ (m, some (terminal_error l.state final))
  unfolding finish
  finish-ended l e ends = rw (e, finish) (rw ends)

  pub finish-pending :
      (l : Lease)
      → lookup id m.leases ≡ some l
      → same_state l.state pending ≡ true
      → finish final actual now id m ≡ (finished final actual now id l m, none)
  unfolding finish
  finish-pending l e waits = rw (e, finish) (rw waits)

  pub lookup-finished :
      (l : Lease)
      → lookup id (finished final actual now id l m).leases ≡ some (ended final now m.config l)
  lookup-finished l = simp (lookup-insert, eq_refl)
