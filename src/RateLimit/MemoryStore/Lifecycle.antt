-- ===== src/RateLimit/MemoryStore/Lifecycle.antt =====
-- How a lease ends: once, and with a typed error for every later attempt.
use gude_agents.Prelude.{
  ℕ, ◌<◌, ◌≡◌, refl, ap, ◌∙◌, String, true, false, [], ◌∷◌, none, some, arith, if◌then◌else◌,
}
use gude_agents.Words.{Int64, is_neg, minus_one, add_time}
use gude_agents.Dict.{Dict, lookup}
use gude_agents.RateLimit.Types.{lease_unknown, lease_terminal, lease_cross_terminal, lease_expired}
use gude_agents.RateLimit.MemoryStore.Finish.{
  ended, finished, lookup-finished, finish-unknown, finish-ended, finish-pending,
}
use gude_agents.RateLimit.MemoryStore.{
  MemoryStore, Lease, LeaseState, StoreConfig, pending, committed, released, expired, same_state,
  overdue, forgotten, expire, cleanup_leases, cleanup, terminal_ttl_for, terminal_error, commit,
  release,
}

-- A lease that the pass keeps is found under its identifier, expired if it was overdue.
pub lookup-cleanup_leases :
    (config : StoreConfig) (now : ℕ) (id : String) (l : Lease) (ls : Dict Lease)
    → lookup id ls ≡ some l
    → forgotten now (expire config now l) ≡ false
    → lookup id (cleanup_leases config now ls) ≡ some (expire config now l)
unfolding lookup cleanup_leases
lookup-cleanup_leases config now id l [] e kept = cc
lookup-cleanup_leases config now id l ((j, x) ∷ ls) e kept =
    ground (arith, lookup-cleanup_leases config now id l ls)

lookup-cleanup_leases-none :
    (config : StoreConfig) (now : ℕ) (id : String) (ls : Dict Lease)
    → lookup id ls ≡ none
    → lookup id (cleanup_leases config now ls) ≡ none
unfolding lookup cleanup_leases
lookup-cleanup_leases-none config now id [] e = refl
lookup-cleanup_leases-none config now id ((j, x) ∷ ls) e =
    ground (arith, lookup-cleanup_leases-none config now id ls)

module _ (final : LeaseState) (ends : same_state final pending ≡ false) (now later : ℕ)
    (id : String) (l : Lease) (m : MemoryStore)
    (young : later < add_time now (terminal_ttl_for m.config l.window)) where
  -- The lease that `finish` left, as the next call finds it.
  lookup-cleanup-ended :
      lookup id m.leases ≡ some (ended final now m.config l)
      → lookup id (cleanup later m).leases ≡ some (ended final now m.config l)
  unfolding cleanup
  lookup-cleanup-ended e =
      lookup-cleanup_leases m.config later id (ended final now m.config l) m.leases e
        (rw same (ground arith))
      ∙ ap some same
    where
      same : expire m.config later (ended final now m.config l) ≡ ended final now m.config l
      same = unfold expire in rw ends

  -- Every later attempt to end it is refused, and leaves it.
  ended-commit :
      (actual : Int64)
      → lookup id m.leases ≡ some (ended final now m.config l)
      → commit none later id actual m ≡ (cleanup later m, some (terminal_error final committed))
  unfolding commit
  ended-commit actual e =
      finish-ended committed _ later id (cleanup later m) (ended final now m.config l)
        (lookup-cleanup-ended e) ends

  ended-release :
      lookup id m.leases ≡ some (ended final now m.config l)
      → release none later id m ≡ (cleanup later m, some (terminal_error final released))
  unfolding release
  ended-release e =
      finish-ended released _ later id (cleanup later m) (ended final now m.config l)
        (lookup-cleanup-ended e) ends

abbrev clamp : Int64 → Int64
clamp actual = if is_neg actual then 0 else actual

module _ (now : ℕ) (id : String) (m : MemoryStore) (l : Lease)
    (found : lookup id (cleanup now m).leases ≡ some l)
    (waits : same_state l.state pending ≡ true) where
  pub commit-pending :
      (actual : Int64)
      → commit none now id actual m
        ≡ (finished committed (clamp actual) now id l (cleanup now m), none)
  unfolding commit
  commit-pending actual =
      finish-pending committed (clamp actual) now id (cleanup now m) l found waits

  pub release-pending :
      release none now id m ≡ (finished released minus_one now id l (cleanup now m), none)
  unfolding release
  release-pending = finish-pending released minus_one now id (cleanup now m) l found waits

-- The outcomes of the four orders, once the store after the first call is known.
module _ (final : LeaseState) (ends : same_state final pending ≡ false) (actual again : Int64)
    (now later : ℕ) (id : String) (l : Lease) (m : MemoryStore)
    (young : later < add_time now (terminal_ttl_for m.config l.window)) where
  then_commit :
      commit none later id again (finished final actual now id l m)
      ≡ (cleanup later (finished final actual now id l m), some (terminal_error final committed))
  then_commit =
      ended-commit final ends now later id l (finished final actual now id l m) young again
        (lookup-finished final actual now id m l)

  then_release :
      release none later id (finished final actual now id l m)
      ≡ (cleanup later (finished final actual now id l m), some (terminal_error final released))
  then_release =
      ended-release final ends now later id l (finished final actual now id l m) young
        (lookup-finished final actual now id m l)

-- `Commit` and `Release` of a pending lease succeed and end it. Until its terminal retention is
-- over, the same call again has the error of a lease that ended so, the other call has the error of
-- a lease that ended otherwise, and neither does more to the store than the clean-up of every call.
pub finish_once :
    (m : MemoryStore) (id : String) (l : Lease) (actual again : Int64) (now later : ℕ)
    → lookup id (cleanup now m).leases ≡ some l
    → l.state ≡ pending
    → later < add_time now (terminal_ttl_for m.config l.window)
    → let (m', result) = commit none now id actual m in
      let (m'', result') = release none now id m in
      (result ≡ none)
      × (commit none later id again m' ≡ (cleanup later m', some lease_terminal))
      × (release none later id m' ≡ (cleanup later m', some lease_cross_terminal))
      × (result' ≡ none)
      × (release none later id m'' ≡ (cleanup later m'', some lease_terminal))
      × (commit none later id again m'' ≡ (cleanup later m'', some lease_cross_terminal))
unfolding cleanup terminal_error
finish_once m id l actual again now later e p young =
    let waits : same_state l.state pending ≡ true = ap (λ s. same_state s pending) p in
    let swept = cleanup now m in
    rw (commit-pending now id m l e waits actual, release-pending now id m l e waits)
      (
        refl,
        then_commit committed refl (clamp actual) again now later id l swept young,
        then_release committed refl (clamp actual) again now later id l swept young,
        refl,
        then_release released refl minus_one again now later id l swept young,
        then_commit released refl minus_one again now later id l swept young,
      )

-- A lease whose pending time is over is expired: the call that finds it so, be it `Commit` or `Release`,
-- has the error for that and does no more than the clean-up, which has charged its estimate. Until the
-- terminal retention is over, counted from that call, so have both calls again.
pub finish_expired :
    (m : MemoryStore) (id : String) (l : Lease) (actual again : Int64) (now later : ℕ)
    → lookup id m.leases ≡ some l
    → overdue now l ≡ true
    → now < add_time now (terminal_ttl_for m.config l.window)
    → later < add_time now (terminal_ttl_for m.config l.window)
    → let m' = cleanup now m in
      (commit none now id actual m ≡ (m', some lease_expired))
      × (release none now id m ≡ (m', some lease_expired))
      × (commit none later id again m' ≡ (cleanup later m', some lease_expired))
      × (release none later id m' ≡ (cleanup later m', some lease_expired))
unfolding cleanup commit release terminal_error
finish_expired m id l actual again now later e late kept young = (
  finish-ended committed _ now id (cleanup now m) (ended expired now m.config l) swept refl,
  finish-ended released _ now id (cleanup now m) (ended expired now m.config l) swept refl,
  ended-commit expired refl now later id l (cleanup now m) young again swept,
  ended-release expired refl now later id l (cleanup now m) young swept,
)
  where
    gone : expire m.config now l ≡ ended expired now m.config l
    gone = unfold expire in rw late

    swept : lookup id (cleanup now m).leases ≡ some (ended expired now m.config l)
    swept =
        lookup-cleanup_leases m.config now id l m.leases e (rw gone (ground arith)) ∙ ap some gone

-- A lease that was never reserved is unknown to both.
finish_unknown :
    (m : MemoryStore) (id : String) (actual : Int64) (now : ℕ)
    → lookup id m.leases ≡ none
    → (commit none now id actual m ≡ (cleanup now m, some lease_unknown))
      × (release none now id m ≡ (cleanup now m, some lease_unknown))
unfolding cleanup commit release
finish_unknown m id actual now e =
    let missing : lookup id (cleanup_leases m.config now m.leases) ≡ none =
      lookup-cleanup_leases-none m.config now id m.leases e in
    (
      finish-unknown committed _ now id (cleanup now m) missing,
      finish-unknown released _ now id (cleanup now m) missing,
    )
