-- ===== src/RateLimit/MemoryStore/Reserved.antt =====
-- What a granted `Reserve` of agent/ratelimit/store.go is good for.
use gude_agents.Prelude.{
  ℕ, ◌<◌, ◌≡◌, refl, ap, ◌∙◌, inl, inr, String, Bool, true, false, none, some, Result, ok, err,
  arith, eq_refl, Bool-cases, Option-cases, ◌==◌,
}
use gude_agents.Words.{Int64, add_time}
use gude_agents.Dict.{lookup, lookup-insert}
use gude_agents.RateLimit.Types.{Error, Reservation}
use gude_agents.RateLimit.MemoryStore.{
  MemoryStore, Lease, pending, expire, cleanup, pending_ttl_for, terminal_ttl_for,
  reservation_window, validate_reservation, check_requests, check_tokens, admit, admit_new, reserve,
  commit, release,
}
use gude_agents.RateLimit.MemoryStore.Lifecycle.{
  lookup-cleanup_leases, commit-pending, release-pending,
}

ok_true : {b : Bool} → ◌≡◌ {A = Result Error Bool} (ok b) (ok true) → b ≡ true
ok_true {b} e = ap (λ o. elim o [ ok a ↦ a | err d ↦ b ]) e

module _ (now : ℕ) (r : Reservation) where
  -- The lease that `Reserve` grants.
  abbrev pub granted : MemoryStore → Lease
  granted m =
      let window = reservation_window r in
      record {
        state = pending;
        tokens = r.tokens;
        window = window;
        pending_until = add_time now (pending_ttl_for m.config window);
        terminal_until = add_time now (terminal_ttl_for m.config window);
      }

  admit-granted :
      (m : MemoryStore)
      → (admit now r m).1 ≡ true
      → (lookup r.id (admit now r m).0.leases ≡ some (granted m))
        × ((admit now r m).0.config ≡ m.config)
  unfolding admit
  admit-granted m = elim (Bool-cases (check_requests now r.requests m.counters).1) [
    | inr full ↦ rw full (λ e. ground arith)
    | inl room ↦
        rw room
          (elim (Bool-cases
            (check_tokens now r.tokens (check_requests now r.requests m.counters).0).1) [
              | inr full ↦ rw full (λ e. ground arith)
              | inl space ↦ rw space (λ e. (
                rw (lookup-insert r.id r.id (granted m) m.leases) (rw (eq_refl r.id) refl),
                refl,
              ))
            ])
  ]

  -- The facts behind a reservation that was admitted as a new one.
  record Admitted (m : MemoryStore) (out : MemoryStore × Result Error Bool) : Type 0 where
    named : (r.id == "") ≡ false
    valid : validate_reservation r ≡ none
    found : lookup r.id out.0.leases ≡ some (granted m)
    config_same : out.0.config ≡ m.config

  reserve-Admitted :
      (m : MemoryStore)
      → lookup r.id (cleanup now m).leases ≡ none
      → (reserve none now r m).1 ≡ ok true
      → Admitted (cleanup now m) (reserve none now r m)
  unfolding reserve admit_new
  reserve-Admitted m fresh = elim (Bool-cases (r.id == "")) [
    | inl unnamed ↦ rw (unnamed, reserve) (λ e. ground arith)
    | inr named ↦ elim (Option-cases (validate_reservation r)) [
      | inr (bad, invalid) ↦ rw (named, reserve) (rw (invalid, reserve) (λ e. ground arith))
      | inl valid ↦
          rw (named, reserve)
            (rw (valid, reserve)
              (rw (fresh, admit_new)
                (λ e.
                  let both = admit-granted (cleanup now m) (ok_true e) in
                  record { named = named; valid = valid; found = both.0; config_same = both.1 })))
    ]
  ]

-- The lease as a later call finds it, before its pending time is over.
later-granted :
    (m : MemoryStore) (id : String) (l : Lease) (later : ℕ)
    → lookup id m.leases ≡ some l
    → l.state ≡ pending
    → later < l.pending_until
    → lookup id (cleanup later m).leases ≡ some l
unfolding cleanup
later-granted m id l later e waits young =
    lookup-cleanup_leases m.config later id l m.leases e (rw kept (rw waits refl)) ∙ ap some kept
  where
    kept : expire m.config later l ≡ l
    kept = unfold expire in rw waits (ground arith)

again :
    (later : ℕ) (r : Reservation) (m : MemoryStore) (l : Lease)
    → (r.id == "") ≡ false
    → validate_reservation r ≡ none
    → lookup r.id (cleanup later m).leases ≡ some l
    → (reserve none later r m).1 ≡ ok true
unfolding reserve admit_new
again later r m l named valid found =
    rw (named, reserve) (rw (valid, reserve) (rw (found, admit_new) refl))

-- A reservation that was admitted as a new one holds until its pending time is over: until then its
-- identifier can be committed, or released, without an error, and reserving it again is admitted.
pub reserve_finish :
    (m : MemoryStore) (r : Reservation) (actual : Int64) (now later : ℕ)
    → lookup r.id (cleanup now m).leases ≡ none
    → (reserve none now r m).1 ≡ ok true
    → later < add_time now (pending_ttl_for m.config (reservation_window r))
    → let m' = (reserve none now r m).0 in
      ((commit none later r.id actual m').1 ≡ none)
      × ((release none later r.id m').1 ≡ none)
      × ((reserve none later r m').1 ≡ ok true)
reserve_finish m r actual now later fresh admitted young =
    let facts = reserve-Admitted now r m fresh admitted in
    let m' : MemoryStore = (reserve none now r m).0 in
    let l : Lease = granted now r (cleanup now m) in
    let found : lookup r.id (cleanup later m').leases ≡ some l =
      later-granted m' r.id l later facts.found refl (unfold cleanup in young) in
    (
      ap (λ p. p.1) (commit-pending later r.id m' l found refl actual),
      ap (λ p. p.1) (release-pending later r.id m' l found refl),
      again later r m' l facts.named facts.valid found,
    )

admit-refused :
    (now : ℕ) (r : Reservation) (m : MemoryStore)
    → (admit now r m).1 ≡ false
    → (admit now r m).0.leases ≡ m.leases
unfolding admit
admit-refused now r m = elim (Bool-cases (check_requests now r.requests m.counters).1) [
  | inr full ↦ rw full (λ e. refl)
  | inl room ↦
      rw room
        (elim (Bool-cases
          (check_tokens now r.tokens (check_requests now r.requests m.counters).0).1) [
            | inr full ↦ rw full (λ e. refl)
            | inl space ↦ rw space (λ e. ground arith)
          ])
]

ok_false : {b : Bool} → ◌≡◌ {A = Result Error Bool} (ok b) (ok false) → b ≡ false
ok_false {b} e = ap (λ o. elim o [ ok a ↦ a | err d ↦ b ]) e

admit_new-refused :
    (now : ℕ) (r : Reservation) (m : MemoryStore)
    → (admit_new now r m).1 ≡ false
    → (lookup r.id m.leases ≡ none) × ((admit_new now r m).0.leases ≡ m.leases)
unfolding admit_new
admit_new-refused now r m = elim (Option-cases (lookup r.id m.leases)) [
  | inr (l, known) ↦ rw (known, admit_new) (λ e. ground arith)
  | inl fresh ↦ rw (fresh, admit_new) (λ e. (refl, admit-refused now r m e))
]

-- A reservation that is refused for want of room is of a new identifier, and leaves the leases that
-- the clean-up left; a reservation in error leaves the store as it was.
pub reserve_refused :
    (m : MemoryStore) (r : Reservation) (now : ℕ)
    → ((reserve none now r m).1 ≡ ok false
        → (lookup r.id (cleanup now m).leases ≡ none)
          × ((reserve none now r m).0.leases ≡ (cleanup now m).leases))
      × ((e : Error) → (reserve none now r m).1 ≡ err e → (reserve none now r m).0 ≡ m)
unfolding reserve
reserve_refused m r now = elim (Bool-cases (r.id == "")) [
  | inl unnamed ↦ rw (unnamed, reserve) ((λ e. ground arith), λ d e. refl)
  | inr named ↦ elim (Option-cases (validate_reservation r)) [
    | inr (bad, invalid) ↦
        rw (named, reserve) (rw (invalid, reserve) ((λ e. ground arith), λ d e. refl))
    | inl valid ↦
        rw (named, reserve)
          (rw (valid, reserve)
            ((λ e. admit_new-refused now r (cleanup now m) (ok_false e)), λ d e. ground arith))
  ]
]
