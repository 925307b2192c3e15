-- ===== src/RateLimit/Counter/Prune.antt =====
-- Pruning a sliding window by binary search, against its description: drop what is too old.
use gude_agents.Prelude.{
  ℕ, zero, suc, ◌≤◌, ◌<◌, ◌≡◌, refl, ap, Bool, true, false, not, List, [], ◌∷◌, arith, ltb, All,
  length, drop, filter,
}
use gude_agents.RateLimit.Counter.{TokenEvent, kept_at, prune_times, prune_token_events}
use gude_agents.RateLimit.Counter.Search.{search, IsFirst, search-IsFirst}

module _ {ℓ} {A : Type ℓ} (time : A → ℕ) where
  -- The events stand in the order of their times.
  abbrev pub Ascending : List A → Type ℓ
  Ascending [] = Unit
  Ascending (e ∷ es) = All (λ later. time e ≤ time later) es × Ascending es

  module _ (cutoff : ℕ) where
    abbrev pub is_kept : A → Bool
    is_kept e = not (ltb (time e) cutoff)

    kept_from_older :
        (e : A) (es : List A) (b : ℕ)
        → All (λ later. time e ≤ time later) es
        → is_kept e ≡ true
        → kept_at time es cutoff b ≡ true
    unfolding kept_at
    kept_from_older e [] b h k = refl
    kept_from_older e (x ∷ es) zero h k = ground arith
    kept_from_older e (x ∷ es) (suc b) h k = kept_from_older e es b h.1 k

    kept_at_mono :
        (es : List A)
        → Ascending es
        → (a b : ℕ) → a ≤ b
        → kept_at time es cutoff a ≡ true
        → kept_at time es cutoff b ≡ true
    unfolding kept_at
    kept_at_mono [] s a b le k = refl
    kept_at_mono (e ∷ es) s zero zero le k = k
    kept_at_mono (e ∷ es) s zero (suc b) le k = kept_from_older e es b s.0 k
    kept_at_mono (e ∷ es) s (suc a) zero le k = absurd (omega arith)
    kept_at_mono (e ∷ es) s (suc a) (suc b) le k = kept_at_mono es s.1 a b (omega arith) k

    drop-filter :
        (es : List A) (k : ℕ)
        → ((i : ℕ) → i < k → kept_at time es cutoff i ≡ false)
        → ((i : ℕ) → k ≤ i → i < length es → kept_at time es cutoff i ≡ true)
        → drop k es ≡ filter is_kept es
    unfolding kept_at
    drop-filter [] zero lo hi = refl
    drop-filter [] (suc k) lo hi = refl
    drop-filter (e ∷ es) zero lo hi = rw (hi 0 (omega arith) (omega arith)) (
        ap (λ rest. e ∷ rest)
          (drop-filter es zero (λ i h. absurd (omega arith))
            (λ i h k. hi (suc i) (omega arith) (omega arith))))
    drop-filter (e ∷ es) (suc k) lo hi = rw (lo 0 (omega arith)) (
        drop-filter es k (λ i h. lo (suc i) (omega arith))
          (λ i h j. hi (suc i) (omega arith) (omega arith)))

    search-filter :
        (es : List A)
        → Ascending es
        → drop (search (length es) (kept_at time es cutoff)) es ≡ filter is_kept es
    search-filter es s =
        let first : IsFirst (kept_at time es cutoff) (length es)
            (search (length es) (kept_at time es cutoff)) =
          search-IsFirst (kept_at time es cutoff) (length es) (kept_at_mono es s) in
        drop-filter es _ first.before first.after

-- On events in the order of time, the binary search keeps exactly the events from the cutoff on.
pub prune-filter :
    (times : List ℕ) (events : List TokenEvent) (cutoff : ℕ)
    → Ascending (λ t. t) times
    → Ascending (λ e. e.at) events
    → (prune_times times cutoff ≡ filter (is_kept (λ t. t) cutoff) times)
      × (prune_token_events events cutoff ≡ filter (is_kept (λ e. e.at) cutoff) events)
unfolding prune_times prune_token_events
prune-filter times events cutoff st se =
    (search-filter (λ t. t) cutoff times st, search-filter (λ e. e.at) cutoff events se)
