-- ===== src/Mcp/Pool/Sound.antt =====
-- What holds of the pool of agent/mcp/pool.go in every interleaving of its callers.
use gude_agents.Prelude.{
  ℕ, suc, ◌+◌, ◌-◌, ◌≤◌, ◌<◌, ◌≡◌, refl, sym, ap, ◌∙◌, subst, Bool, true, false, List, [], ◌∷◌,
  ◌++◌, length, length-append, ltb, ltb→lt, nat_eq, arith, Bool-cases, if◌then◌else◌, inl, inr,
}
use gude_agents.Mcp.Pool.{
  Session, Pool, new_pool, Round, refused, leases, connects, waits, acquire, connection_failed,
  connected, release, discard, has_room, CallError, reusable, end_call, close,
}
use gude_agents.Mcp.Pool.Steps.{
  World, new_world, ended_unless, leased_if, Step, takes, starts, fails, connects_to, ends, closes,
  Reach, here, next,
}

abbrev pub count : Session → List Session → ℕ
count s [] = 0
count s (t ∷ ts) = let rest = count s ts in if nat_eq t s then suc rest else rest

count-append : (s : Session) (xs ys : List Session) → count s (xs ++ ys) ≡ count s xs + count s ys
count-append s [] ys = omega arith
count-append s (x ∷ xs) ys = ground (arith, count-append s xs ys)

-- The pool's size counts the sessions that are idle or leased and those being started, and stays
-- within the limit; a closed pool has no idle session; and each session that was started is in one
-- place, once.
pub record IsSound (max_size : ℕ) (w : World) : Type 0 where
  pub counted : w.pool.size ≡ length w.pool.sessions + length w.leased + w.connecting
  pub bounded : w.pool.size ≤ max_size
  pub limited : w.pool.max_size ≡ max_size
  pub shut : w.pool.closed ≡ true → length w.pool.sessions ≡ 0
  pub placed :
      (s : Session)
      → count s w.pool.sessions + count s w.leased + count s w.ended
        ≡ (if ltb s w.started then 1 else 0)

-- What a round of `acquire` says of the pool that it found.
abbrev Found : Pool → Round → Type 0
Found p refused = p.closed ≡ true
Found p (leases s p') =
    (p.sessions ≡ s ∷ p'.sessions)
    × (p'.closed ≡ false)
    × (p'.size ≡ p.size)
    × (p'.max_size ≡ p.max_size)
Found p (connects p') =
    (p'.sessions ≡ p.sessions)
    × (p'.closed ≡ false)
    × (p'.size ≡ p.size + 1)
    × (p'.max_size ≡ p.max_size)
    × (p.size < p.max_size)
Found p waits = (length p.sessions ≡ 0) × (p.max_size ≤ p.size)

acquire-idle :
    (p : Pool) (l : List Session) → p.closed ≡ false → p.sessions ≡ l → Found p (acquire p)
unfolding acquire
acquire-idle p [] o e = elim (Bool-cases (ltb p.size p.max_size)) [
  | inl small ↦
      rw (o, acquire)
        (rw (e, acquire) (rw (small, acquire) (e, o, refl, refl, ltb→lt p.size p.max_size small)))
  | inr full ↦ rw (o, acquire) (rw (e, acquire) (rw (full, acquire) (refl, ground (arith, full))))
]
acquire-idle p (s ∷ l) o e = rw (o, acquire) (rw (e, acquire) (refl, o, refl, refl))

acquire-Found : (p : Pool) → Found p (acquire p)
acquire-Found p = elim (Bool-cases p.closed) [
  | inr o ↦ acquire-idle p p.sessions o refl
  | inl c ↦ unfold acquire in rw (c, acquire) refl
]

-- A session that a call gives back, and the pool behind it.
abbrev Returned : Pool → Session → Pool × Bool → Type 0
Returned p s (p', true) =
    (p.closed ≡ false)
    × (p'.sessions ≡ p.sessions ++ (s ∷ []))
    × (p'.closed ≡ p.closed)
    × (p'.size ≡ p.size)
    × (p'.max_size ≡ p.max_size)
Returned p s (p', false) =
    (p'.sessions ≡ p.sessions)
    × (p'.closed ≡ p.closed)
    × (p'.size ≡ p.size - 1)
    × (p'.max_size ≡ p.max_size)

end_call-Returned : (e : CallError) (s : Session) (p : Pool) → Returned p s (end_call e s p)
unfolding end_call release discard
end_call-Returned e s p = elim (Bool-cases (reusable e)) [
  | inr broken ↦ rw broken (refl, refl, refl, refl)
  | inl alive ↦ rw alive (elim (Bool-cases p.closed) [
    | inl c ↦ rw (c, release) (refl, refl, refl, refl)
    | inr o ↦ rw (o, release) (refl, refl, refl, refl, refl)
  ])
]

abbrev Kept : Pool → Pool × Bool → Type 0
Kept p (p', kept) =
    (p'.sessions ≡ p.sessions)
    × (p'.closed ≡ p.closed)
    × (p'.max_size ≡ p.max_size)
    × (p'.size ≡ (if kept then p.size else p.size - 1))

connected-Kept : (p : Pool) → Kept p (connected p)
unfolding connected
connected-Kept p = elim (Bool-cases p.closed) [
  | inl c ↦ rw (c, connected) (refl, refl, refl, refl)
  | inr o ↦ rw (o, connected) (refl, refl, refl, refl)
]

abbrev Shut : Pool → Pool × List Session → Type 0
Shut p (p', idle) =
    (p'.closed ≡ true)
    × (length p'.sessions ≡ 0)
    × (p'.max_size ≡ p.max_size)
    × (p'.size ≡ p.size - length p.sessions)
    × ((s : Session) → count s p'.sessions + count s idle ≡ count s p.sessions)

empty-count : (s : Session) (l : List Session) → length l ≡ 0 → count s l ≡ 0
empty-count s [] h = refl
empty-count s (x ∷ l) h = absurd (omega arith)

close-Shut :
    (p : Pool) (open_or_closed : Bool)
    → p.closed ≡ open_or_closed
    → (p.closed ≡ true → length p.sessions ≡ 0)
    → Shut p (close p)
unfolding close
close-Shut p true c h =
    let none_idle = h c in
    rw (c, close) (refl, none_idle, refl, omega (arith, none_idle), λ s. omega arith)
close-Shut p false o h = rw (o, close) (refl, refl, refl, refl, λ s. omega arith)

module _ (max_size : ℕ) (w : World) (i : IsSound max_size w) where
  takes-IsSound :
      (s : Session) (p : Pool)
      → acquire w.pool ≡ leases s p
      → IsSound max_size (record w { pool = p; leased = s ∷ w.leased })
  takes-IsSound s p e =
      let f : Found w.pool (leases s p) = subst (Found w.pool) e (acquire-Found w.pool) in
      let fewer = ap (λ l. length l) f.0 in
      record {
        counted = omega (arith, fewer, i.counted, f.2);
        bounded = omega (arith, i.bounded, f.2);
        limited = f.3 ∙ i.limited;
        shut = λ c. ground (arith, f.1);
        placed = λ t. ground (arith, ap (λ l. count t l) f.0, i.placed t);
      }

  starts-IsSound :
      (p : Pool)
      → acquire w.pool ≡ connects p
      → IsSound max_size (record w { pool = p; connecting = w.connecting + 1 })
  starts-IsSound p e =
      let f : Found w.pool (connects p) = subst (Found w.pool) e (acquire-Found w.pool) in
      let same = ap (λ l. length l) f.0 in
      record {
        counted = omega (arith, same, i.counted, f.2);
        bounded = omega (arith, i.bounded, f.2, f.4, i.limited);
        limited = f.3 ∙ i.limited;
        shut = λ c. ground (arith, f.1);
        placed = λ t. omega (arith, ap (λ l. count t l) f.0, i.placed t);
      }

  fails-IsSound :
      (n : ℕ)
      → w.connecting ≡ suc n
      → IsSound max_size (record w { pool = connection_failed w.pool; connecting = n })
  unfolding connection_failed
  fails-IsSound n e = record {
    counted = omega (arith, i.counted, e);
    bounded = omega (arith, i.bounded);
    limited = i.limited;
    shut = i.shut;
    placed = i.placed;
  }

  connects_to-IsSound :
      (n : ℕ) (p : Pool) (kept : Bool)
      → w.connecting ≡ suc n
      → connected w.pool ≡ (p, kept)
      → IsSound max_size (record {
        pool = p;
        connecting = n;
        leased = leased_if kept w.started w.leased;
        ended = ended_unless kept w.started w.ended;
        started = suc w.started;
      })
  connects_to-IsSound n p true e c =
      let f = subst (Kept w.pool) c (connected-Kept w.pool) in
      let same = ap (λ l. length l) f.0 in
      record {
        counted = omega (arith, same, i.counted, f.3, e);
        bounded = omega (arith, i.bounded, f.3);
        limited = f.2 ∙ i.limited;
        shut = λ d. same ∙ i.shut (sym f.1 ∙ d);
        placed = λ t. ground (arith, ap (λ l. count t l) f.0, i.placed t);
      }
  connects_to-IsSound n p false e c =
      let f = subst (Kept w.pool) c (connected-Kept w.pool) in
      let same = ap (λ l. length l) f.0 in
      record {
        counted = omega (arith, same, i.counted, f.3, e);
        bounded = omega (arith, i.bounded, f.3);
        limited = f.2 ∙ i.limited;
        shut = λ d. same ∙ i.shut (sym f.1 ∙ d);
        placed = λ t. ground (arith, ap (λ l. count t l) f.0, i.placed t);
      }

  ends-IsSound :
      (s : Session) (before after : List Session) (e : CallError) (p : Pool) (kept : Bool)
      → w.leased ≡ before ++ s ∷ after
      → end_call e s w.pool ≡ (p, kept)
      → IsSound max_size
          (record w { pool = p; leased = before ++ after; ended = ended_unless kept s w.ended })
  ends-IsSound s before after e p true l c =
      let f = subst (Returned w.pool s) c (end_call-Returned e s w.pool) in
      let held = ap (λ x. length x) l in
      let more = ap (λ x. length x) f.1 in
      let both = length-append before (s ∷ after) in
      let rest = length-append before after in
      record {
        counted =
            omega (
              arith,
              held,
              more,
              both,
              rest,
              length-append w.pool.sessions (s ∷ []),
              i.counted,
              f.3,
            );
        bounded = omega (arith, i.bounded, f.3);
        limited = f.4 ∙ i.limited;
        shut = λ d. ground (arith, f.0, f.2);
        placed = λ t.
            let counts = ap (λ x. count t x) l in
            let idle = ap (λ x. count t x) f.1 in
            ground (
              arith,
              counts,
              idle,
              count-append t before (s ∷ after),
              count-append t before after,
              count-append t w.pool.sessions (s ∷ []),
              i.placed t,
            );
      }
  ends-IsSound s before after e p false l c =
      let f = subst (Returned w.pool s) c (end_call-Returned e s w.pool) in
      let held = ap (λ x. length x) l in
      let same = ap (λ x. length x) f.0 in
      record {
        counted = omega (
          arith,
          held,
          same,
          length-append before (s ∷ after),
          length-append before after,
          i.counted,
          f.2,
        );
        bounded = omega (arith, i.bounded, f.2);
        limited = f.3 ∙ i.limited;
        shut = λ d. same ∙ i.shut (sym f.1 ∙ d);
        placed = λ t.
            let counts = ap (λ x. count t x) l in
            let idle = ap (λ x. count t x) f.0 in
            ground (
              arith,
              counts,
              idle,
              count-append t before (s ∷ after),
              count-append t before after,
              i.placed t,
            );
      }

  closes-IsSound :
      (p : Pool) (idle : List Session)
      → close w.pool ≡ (p, idle)
      → IsSound max_size (record w { pool = p; ended = idle ++ w.ended })
  closes-IsSound p idle c =
      let f = subst (Shut w.pool) c (close-Shut w.pool w.pool.closed refl i.shut) in
      record {
        counted = omega (arith, i.counted, f.1, f.3);
        bounded = omega (arith, i.bounded, f.3);
        limited = f.2 ∙ i.limited;
        shut = λ d. f.1;
        placed = λ t. omega (arith, f.4 t, i.placed t, count-append t idle w.ended);
      }

Step-IsSound : (max_size : ℕ) (w w' : World) → IsSound max_size w → Step w w' → IsSound max_size w'
Step-IsSound max_size w w' i (takes s p e h) =
    subst (IsSound max_size) (sym h) (takes-IsSound max_size w i s p e)
Step-IsSound max_size w w' i (starts p e h) =
    subst (IsSound max_size) (sym h) (starts-IsSound max_size w i p e)
Step-IsSound max_size w w' i (fails n e h) =
    subst (IsSound max_size) (sym h) (fails-IsSound max_size w i n e)
Step-IsSound max_size w w' i (connects_to n p kept e c h) =
    subst (IsSound max_size) (sym h) (connects_to-IsSound max_size w i n p kept e c)
Step-IsSound max_size w w' i (ends s before after e p kept l c h) =
    subst (IsSound max_size) (sym h) (ends-IsSound max_size w i s before after e p kept l c)
Step-IsSound max_size w w' i (closes p idle c h) =
    subst (IsSound max_size) (sym h) (closes-IsSound max_size w i p idle c)

new_world-IsSound : (max_size : ℕ) → 0 < max_size → IsSound max_size (new_world max_size)
unfolding new_pool
new_world-IsSound max_size h = record {
  counted = omega arith;
  bounded = omega arith;
  limited = refl;
  shut = λ c. ground arith;
  placed = λ t. ground arith;
}

-- However the callers of a pool interleave: the size counts the idle sessions, the leased ones and the
-- connections that are being started, and is at most the limit; a closed pool holds no idle session;
-- and every session that was started is idle, leased to one call, or closed, and only one of these.
pub Reach-IsSound :
    (max_size : ℕ) (w : World) → 0 < max_size → Reach max_size w → IsSound max_size w
Reach-IsSound max_size w h here = new_world-IsSound max_size h
Reach-IsSound max_size w h (next {w = v} r st) =
    Step-IsSound max_size v w (Reach-IsSound max_size v h r) st

-- In every reachable state: a call that ends finds room in the channel, so that it never blocks with
-- the lock held; a caller waits only while as many sessions as the pool may have are leased or being
-- started; and a closed pool's size counts just those.
pub Reach-progress :
    (max_size : ℕ) (w : World) (s : Session) (before after : List Session)
    → 0 < max_size
    → Reach max_size w
    → (w.leased ≡ before ++ s ∷ after → has_room w.pool ≡ true)
      × (acquire w.pool ≡ waits → length w.leased + w.connecting ≡ max_size)
      × (w.pool.closed ≡ true → w.pool.size ≡ length w.leased + w.connecting)
Reach-progress max_size w s before after h r =
    let i = Reach-IsSound max_size w h r in
    (
      λ l. ground (
        arith,
        ap (λ x. length x) l,
        length-append before (s ∷ after),
        i.counted,
        i.bounded,
        i.limited,
      ),
      λ e.
          let f : Found w.pool waits = subst (Found w.pool) e (acquire-Found w.pool) in
          omega (arith, f.0, f.1, i.counted, i.bounded, i.limited),
      λ c. omega (arith, i.shut c, i.counted),
    )
