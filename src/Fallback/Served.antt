-- ===== src/Fallback/Served.antt =====
-- The order of attempts of `Stream`, agent/provider/fallback/fallback.go.
use gude_agents.Prelude.{
  ℕ, suc, Bool, List, [], ◌∷◌, ◌++◌, ◌⊎◌, inl, inr, ◌≡◌, ◌≢◌, refl, ap, sym, Option, none, some, ok,
  err, Result-cases, arith,
}
use gude_agents.Fallback.{
  Attempt, Provider, StreamError, provider_failed, all_providers_failed, heard,
}
unfoldable use gude_agents.Fallback.{stream_from, stream}

events-cases :
    {Event : Type 0} (events : List Event)
    → (events ≡ []) ⊎ ((x : Event) × (xs : List Event) × (events ≡ x ∷ xs) × (events ≢ []))
events-cases [] = inl refl
events-cases (x ∷ xs) = inr (x, xs, refl, λ e. ground arith)

module _ {W Request Event Response Failure : Type 0} (req : Request) (emit : Bool) where
  -- Every provider of the list is tried in order, fails, and sends no event to the caller. The
  -- indices are the position, the world and the last failure, before and after.
  pub data SilentFailures
      : ℕ
        → Option (ℕ × Failure)
        → W
        → List (Provider W Request Event Response Failure)
        → ℕ
        → Option (ℕ × Failure)
        → W
        → Type 0 where
    untried : {i : ℕ} {last : Option (ℕ × Failure)} {w : W} → SilentFailures i last w [] i last w
    failed :
        {i j : ℕ} {last final : Option (ℕ × Failure)} {w w' : W}
        (p : Provider W Request Event Response Failure)
        {ps : List (Provider W Request Event Response Failure)} (e : Failure)
        → (p.stream w req emit).answer ≡ err e
        → heard emit (p.stream w req emit).events ≡ []
        → SilentFailures (suc i) (some (i, e)) (p.stream w req emit).world ps j final w'
        → SilentFailures i last w (p ∷ ps) j final w'

  -- The provider at position `j` answers, or fails after it has sent an event.
  pub record Answered (j : ℕ) (w : W) (p : Provider W Request Event Response Failure)
      (out : Attempt W Event Response (StreamError Failure)) : Type 0 where
    pub world_same : out.world ≡ (p.stream w req emit).world
    pub events_same : out.events ≡ heard emit (p.stream w req emit).events
    pub answer_same :
        ((resp : Response) × ((p.stream w req emit).answer ≡ ok resp) × (out.answer ≡ ok resp))
        ⊎ ((e : Failure) × ((p.stream w req emit).answer ≡ err e)
            × (heard emit (p.stream w req emit).events ≢ [])
            × (out.answer ≡ err (provider_failed j e)))

  pub data Outcome (i : ℕ) (last : Option (ℕ × Failure)) (w : W)
      (chain : List (Provider W Request Event Response Failure))
      (out : Attempt W Event Response (StreamError Failure)) : Type 0 where
    served :
        (before after : List (Provider W Request Event Response Failure))
        (p : Provider W Request Event Response Failure) (j : ℕ) (final : Option (ℕ × Failure))
        (w' : W)
        → chain ≡ before ++ p ∷ after
        → SilentFailures i last w before j final w'
        → Answered j w' p out
        → Outcome i last w chain out
    exhausted :
        (j : ℕ) (final : Option (ℕ × Failure))
        → SilentFailures i last w chain j final out.world
        → out.events ≡ []
        → out.answer ≡ err (all_providers_failed final)
        → Outcome i last w chain out

  later :
      (i : ℕ) (last : Option (ℕ × Failure)) (w : W) (p : Provider W Request Event Response Failure)
      (ps : List (Provider W Request Event Response Failure)) (e : Failure)
      (out : Attempt W Event Response (StreamError Failure))
      → (p.stream w req emit).answer ≡ err e
      → heard emit (p.stream w req emit).events ≡ []
      → Outcome (suc i) (some (i, e)) (p.stream w req emit).world ps out
      → Outcome i last w (p ∷ ps) out
  later i last w p ps e out a h (served before after q j final w' split silent done) =
      served (p ∷ before) after q j final w' (ap (λ qs. p ∷ qs) split) (failed p e a h silent) done
  later i last w p ps e out a h (exhausted j final silent quiet answer) =
      exhausted j final (failed p e a h silent) quiet answer

  stream_from-Outcome :
      (i : ℕ) (last : Option (ℕ × Failure)) (w : W)
      (chain : List (Provider W Request Event Response Failure))
      → Outcome i last w chain (stream_from i last chain w req emit)
  unfolding stream_from
  stream_from-Outcome i last w [] = exhausted i last untried refl refl
  stream_from-Outcome i last w (p ∷ ps) = elim (Result-cases (p.stream w req emit).answer) [
    | inl (e, bad) ↦ rw bad (elim (events-cases (heard emit (p.stream w req emit).events)) [
      | inl quiet ↦ rw quiet (
          later i last w p ps e _ bad quiet
            (stream_from-Outcome (suc i) (some (i, e)) (p.stream w req emit).world ps))
      | inr (x, xs, loud, sent) ↦ rw loud (
          served [] ps p i last w refl untried (record {
            world_same = refl;
            events_same = sym loud;
            answer_same = inr (e, bad, sent, refl);
          }))
    ])
    | inr (resp, good) ↦ rw good (
        served [] ps p i last w refl untried
          (record { world_same = refl; events_same = refl; answer_same = inl (resp, good, refl) }))
  ]

  -- `Stream` tries the providers in order. Either all of them fail without an event to the caller,
  -- and the answer is the last failure; or the first provider that does not do so is the last one that is
  -- tried, and the events, the response or failure, and the world are its own.
  pub stream-Outcome :
      (chain : List (Provider W Request Event Response Failure)) (w : W)
      → Outcome 0 none w chain (stream chain w req emit)
  unfolding stream
  stream-Outcome chain w = stream_from-Outcome 0 none w chain
