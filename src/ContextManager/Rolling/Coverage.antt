-- ===== src/ContextManager/Rolling/Coverage.antt =====
-- No message falls between the summary and what the model is shown.
use gude_agents.Prelude.{
  ℕ, zero, suc, ◌+◌, ◌-◌, ◌%◌, ◌<◌, ◌≤◌, ◌≡◌, refl, subst, sym, ap, ◌⊎◌, inl, inr, String, false,
  [], ◌∷◌, ◌++◌, ◌==◌, if◌then◌else◌, List, some, ok, err, length, take, drop, length-drop, arith,
  ltb, leb, nat_eq, Bool-cases, Result-cases,
}
use gude_agents.Words.{sle, two64}
use gude_agents.Message.{Message}
use gude_agents.ContextManager.{ContextManagerInput, has_unresolved}
use gude_agents.ContextManager.Rolling.{
  RollingState, RollingError, beyond_recent, failed, RollingSummary, Prepared, unsaved, build,
  safe_cut, save_summary, summarize, prepare_uncovered, prepare_from, prepare_loaded, prepare,
  summary_message,
}

-- What the model is shown: the summary, where there is one, then the messages that are not covered, the
-- transient and the current ones.
abbrev pub view : ContextManagerInput → RollingState → List Message → List Message
view input state uncovered =
    (if state.summary == "" then [] else summary_message state.summary ∷ [])
    ++ (uncovered ++ (input.transient ++ input.current))

build-view :
    (input : ContextManagerInput) (recent : List Message) (state : RollingState)
    → build input recent state ≡ view input state recent
unfolding build
build-view input recent state = refl

-- The cut is safe, and no later than asked.
record IsSafe (recent : List Message) (limit cut : ℕ) : Type 0 where
  within : cut ≤ limit
  resolved : (cut ≡ 0) ⊎ (has_unresolved (take cut recent) ≡ false)

safe_cut-IsSafe : (recent : List Message) (limit : ℕ) → IsSafe recent limit (safe_cut recent limit)
unfolding safe_cut
safe_cut-IsSafe recent zero = record { within = omega arith; resolved = inl refl }
safe_cut-IsSafe recent (suc n) = elim (Bool-cases (has_unresolved (take (suc n) recent))) [
  | inr whole ↦ rw whole (record { within = omega arith; resolved = inr whole })
  | inl split ↦
      let below = safe_cut-IsSafe recent n in
      rw split (record { within = omega (arith, below.within); resolved = below.resolved })
]

module _ (r : RollingSummary) (input : ContextManagerInput) where
  -- What a call may do from the state `state`, loaded at `revision`, when `skipped` messages of the
  -- recent ones are covered already.
  pub data Outcome (state : RollingState) (revision skipped : ℕ) (p : Prepared) : Type 0 where
    -- an error saves nothing
    refused : (e : RollingError) → p ≡ unsaved (err e) → Outcome state revision skipped p
    -- all that is not covered is shown
    shown :
        p ≡ unsaved (ok (view input state (drop skipped input.recent)))
        → Outcome state revision skipped p
    -- `cut` more messages are covered by a new summary, all later ones are shown
    advanced :
        (cut : ℕ) (state' : RollingState)
        → 0 < cut
        → cut + r.preserve ≤ length (drop skipped input.recent)
        → has_unresolved (take cut (drop skipped input.recent)) ≡ false
        → r.summarizer state.summary (take cut (drop skipped input.recent)) ≡ ok state'.summary
        → state'.covered_through ≡ input.boundary + skipped + cut
        → state'.source_revision ≡ input.revision
        → (next : ℕ) → r.save state' revision ≡ ok next
        → p ≡ record {
          output = ok (view input state' (drop cut (drop skipped input.recent)));
          saved = some state';
        }
        → Outcome state revision skipped p

  module _ (state : RollingState) (revision skipped : ℕ)
      (bounded : input.boundary + length input.recent < two64)
      (inside : skipped ≤ length input.recent) where
    abbrev rest : List Message
    rest = drop skipped input.recent

    save_summary-Outcome :
        (cut : ℕ) (summary : String)
        → 0 < cut
        → cut ≤ length rest - r.preserve
        → has_unresolved (take cut rest) ≡ false
        → r.summarizer state.summary (take cut rest) ≡ ok summary
        → Outcome state revision skipped
            (save_summary r input rest (input.boundary + skipped) cut state revision summary)
    unfolding save_summary
    save_summary-Outcome cut summary pos fits whole good =
        let state' : RollingState = record {
          version = 1;
          summary = summary;
          covered_through = (input.boundary + skipped + cut) % two64;
          source_revision = input.revision;
        } in
        elim (Result-cases (r.save state' revision)) [
          | inl (e, bad) ↦ rw (bad, save_summary) (refused (failed e) refl)
          | inr (next, saved) ↦
              rw (saved, save_summary)
                (advanced cut state' pos (omega arith) whole good
                  (omega (arith, length-drop skipped input.recent)) refl next saved
                  (ap (λ ms. record { output = ok ms; saved = some state' })
                    (build-view input (drop cut rest) state')))
        ]

    summarize-Outcome :
        (cut : ℕ)
        → 0 < cut
        → cut ≤ length rest - r.preserve
        → has_unresolved (take cut rest) ≡ false
        → Outcome state revision skipped
            (summarize r input rest (input.boundary + skipped) cut state revision)
    unfolding summarize
    summarize-Outcome cut pos fits whole =
        elim (Result-cases (r.summarizer state.summary (take cut rest))) [
          | inl (e, bad) ↦ rw (bad, summarize) (refused (failed e) refl)
          | inr (summary, good) ↦
              rw (good, summarize) (save_summary-Outcome cut summary pos fits whole good)
        ]

    prepare_uncovered-Outcome :
        Outcome state revision skipped
          (prepare_uncovered r input rest (input.boundary + skipped) state revision)
    unfolding prepare_uncovered
    prepare_uncovered-Outcome =
        let safe = safe_cut-IsSafe rest (length rest - r.preserve) in
        elim (Result-cases (r.estimate_tokens (build input rest state))) [
          | inl (e, bad) ↦ rw (bad, prepare_uncovered) (refused (failed e) refl)
          | inr (estimate, counted) ↦
              rw (counted, prepare_uncovered)
                (elim (Bool-cases (sle estimate r.max_input)) [
                  | inl small ↦
                      rw small (shown (ap (λ ms. unsaved (ok ms)) (build-view input rest state)))
                  | inr large ↦ elim (Bool-cases (leb (length rest) r.preserve)) [
                    | inl few ↦
                        rw (large, few)
                          (shown (ap (λ ms. unsaved (ok ms)) (build-view input rest state)))
                    | inr many ↦
                        elim (Bool-cases (nat_eq (safe_cut rest (length rest - r.preserve)) 0)) [
                          | inl uncut ↦
                              rw (large, many, uncut)
                                (shown (ap (λ ms. unsaved (ok ms)) (build-view input rest state)))
                          | inr cut ↦
                              rw (large, many, cut)
                                (summarize-Outcome _ (ground arith) safe.within
                                  (ground (arith, safe.resolved)))
                        ]
                  ]
                ])
        ]

  -- The messages that the loaded state covers beyond the boundary of the input.
  abbrev pub covered : RollingState → ℕ
  covered state = state.covered_through - input.boundary

  prepare_from-Outcome :
      (state : RollingState) (revision : ℕ)
      → input.boundary + length input.recent < two64
      → Outcome state revision (covered state) (prepare_from r input state revision)
  unfolding prepare_from
  prepare_from-Outcome state revision bounded =
      elim (Bool-cases (ltb input.boundary state.covered_through)) [
        | inr old ↦
            let none_covered : 0 ≡ covered state = ground arith in
            rw old (
              subst
                (λ n.
                  Outcome state revision n
                    (prepare_uncovered r input input.recent input.boundary state revision))
                none_covered
                (subst
                  (λ b.
                    Outcome state revision 0
                      (prepare_uncovered r input input.recent b state revision))
                  (let e : input.boundary + 0 ≡ input.boundary = omega arith in e)
                  (prepare_uncovered-Outcome state revision 0 bounded (omega arith))))
        | inl ahead ↦ elim (Bool-cases (ltb (length input.recent) (covered state))) [
          | inl beyond ↦ rw (ahead, beyond) (refused beyond_recent refl)
          | inr inside ↦
              rw (ahead, inside)
                (subst
                  (λ b. Outcome state revision (covered state) (
                    prepare_uncovered r input (drop (covered state) input.recent) b state revision))
                  (let e : input.boundary + covered state ≡ state.covered_through = ground arith in
                    e)
                  (prepare_uncovered-Outcome state revision (covered state) bounded (ground arith)))
        ]
      ]

  -- What `Prepare` may do. Failing to load the state, or any other error, saves nothing. Otherwise
  -- the recent messages behind what the loaded state covers are shown in full behind its summary, and
  -- before the transient and the current ones; or
  -- a new state is saved at the loaded revision, whose summary is made of exactly the `cut` messages
  -- that follow, which leave no tool call open and spare the last `preserve` messages, and which
  -- covers exactly them; then all messages behind those are shown with the new summary.
  pub prepare-Outcome :
      input.boundary + length input.recent < two64
      → ((e : String) × (r.load ≡ err e) × (prepare r input ≡ unsaved (err (failed e))))
        ⊎ ((state : RollingState) × (revision : ℕ) × (r.load ≡ ok (state, revision))
            × Outcome state revision (covered state) (prepare r input))
  unfolding prepare
  prepare-Outcome bounded = elim (Result-cases r.load) [
    | inl (e, bad) ↦ inl (e, bad, ap (prepare_loaded r input) bad)
    | inr (found, good) ↦ inr (
      found.0,
      found.1,
      good,
      subst (Outcome found.0 found.1 (covered found.0)) (sym (ap (prepare_loaded r input) good))
          (prepare_from-Outcome found.0 found.1 bounded),
    )
  ]
