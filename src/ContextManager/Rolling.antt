-- ===== src/ContextManager/Rolling.antt =====
-- `RollingSummary.Prepare` of agent/contextmanager/contextmanager.go. The state store, the estimator
-- and the summarizer are arguments that may fail; `json` is part of the first. What is written to
-- the state store is part of the result.
pub mod Coverage
use gude_agents.Prelude.{
  ℕ, zero, suc, ◌+◌, ◌-◌, ◌%◌, String, Bool, true, false, not, ◌&&◌, List, [], ◌∷◌, ◌++◌, Option,
  none, some, Result, ok, err, length, take, drop, concat, ltb, leb, nat_eq, ◌==◌, if◌then◌else◌,
}
use gude_agents.Words.{Int64, sle, two64}
use gude_agents.Message.{Message, text, role_user}
use gude_agents.ContextManager.{ContextManagerInput, has_unresolved}

pub record RollingState : Type 0 where
  pub version : ℕ
  pub summary : String
  pub covered_through : ℕ
  pub source_revision : ℕ

-- An error of a dependency is `failed`; the wrapping texts are left out.
pub data RollingError : Type 0 where
  beyond_recent : RollingError
  failed : String → RollingError

-- The two settings, and what the manager calls.
pub record RollingSummary : Type 0 where
  pub load : Result String (RollingState × ℕ)
  pub estimate_tokens : List Message → Result String Int64
  pub summarizer : String → List Message → Result String String
  pub save : RollingState → ℕ → Result String ℕ
  pub max_input : Int64
  pub preserve : ℕ

-- The messages for the model, or an error, and the state that the store accepted.
pub record Prepared : Type 0 where
  pub output : Result RollingError (List Message)
  pub saved : Option RollingState

unfoldable pub summary_message : String → Message
summary_message summary = record {
  role = role_user;
  content =
      text (record {
        text =
            concat
              "[Automated summary of earlier messages in this conversation — not a new user message]\n\n"
              summary;
      })
      ∷ [];
}

-- The closure `build`, at the recent messages of the moment.
unfoldable pub build : ContextManagerInput → List Message → RollingState → List Message
build input recent s =
    (if s.summary == "" then [] else summary_message s.summary ∷ [])
    ++ (recent ++ (input.transient ++ input.current))

-- `for cut > 0 && hasUnresolved(in.Recent[:cut]) { cut-- }`
unfoldable pub safe_cut : List Message → ℕ → ℕ
safe_cut recent zero = zero
safe_cut recent (suc n) =
    let lower = safe_cut recent n in if has_unresolved (take (suc n) recent) then lower else suc n

abbrev pub unsaved : Result RollingError (List Message) → Prepared
unsaved r = record { output = r; saved = none }

-- From the new summary on.
unfoldable pub save_summary :
    RollingSummary
    → ContextManagerInput
    → List Message
    → ℕ
    → ℕ
    → RollingState
    → ℕ
    → String
    → Prepared
save_summary r input recent boundary cut state revision summary =
    let state' : RollingState = record {
      version = 1;
      summary = summary;
      covered_through = (boundary + cut) % two64;
      source_revision = input.revision;
    } in
    elim (r.save state' revision) [
      | err e ↦ unsaved (err (failed e))
      | ok _ ↦ record { output = ok (build input (drop cut recent) state'); saved = some state' }
    ]

unfoldable pub summarize :
    RollingSummary → ContextManagerInput → List Message → ℕ → ℕ → RollingState → ℕ → Prepared
summarize r input recent boundary cut state revision =
    elim (r.summarizer state.summary (take cut recent)) [
      | err e ↦ unsaved (err (failed e))
      | ok summary ↦ save_summary r input recent boundary cut state revision summary
    ]

-- From the loaded state on, at the recent messages that it does not cover.
unfoldable pub prepare_uncovered :
    RollingSummary → ContextManagerInput → List Message → ℕ → RollingState → ℕ → Prepared
prepare_uncovered r input recent boundary state revision =
    let messages = build input recent state in
    let cut = safe_cut recent (length recent - r.preserve) in
    elim (r.estimate_tokens messages) [
      | err e ↦ unsaved (err (failed e))
      | ok estimate ↦
          if sle estimate r.max_input
          then unsaved (ok messages)
          else if leb (length recent) r.preserve
          then unsaved (ok messages)
          else if nat_eq cut 0
          then unsaved (ok messages)
          else summarize r input recent boundary cut state revision
    ]

unfoldable pub prepare_from : RollingSummary → ContextManagerInput → RollingState → ℕ → Prepared
prepare_from r input state revision =
    let skip = state.covered_through - input.boundary in
    if ltb input.boundary state.covered_through
    then (if ltb (length input.recent) skip
        then unsaved (err beyond_recent)
        else prepare_uncovered r input (drop skip input.recent) state.covered_through state
            revision)
    else prepare_uncovered r input input.recent input.boundary state revision

unfoldable pub prepare_loaded :
    RollingSummary → ContextManagerInput → Result String (RollingState × ℕ) → Prepared
prepare_loaded r input (err e) = unsaved (err (failed e))
prepare_loaded r input (ok (state, revision)) = prepare_from r input state revision

unfoldable pub prepare : RollingSummary → ContextManagerInput → Prepared
unfolding prepare_loaded
prepare r input = prepare_loaded r input r.load

-- `HistoryBoundary`
unfoldable pub covered_boundary : RollingSummary → Result String ℕ
covered_boundary r = elim r.load [ err e ↦ err e | ok (state, _) ↦ ok state.covered_through ]
