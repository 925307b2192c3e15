-- ===== src/Examples/Providers.antt =====
-- Concrete runs for agent/provider/fallback and agent/capabilities.go.
use gude_agents.Prelude.{ℕ, suc, String, true, [], ◌∷◌, none, some, ok, err, ◌≡◌, ◌↔◌, All}
use gude_agents.Words.{sle, slt}
use gude_agents.Fallback.{
  Provider, ModelCapabilities, supported, unsupported, no_capabilities, capabilities_of,
  capabilities, stream,
}
use gude_agents.Fallback.Meet.{Some, tool_use, feature, capabilities-feature, capabilities-limits}
use gude_agents.Fallback.Served.{Outcome, stream-Outcome}

abbrev strong : ModelCapabilities
strong = record no_capabilities {
  context_window_tokens = 1000;
  max_output_tokens = 50;
  tool_use = supported;
}

-- It counts its calls, and fails.
abbrev broken : Provider ℕ String String String String
broken = record {
  capabilities = some strong;
  stream = λ w req emit. record { world = suc w; events = []; answer = err "down" };
}

abbrev working : Provider ℕ String String String String
working = record {
  capabilities = some (record strong { context_window_tokens = 500 });
  stream = λ w req emit. record { world = suc w; events = "token" ∷ []; answer = ok req };
}

stream-Outcome_example :
    Outcome "hi" true 0 none 0 (broken ∷ working ∷ []) (stream (broken ∷ working ∷ []) 0 "hi" true)
stream-Outcome_example = stream-Outcome "hi" true (broken ∷ working ∷ []) 0

capabilities-feature_example :
    ((feature tool_use (capabilities (broken ∷ working ∷ [])) ≡ supported)
      ↔ All (λ p. feature tool_use (capabilities_of p) ≡ supported) (broken ∷ working ∷ []))
    × ((feature tool_use (capabilities (broken ∷ working ∷ [])) ≡ unsupported)
        ↔ Some (λ p. feature tool_use (capabilities_of p) ≡ unsupported) (broken ∷ working ∷ []))
capabilities-feature_example = capabilities-feature tool_use broken (working ∷ [])

capabilities-limits_example :
    let c = capabilities (broken ∷ working ∷ []) in
    (slt 0 c.context_window_tokens ≡ true
      → All
          (λ p.
            (slt 0 (capabilities_of p).context_window_tokens ≡ true)
            × (sle c.context_window_tokens (capabilities_of p).context_window_tokens ≡ true))
          (broken ∷ working ∷ []))
    × (slt 0 c.max_output_tokens ≡ true
        → All
            (λ p.
              (slt 0 (capabilities_of p).max_output_tokens ≡ true)
              × (sle c.max_output_tokens (capabilities_of p).max_output_tokens ≡ true))
            (broken ∷ working ∷ []))
capabilities-limits_example = capabilities-limits broken (working ∷ [])
