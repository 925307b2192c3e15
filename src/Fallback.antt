-- ===== src/Fallback.antt =====
-- The chain of providers, agent/provider/fallback/fallback.go, and the capabilities that it
-- combines, agent/capabilities.go. A provider is code behind an interface: here a record with its
-- answer to a request, which may change the world `W` that the providers live in and which emits
-- events on its way. The callback of an attempt is observed through the events that reach the caller.
pub mod Meet
pub mod Served
use gude_agents.Prelude.{
  ℕ, suc, String, Bool, true, false, List, [], ◌∷◌, Option, none, some, Result, ok, err, nat_eq,
  if◌then◌else◌,
}
use gude_agents.Words.{Int64, sle, slt}

pub data Capability : Type 0 where
  unknown supported unsupported : Capability

pub record ToolChoiceCapabilities : Type 0 where
  pub auto : Capability
  pub required : Capability
  pub specific : Capability

pub record ModelCapabilities : Type 0 where
  pub context_window_tokens : Int64
  pub max_output_tokens : Int64
  pub tool_use : Capability
  pub tool_choice : ToolChoiceCapabilities
  pub native_structured_output : Capability

-- The zero value.
abbrev pub no_capabilities : ModelCapabilities
no_capabilities = record {
  context_window_tokens = 0;
  max_output_tokens = 0;
  tool_use = unknown;
  tool_choice = record { auto = unknown; required = unknown; specific = unknown };
  native_structured_output = unknown;
}

-- One field of `MergeModelCapabilities`: a value that is set replaces the base's.
abbrev pub override_capability : Capability → Capability → Capability
override_capability base unknown = base
override_capability base supported = supported
override_capability base unsupported = unsupported

abbrev pub override_limit : Int64 → Int64 → Int64
override_limit base override = if nat_eq override 0 then base else override

unfoldable pub merge_model_capabilities : ModelCapabilities → ModelCapabilities → ModelCapabilities
merge_model_capabilities base override = record {
  context_window_tokens = override_limit base.context_window_tokens override.context_window_tokens;
  max_output_tokens = override_limit base.max_output_tokens override.max_output_tokens;
  tool_use = override_capability base.tool_use override.tool_use;
  tool_choice = record {
    auto = override_capability base.tool_choice.auto override.tool_choice.auto;
    required = override_capability base.tool_choice.required override.tool_choice.required;
    specific = override_capability base.tool_choice.specific override.tool_choice.specific;
  };
  native_structured_output =
      override_capability base.native_structured_output override.native_structured_output;
}

abbrev pub conservative_capability : Capability → Capability → Capability
conservative_capability unsupported right = unsupported
conservative_capability unknown unsupported = unsupported
conservative_capability supported unsupported = unsupported
conservative_capability supported supported = supported
conservative_capability unknown unknown = unknown
conservative_capability unknown supported = unknown
conservative_capability supported unknown = unknown

unfoldable pub conservative_limit : Int64 → Int64 → Int64
conservative_limit left right =
    if sle left 0 then 0 else if sle right 0 then 0 else if slt right left then right else left

-- The body of the loop of `Capabilities`.
abbrev pub meet : ModelCapabilities → ModelCapabilities → ModelCapabilities
meet caps next = record {
  context_window_tokens = conservative_limit caps.context_window_tokens next.context_window_tokens;
  max_output_tokens = conservative_limit caps.max_output_tokens next.max_output_tokens;
  tool_use = conservative_capability caps.tool_use next.tool_use;
  tool_choice = record {
    auto = conservative_capability caps.tool_choice.auto next.tool_choice.auto;
    required = conservative_capability caps.tool_choice.required next.tool_choice.required;
    specific = conservative_capability caps.tool_choice.specific next.tool_choice.specific;
  };
  native_structured_output =
      conservative_capability caps.native_structured_output next.native_structured_output;
}

-- What an attempt leaves: the world, the events that it emitted and its answer.
pub record Attempt (W Event Response Failure : Type 0) : Type 0 where
  pub world : W
  pub events : List Event
  pub answer : Result Failure Response

-- A provider that is not a `CapabilityProvider` has no capabilities to report. The Boolean tells a
-- provider whether there is a callback.
pub record Provider (W Request Event Response Failure : Type 0) : Type 0 where
  pub capabilities : Option ModelCapabilities
  pub stream : W → Request → Bool → Attempt W Event Response Failure

pub data StreamError (Failure : Type 0) : Type 0 where
  provider_failed : ℕ → Failure → StreamError Failure
  all_providers_failed : Option (ℕ × Failure) → StreamError Failure

-- The events that reach the caller: without a callback there are none.
abbrev pub heard : {Event : Type 0} → Bool → List Event → List Event
heard true events = events
heard false events = []

module _ {W Request Event Response Failure : Type 0} where
  unfoldable pub capabilities_of : Provider W Request Event Response Failure → ModelCapabilities
  capabilities_of p = elim p.capabilities [ none ↦ no_capabilities | some c ↦ c ]

  abbrev pub meet_all :
      ModelCapabilities → List (Provider W Request Event Response Failure) → ModelCapabilities
  meet_all caps [] = caps
  meet_all caps (p ∷ ps) = meet_all (meet caps (capabilities_of p)) ps

  unfoldable pub capabilities : List (Provider W Request Event Response Failure) → ModelCapabilities
  capabilities [] = no_capabilities
  capabilities (p ∷ ps) = meet_all (capabilities_of p) ps

  -- `New`
  abbrev pub new_chain :
      Provider W Request Event Response Failure
      → List (Provider W Request Event Response Failure)
      → List (Provider W Request Event Response Failure)
  new_chain primary fallbacks = primary ∷ fallbacks

  -- The loop of `Stream`, from provider `i` on.
  unfoldable pub stream_from :
      ℕ
      → Option (ℕ × Failure)
      → List (Provider W Request Event Response Failure)
      → W
      → Request
      → Bool
      → Attempt W Event Response (StreamError Failure)
  stream_from i last_err [] w req emit = record {
    world = w;
    events = [];
    answer = err (all_providers_failed last_err);
  }
  stream_from i last_err (p ∷ ps) w req emit =
      let a = p.stream w req emit in
      elim a.answer [
        | ok resp ↦ record { world = a.world; events = heard emit a.events; answer = ok resp }
        | err e ↦
            let rest = stream_from (suc i) (some (i, e)) ps a.world req emit in
            elim (heard emit a.events) [
              | [] ↦ rest
              | event ∷ events ↦ record {
                world = a.world;
                events = event ∷ events;
                answer = err (provider_failed i e);
              }
            ]
      ]

  unfoldable pub stream :
      List (Provider W Request Event Response Failure)
      → W
      → Request
      → Bool
      → Attempt W Event Response (StreamError Failure)
  stream chain w req emit = stream_from 0 none chain w req emit
