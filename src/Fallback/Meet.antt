-- ===== src/Fallback/Meet.antt =====
-- The capabilities of a chain (agent/provider/fallback/fallback.go, `Capabilities`) and of an
-- override (agent/capabilities.go, `MergeModelCapabilities`).
use gude_agents.Prelude.{
  true, List, [], ◌∷◌, ◌↔◌, ◌⊎◌, inl, inr, ◌≡◌, refl, sym, subst, ◌∙◌, All, arith,
}
use gude_agents.Words.{Int64}
use gude_agents.Words.{sle, slt}
use gude_agents.Fallback.{
  Capability, unknown, supported, unsupported, ModelCapabilities, Provider, override_limit,
  override_capability, conservative_capability, meet, meet_all,
}
use gude_agents.Fallback.{
  merge_model_capabilities, conservative_limit, capabilities_of, capabilities,
}

-- The five fields that say whether a feature is supported.
pub data Feature : Type 0 where
  tool_use auto required specific native_structured_output : Feature

abbrev pub feature : Feature → ModelCapabilities → Capability
feature tool_use c = c.tool_use
feature auto c = c.tool_choice.auto
feature required c = c.tool_choice.required
feature specific c = c.tool_choice.specific
feature native_structured_output c = c.native_structured_output

feature-meet :
    (f : Feature) (a b : ModelCapabilities)
    → feature f (meet a b) ≡ conservative_capability (feature f a) (feature f b)
feature-meet tool_use a b = refl
feature-meet auto a b = refl
feature-meet required a b = refl
feature-meet specific a b = refl
feature-meet native_structured_output a b = refl

conservative-supported :
    (a b : Capability)
    → (conservative_capability a b ≡ supported) ↔ ((a ≡ supported) × (b ≡ supported))
conservative-supported unknown unknown = ground arith
conservative-supported unknown supported = ground arith
conservative-supported unknown unsupported = ground arith
conservative-supported supported unknown = ground arith
conservative-supported supported supported = ground arith
conservative-supported supported unsupported = ground arith
conservative-supported unsupported b = ground arith

conservative-unsupported :
    (a b : Capability)
    → (conservative_capability a b ≡ unsupported) ↔ ((a ≡ unsupported) ⊎ (b ≡ unsupported))
conservative-unsupported unknown unknown = ground arith
conservative-unsupported unknown supported = ground arith
conservative-unsupported unknown unsupported = ground arith
conservative-unsupported supported unknown = ground arith
conservative-unsupported supported supported = ground arith
conservative-unsupported supported unsupported = ground arith
conservative-unsupported unsupported b = ground arith

-- Some provider of the chain is so.
abbrev pub Some : {A : Type 0} → (A → Type 0) → List A → Type 0
Some P [] = ⊥
Some P (x ∷ xs) = P x ⊎ Some P xs

module _ {W Request Event Response Failure : Type 0} where
  meet_all-supported :
      (f : Feature) (caps : ModelCapabilities)
      (ps : List (Provider W Request Event Response Failure))
      → (feature f (meet_all caps ps) ≡ supported)
        ↔ ((feature f caps ≡ supported) × All (λ p. feature f (capabilities_of p) ≡ supported) ps)
  meet_all-supported f caps [] = (λ h. (h, tt), λ h. h.0)
  meet_all-supported f caps (p ∷ ps) =
      let law = conservative-supported (feature f caps) (feature f (capabilities_of p)) in
      let rest = meet_all-supported f (meet caps (capabilities_of p)) ps in
      let e = feature-meet f caps (capabilities_of p) in
      (
        λ h. let both = law.0 (sym e ∙ (rest.0 h).0) in (both.0, (both.1, (rest.0 h).1)),
        λ h. rest.1 (e ∙ law.1 (h.0, h.1.0), h.1.1),
      )

  meet_all-unsupported :
      (f : Feature) (caps : ModelCapabilities)
      (ps : List (Provider W Request Event Response Failure))
      → (feature f (meet_all caps ps) ≡ unsupported) ↔ (
          (feature f caps ≡ unsupported)
          ⊎ Some (λ p. feature f (capabilities_of p) ≡ unsupported) ps)
  meet_all-unsupported f caps [] = ground arith
  meet_all-unsupported f caps (p ∷ ps) =
      let law = conservative-unsupported (feature f caps) (feature f (capabilities_of p)) in
      let rest = meet_all-unsupported f (meet caps (capabilities_of p)) ps in
      let e = feature-meet f caps (capabilities_of p) in
      (
        λ h. elim (rest.0 h) [
          | inl now ↦ elim (law.0 (sym e ∙ now)) [ inl a ↦ inl a | inr b ↦ inr (inl b) ]
          | inr later ↦ inr (inr later)
        ],
        λ h. elim h [
          | inl a ↦ rest.1 (inl (e ∙ law.1 (inl a)))
          | inr b ↦ elim b [
            | inl now ↦ rest.1 (inl (e ∙ law.1 (inr now)))
            | inr later ↦ rest.1 (inr later)
          ]
        ],
      )

  -- A chain reports a feature as supported exactly when every provider does, and as unsupported
  -- exactly when some provider does.
  pub capabilities-feature :
      (f : Feature) (primary : Provider W Request Event Response Failure)
      (fallbacks : List (Provider W Request Event Response Failure))
      → let chain = primary ∷ fallbacks in
        ((feature f (capabilities chain) ≡ supported)
          ↔ All (λ p. feature f (capabilities_of p) ≡ supported) chain)
        × ((feature f (capabilities chain) ≡ unsupported)
            ↔ Some (λ p. feature f (capabilities_of p) ≡ unsupported) chain)
  unfolding capabilities
  capabilities-feature f primary fallbacks = (
    meet_all-supported f (capabilities_of primary) fallbacks,
    meet_all-unsupported f (capabilities_of primary) fallbacks,
  )

conservative_limit-positive :
    (a b : Int64)
    → slt 0 (conservative_limit a b) ≡ true
    → (slt 0 a ≡ true)
      × (slt 0 b ≡ true)
      × (sle (conservative_limit a b) a ≡ true)
      × (sle (conservative_limit a b) b ≡ true)
unfolding conservative_limit slt sle
conservative_limit-positive a b h = ground arith

sle_trans : (a b c : Int64) → sle a b ≡ true → sle b c ≡ true → sle a c ≡ true
unfolding sle
sle_trans a b c h k = ground arith

module _ {W Request Event Response Failure : Type 0} (limit : ModelCapabilities → Int64)
    (law : (a b : ModelCapabilities)
      → limit (meet a b) ≡ conservative_limit (limit a) (limit b)) where
  meet_all-limit :
      (caps : ModelCapabilities) (ps : List (Provider W Request Event Response Failure))
      → slt 0 (limit (meet_all caps ps)) ≡ true
      → (slt 0 (limit caps) ≡ true)
        × (sle (limit (meet_all caps ps)) (limit caps) ≡ true)
        × All
            (λ p.
              (slt 0 (limit (capabilities_of p)) ≡ true)
              × (sle (limit (meet_all caps ps)) (limit (capabilities_of p)) ≡ true))
            ps
  meet_all-limit caps [] h = (h, unfold sle in ground arith, tt)
  meet_all-limit caps (p ∷ ps) h =
      let rest = meet_all-limit (meet caps (capabilities_of p)) ps h in
      let a = limit caps in
      let b = limit (capabilities_of p) in
      let m = limit (meet_all caps (p ∷ ps)) in
      let e = law caps (capabilities_of p) in
      let two = conservative_limit-positive a b (subst (λ x. slt 0 x ≡ true) e rest.0) in
      let below = subst (λ x. sle m x ≡ true) e rest.1 in
      (
        two.0,
        sle_trans m (conservative_limit a b) a below two.2,
        ((two.1, sle_trans m (conservative_limit a b) b below two.3), rest.2),
      )

module _ {W Request Event Response Failure : Type 0} where
  -- Where a chain reports a positive context window, every provider reports one, and the chain's
  -- is at most each of theirs. The same holds of the output limit.
  pub capabilities-limits :
      (primary : Provider W Request Event Response Failure)
      (fallbacks : List (Provider W Request Event Response Failure))
      → let chain = primary ∷ fallbacks in
        let c = capabilities chain in
        (slt 0 c.context_window_tokens ≡ true
          → All
              (λ p.
                (slt 0 (capabilities_of p).context_window_tokens ≡ true)
                × (sle c.context_window_tokens (capabilities_of p).context_window_tokens ≡ true))
              chain)
        × (slt 0 c.max_output_tokens ≡ true
            → All
                (λ p.
                  (slt 0 (capabilities_of p).max_output_tokens ≡ true)
                  × (sle c.max_output_tokens (capabilities_of p).max_output_tokens ≡ true))
                chain)
  unfolding capabilities
  capabilities-limits primary fallbacks = (
    λ h.
        let r =
          meet_all-limit (λ c. c.context_window_tokens) (λ a b. refl) (capabilities_of primary)
            fallbacks h in
        ((r.0, r.1), r.2),
    λ h.
        let r =
          meet_all-limit (λ c. c.max_output_tokens) (λ a b. refl) (capabilities_of primary)
            fallbacks h in
        ((r.0, r.1), r.2),
  )

override_capability_assoc :
    (a b c : Capability)
    → override_capability (override_capability a b) c
      ≡ override_capability a (override_capability b c)
override_capability_assoc a b unknown = refl
override_capability_assoc a b supported = refl
override_capability_assoc a b unsupported = refl

override_limit_assoc :
    (a b c : Int64) → override_limit (override_limit a b) c ≡ override_limit a (override_limit b c)
override_limit_assoc a b c = ground arith

-- Overrides compose: to apply two in turn is to apply their merge.
merge_model_capabilities_assoc :
    (a b c : ModelCapabilities)
    → merge_model_capabilities (merge_model_capabilities a b) c
      ≡ merge_model_capabilities a (merge_model_capabilities b c)
unfolding merge_model_capabilities
merge_model_capabilities_assoc a b c = λ i. record {
  context_window_tokens =
      override_limit_assoc a.context_window_tokens b.context_window_tokens c.context_window_tokens
        i;
  max_output_tokens =
      override_limit_assoc a.max_output_tokens b.max_output_tokens c.max_output_tokens i;
  tool_use = override_capability_assoc a.tool_use b.tool_use c.tool_use i;
  tool_choice = record {
    auto = override_capability_assoc a.tool_choice.auto b.tool_choice.auto c.tool_choice.auto i;
    required =
        override_capability_assoc a.tool_choice.required b.tool_choice.required
          c.tool_choice.required i;
    specific =
        override_capability_assoc a.tool_choice.specific b.tool_choice.specific
          c.tool_choice.specific i;
  };
  native_structured_output =
      override_capability_assoc a.native_structured_output b.native_structured_output
        c.native_structured_output i;
}
