-- ===== src/Examples/Policies.antt =====
-- Concrete runs for agent/tool.
use gude_agents.Prelude.{String, true, false, not, ◌||◌, ◌&&◌, List, [], ◌∷◌, none, ◌≡◌, refl, any}
use gude_agents.Tool.{Tool, allowed_for_principal}
use gude_agents.Tool.Policy.{
  PolicyOption, allows, denies, apply_options, forbids, lists_roles, grants,
  allowed_for_principal-options,
}

abbrev plain : Tool
plain = record { name = "pay"; needs_approval = false; replay_safe = false; role_policy = none }

abbrev clerk : List String
clerk = "clerk" ∷ []

abbrev rules : List PolicyOption
rules = allows ("clerk" ∷ "admin" ∷ []) ∷ denies ("guest" ∷ []) ∷ []

allowed_for_principal-options_example :
    (allowed_for_principal plain false clerk [] ≡ true)
    × (allowed_for_principal (apply_options rules plain) false clerk [] ≡ false)
    × (allowed_for_principal (apply_options rules plain) true clerk [] ≡ (
        not (any (forbids clerk []) rules)
        && (not (any (lists_roles clerk []) rules) || any (grants clerk []) rules)))
allowed_for_principal-options_example =
    allowed_for_principal-options clerk [] (allows ("clerk" ∷ "admin" ∷ []))
      (denies ("guest" ∷ []) ∷ []) plain refl
