-- ===== src/Tool.antt =====
-- agent/tool: tools, guards and who may call them (tool.go, guard.go and rbac.go). The registry and
-- the handlers are elsewhere.
pub mod Policy
use gude_agents.Prelude.{
  String, Bool, true, false, not, List, [], ◌∷◌, ◌++◌, Option, none, some, if◌then◌else◌,
}
use gude_agents.Dict.{Dict, lookup, insert}

-- A set of roles is a `map[string]bool`; the attributes of a principal are a `map[string]string`.
abbrev pub Attrs : Type 0
Attrs = Dict String

pub record RolePolicy : Type 0 where
  pub allow_roles : Dict Bool
  pub deny_roles : Dict Bool
  pub attr_conditions : List (Attrs → Bool)
  pub deny_conditions : List (Attrs → Bool)

-- The zero policy; a nil map reads as an empty one.
abbrev pub no_rules : RolePolicy
no_rules = record { allow_roles = []; deny_roles = []; attr_conditions = []; deny_conditions = [] }

-- The part of a tool that the policy is about.
pub record Tool : Type 0 where
  pub name : String
  pub needs_approval : Bool
  pub replay_safe : Bool
  pub role_policy : Option RolePolicy

-- `m[r]` of a `map[string]bool`
unfoldable pub holds : Dict Bool → String → Bool
holds m r = elim (lookup r m) [ none ↦ false | some b ↦ b ]

unfoldable pub any_holds : Dict Bool → List String → Bool
any_holds m [] = false
any_holds m (r ∷ rs) = let rest = any_holds m rs in if holds m r then true else rest

unfoldable pub allowed_roles : RolePolicy → List String → Bool
allowed_roles p roles =
    if any_holds p.deny_roles roles
    then false
    else elim p.allow_roles [ [] ↦ true | _ ∷ _ ↦ any_holds p.allow_roles roles ]

unfoldable pub some_condition : List (Attrs → Bool) → Attrs → Bool
some_condition [] attrs = false
some_condition (cond ∷ conds) attrs =
    let rest = some_condition conds attrs in if cond attrs then true else rest

unfoldable pub every_condition : List (Attrs → Bool) → Attrs → Bool
every_condition [] attrs = true
every_condition (cond ∷ conds) attrs =
    let rest = every_condition conds attrs in if not (cond attrs) then false else rest

unfoldable pub allowed_attrs : RolePolicy → Attrs → Bool
allowed_attrs p attrs =
    if some_condition p.deny_conditions attrs
    then false
    else every_condition p.attr_conditions attrs

unfoldable pub allowed : RolePolicy → List String → Bool
allowed p roles = allowed_roles p roles

unfoldable pub allowed_with_attrs : RolePolicy → List String → Attrs → Bool
allowed_with_attrs p roles attrs =
    if not (allowed_roles p roles) then false else allowed_attrs p attrs

-- An option changes the policy that the tool has, or a new one.
unfoldable pub change_policy : (RolePolicy → RolePolicy) → Tool → Tool
change_policy f t = record t {
  role_policy = some (elim t.role_policy [ none ↦ f no_rules | some p ↦ f p ]);
}

unfoldable pub set_roles : List String → Dict Bool → Dict Bool
set_roles [] m = m
set_roles (r ∷ rs) m = set_roles rs (insert r true m)

unfoldable pub allow_roles : List String → Tool → Tool
allow_roles roles = change_policy (λ p. record p { allow_roles = set_roles roles p.allow_roles })

unfoldable pub deny_roles : List String → Tool → Tool
deny_roles roles = change_policy (λ p. record p { deny_roles = set_roles roles p.deny_roles })

unfoldable pub allow_when : (Attrs → Bool) → Tool → Tool
allow_when cond = change_policy (λ p. record p { attr_conditions = p.attr_conditions ++ cond ∷ [] })

unfoldable pub deny_when : (Attrs → Bool) → Tool → Tool
deny_when cond = change_policy (λ p. record p { deny_conditions = p.deny_conditions ++ cond ∷ [] })

unfoldable pub roles_allowed : Tool → List String → Bool
roles_allowed t roles = elim t.role_policy [ none ↦ true | some p ↦ allowed p roles ]

unfoldable pub tool_allowed_with_attrs : Tool → List String → Attrs → Bool
tool_allowed_with_attrs t roles attrs = elim t.role_policy [
  | none ↦ true
  | some p ↦ allowed_with_attrs p roles attrs
]

unfoldable pub allowed_for_principal : Tool → Bool → List String → Attrs → Bool
allowed_for_principal t has_principal roles attrs = elim t.role_policy [
  | none ↦ true
  | some p ↦ if not has_principal then false else allowed_with_attrs p roles attrs
]
