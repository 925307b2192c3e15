-- ===== src/Tool/Policy.antt =====
-- What a list of policy options means for a caller.
use gude_agents.Prelude.{
  ◌≡◌, refl, String, Bool, true, false, not, ◌||◌, ◌&&◌, List, [], ◌∷◌, ◌++◌, none, some, any,
  arith, ◌==◌, if◌then◌else◌,
}
use gude_agents.Dict.{Dict, lookup, insert, lookup-insert}
use gude_agents.Tool.{
  Attrs, RolePolicy, Tool, no_rules, holds, any_holds, allowed_roles, some_condition,
  every_condition, allowed_attrs, allowed_with_attrs, change_policy, set_roles, allow_roles,
  deny_roles, allow_when, deny_when, allowed_for_principal,
}

-- The policy options of the package, and a tool built with a list of them.
pub data PolicyOption : Type 0 where
  allows denies : List String → PolicyOption
  allows_when denies_when : (Attrs → Bool) → PolicyOption

unfoldable pub apply : PolicyOption → Tool → Tool
apply (allows roles) = allow_roles roles
apply (denies roles) = deny_roles roles
apply (allows_when cond) = allow_when cond
apply (denies_when cond) = deny_when cond

unfoldable pub apply_options : List PolicyOption → Tool → Tool
apply_options [] t = t
apply_options (o ∷ os) t = apply_options os (apply o t)

abbrev pub contains : List String → String → Bool
contains rs r = any (λ x. x == r) rs

abbrev is_nonempty {ℓ} : {A : Type ℓ} → List A → Bool
is_nonempty [] = false
is_nonempty (_ ∷ _) = true

module _ (roles : List String) (attrs : Attrs) where
  -- What one option says of the caller: a ground to refuse, a list of roles to be on, a place on one.
  abbrev pub forbids : PolicyOption → Bool
  forbids (denies rs) = any (contains rs) roles
  forbids (denies_when cond) = cond attrs
  forbids (allows_when cond) = not (cond attrs)
  forbids (allows rs) = false

  abbrev pub lists_roles : PolicyOption → Bool
  lists_roles (allows rs) = is_nonempty rs
  lists_roles (denies rs) = false
  lists_roles (allows_when cond) = false
  lists_roles (denies_when cond) = false

  abbrev pub grants : PolicyOption → Bool
  grants (allows rs) = any (contains rs) roles
  grants (denies rs) = false
  grants (allows_when cond) = false
  grants (denies_when cond) = false

  -- The same of a whole policy.
  forbidden : RolePolicy → Bool
  forbidden p =
      any_holds p.deny_roles roles
      || (some_condition p.deny_conditions attrs || not (every_condition p.attr_conditions attrs))

  allowed-forbidden :
      (p : RolePolicy)
      → allowed_with_attrs p roles attrs
        ≡ (not (forbidden p) && (not (is_nonempty p.allow_roles) || any_holds p.allow_roles roles))
  unfolding allowed_with_attrs allowed_roles allowed_attrs forbidden
  allowed-forbidden p = allowed_by p.allow_roles (any_holds p.allow_roles roles)
    where
      allowed_by :
          (ws : Dict Bool) (found : Bool)
          → (if not (
                if any_holds p.deny_roles roles
                then false
                else elim ws [ [] ↦ true | _ ∷ _ ↦ found ])
              then false
              else if some_condition p.deny_conditions attrs
              then false
              else every_condition p.attr_conditions attrs)
            ≡ (not (forbidden p) && (not (is_nonempty ws) || found))
      allowed_by [] found = ground arith
      allowed_by (w ∷ ws) found = ground arith

  changed : PolicyOption → RolePolicy → RolePolicy
  changed (allows rs) p = record p { allow_roles = set_roles rs p.allow_roles }
  changed (denies rs) p = record p { deny_roles = set_roles rs p.deny_roles }
  changed (allows_when cond) p = record p { attr_conditions = p.attr_conditions ++ cond ∷ [] }
  changed (denies_when cond) p = record p { deny_conditions = p.deny_conditions ++ cond ∷ [] }

holds-insert : (x r : String) (m : Dict Bool) → holds (insert x true m) r ≡ (x == r || holds m r)
unfolding holds
holds-insert x r m = ground (arith, lookup-insert x r true m)

holds-set_roles :
    (rs : List String) (m : Dict Bool) (r : String)
    → holds (set_roles rs m) r ≡ (contains rs r || holds m r)
unfolding set_roles
holds-set_roles [] m r = refl
holds-set_roles (x ∷ rs) m r =
    ground (arith, holds-set_roles rs (insert x true m) r, holds-insert x r m)

any_holds-set_roles :
    (rs : List String) (m : Dict Bool) (roles : List String)
    → any_holds (set_roles rs m) roles ≡ (any (contains rs) roles || any_holds m roles)
unfolding any_holds
any_holds-set_roles rs m [] = refl
any_holds-set_roles rs m (r ∷ roles) =
    ground (arith, holds-set_roles rs m r, any_holds-set_roles rs m roles)

nonempty-insert : (x : String) (m : Dict Bool) → is_nonempty (insert x true m) ≡ true
unfolding insert
nonempty-insert x [] = refl
nonempty-insert x ((y, b) ∷ m) = ground arith

nonempty-set_roles :
    (rs : List String) (m : Dict Bool)
    → is_nonempty (set_roles rs m) ≡ (is_nonempty rs || is_nonempty m)
unfolding set_roles
nonempty-set_roles [] m = refl
nonempty-set_roles (x ∷ rs) m =
    ground (arith, nonempty-set_roles rs (insert x true m), nonempty-insert x m)

some_condition-append :
    (cs : List (Attrs → Bool)) (c : Attrs → Bool) (attrs : Attrs)
    → some_condition (cs ++ c ∷ []) attrs ≡ (c attrs || some_condition cs attrs)
unfolding some_condition
some_condition-append [] c attrs = ground arith
some_condition-append (d ∷ cs) c attrs = ground (arith, some_condition-append cs c attrs)

every_condition-append :
    (cs : List (Attrs → Bool)) (c : Attrs → Bool) (attrs : Attrs)
    → every_condition (cs ++ c ∷ []) attrs ≡ (c attrs && every_condition cs attrs)
unfolding every_condition
every_condition-append [] c attrs = ground arith
every_condition-append (d ∷ cs) c attrs = ground (arith, every_condition-append cs c attrs)

module _ (roles : List String) (attrs : Attrs) where
  forbidden-changed :
      (o : PolicyOption) (p : RolePolicy)
      → forbidden roles attrs (changed roles attrs o p)
        ≡ (forbids roles attrs o || forbidden roles attrs p)
  unfolding forbidden changed
  forbidden-changed (allows rs) p = refl
  forbidden-changed (denies rs) p = ground (arith, any_holds-set_roles rs p.deny_roles roles)
  forbidden-changed (allows_when cond) p =
      ground (arith, every_condition-append p.attr_conditions cond attrs)
  forbidden-changed (denies_when cond) p =
      ground (arith, some_condition-append p.deny_conditions cond attrs)

  listed-changed :
      (o : PolicyOption) (p : RolePolicy)
      → is_nonempty (changed roles attrs o p).allow_roles
        ≡ (lists_roles roles attrs o || is_nonempty p.allow_roles)
  unfolding changed
  listed-changed (allows rs) p = nonempty-set_roles rs p.allow_roles
  listed-changed _ p = refl

  granted-changed :
      (o : PolicyOption) (p : RolePolicy)
      → any_holds (changed roles attrs o p).allow_roles roles
        ≡ (grants roles attrs o || any_holds p.allow_roles roles)
  unfolding changed
  granted-changed (allows rs) p = any_holds-set_roles rs p.allow_roles roles
  granted-changed _ p = refl

  apply-changed :
      (o : PolicyOption) (t : Tool) (p : RolePolicy)
      → t.role_policy ≡ some p
      → (apply o t).role_policy ≡ some (changed roles attrs o p)
  unfolding apply allow_roles deny_roles allow_when deny_when change_policy changed
  apply-changed (allows rs) t p e = ground arith
  apply-changed (denies rs) t p e = ground arith
  apply-changed (allows_when cond) t p e = ground arith
  apply-changed (denies_when cond) t p e = ground arith

  apply-new :
      (o : PolicyOption) (t : Tool)
      → t.role_policy ≡ none
      → (apply o t).role_policy ≡ some (changed roles attrs o no_rules)
  unfolding apply allow_roles deny_roles allow_when deny_when change_policy changed
  apply-new (allows rs) t e = ground arith
  apply-new (denies rs) t e = ground arith
  apply-new (allows_when cond) t e = ground arith
  apply-new (denies_when cond) t e = ground arith

  -- The decision of a tool that has the policy `p`, after more options.
  decided :
      (os : List PolicyOption) (t : Tool) (p : RolePolicy)
      → t.role_policy ≡ some p
      → allowed_for_principal (apply_options os t) true roles attrs ≡ (
          not (any (forbids roles attrs) os || forbidden roles attrs p)
          && (not (any (lists_roles roles attrs) os || is_nonempty p.allow_roles)
              || (any (grants roles attrs) os || any_holds p.allow_roles roles)))
  unfolding apply_options
  decided [] t p e =
      unfold allowed_for_principal in
      rw (e, allowed_for_principal) (allowed-forbidden roles attrs p)
  decided (o ∷ os) t p e = ground (
    arith,
    decided os (apply o t) (changed roles attrs o p) (apply-changed o t p e),
    forbidden-changed o p,
    listed-changed o p,
    granted-changed o p,
  )

  none_held : (rs : List String) → any_holds [] rs ≡ false
  unfolding any_holds holds lookup
  none_held [] = refl
  none_held (r ∷ rs) = none_held rs

  no_rules-forbidden : forbidden roles attrs no_rules ≡ false
  unfolding forbidden some_condition every_condition
  no_rules-forbidden = ground (arith, none_held roles)

  keeps_policy :
      (os : List PolicyOption) (t : Tool) (p : RolePolicy)
      → t.role_policy ≡ some p
      → (q : RolePolicy) × ((apply_options os t).role_policy ≡ some q)
  unfolding apply_options
  keeps_policy [] t p e = (p, e)
  keeps_policy (o ∷ os) t p e =
      keeps_policy os (apply o t) (changed roles attrs o p) (apply-changed o t p e)

  -- A tool built with policy options lets a caller pass exactly if none of the options forbids the
  -- caller (a denied role, a deny condition that holds, an allow condition that fails), and the
  -- caller has an allowed role if the options list any. The order of the options does not matter. A
  -- caller without a principal never passes, and without options everyone does.
  pub allowed_for_principal-options :
      (o : PolicyOption) (os : List PolicyOption) (t : Tool)
      → t.role_policy ≡ none
      → (allowed_for_principal t false roles attrs ≡ true)
        × (allowed_for_principal (apply_options (o ∷ os) t) false roles attrs ≡ false)
        × (allowed_for_principal (apply_options (o ∷ os) t) true roles attrs ≡ (
            not (any (forbids roles attrs) (o ∷ os))
            && (not (any (lists_roles roles attrs) (o ∷ os)) || any (grants roles attrs) (o ∷ os))))
  unfolding apply_options
  allowed_for_principal-options o os t bare =
      let start = apply-new o t bare in
      let p : RolePolicy = changed roles attrs o no_rules in
      let (q, found) = keeps_policy os (apply o t) p start in
      (
        unfold allowed_for_principal in rw (bare, allowed_for_principal),
        unfold allowed_for_principal in rw (found, allowed_for_principal),
        ground (
          arith,
          decided os (apply o t) p start,
          forbidden-changed o no_rules,
          listed-changed o no_rules,
          granted-changed o no_rules,
          no_rules-forbidden,
          none_held roles,
        ),
      )
