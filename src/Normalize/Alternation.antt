-- ===== src/Normalize/Alternation.antt =====
-- What `NormalizeMessages` of agent/normalize.go promises: turns that alternate.
use gude_agents.Prelude.{
  ◌≡◌, refl, sym, ap, ◌∙◌, subst, ◌⊎◌, inl, inr, List, [], ◌∷◌, ◌++◌, some, false, arith, All, ◌==◌,
  eq_iff, Bool-cases, if◌then◌else◌,
}
use gude_agents.Message.{Message, Role, role_user, role_assistant}
use gude_agents.Normalize.{
  NormStrategy, merge, fill, remove, other, merge_onto, fill_after, remove_onto, norm_merge,
  norm_fill, norm_remove, synthetic, repair, normalize_messages, continue_message,
}

-- A role that the providers know.
abbrev pub IsSpeaker : Message → Type 0
IsSpeaker m = (m.role ≡ role_user) ⊎ (m.role ≡ role_assistant)

abbrev pub opposite : Role → Role
opposite r = if r == role_user then role_assistant else role_user

-- The messages take turns, `r` first.
abbrev pub TurnsFrom : Role → List Message → Type 0
TurnsFrom r [] = Unit
TurnsFrom r (m ∷ ms) = (m.role ≡ r) × TurnsFrom (opposite r) ms

module _ (last m : Message) (ls : IsSpeaker last) (lm : IsSpeaker m) where
  turn : (m.role == last.role) ≡ false → m.role ≡ opposite last.role
  turn h = ground (arith, eq_iff m.role last.role, eq_iff last.role role_user)

-- A run of turns, cast to the role that its head is known to have.
after_turn :
    (last m : Message) (out : List Message)
    → IsSpeaker last
    → IsSpeaker m
    → (m.role == last.role) ≡ false
    → TurnsFrom m.role out
    → TurnsFrom last.role (last ∷ out)
after_turn last m out ls lm h t = (refl, subst (λ r. TurnsFrom r out) (turn last m ls lm h) t)

merge_onto-TurnsFrom :
    (last : Message) (ms : List Message)
    → IsSpeaker last
    → All IsSpeaker ms
    → TurnsFrom last.role (merge_onto last ms)
unfolding merge_onto
merge_onto-TurnsFrom last [] s h = (refl, tt)
merge_onto-TurnsFrom last (m ∷ ms) s h = elim (Bool-cases (m.role == last.role)) [
  | inl same ↦
      rw same (merge_onto-TurnsFrom (record last { content = last.content ++ m.content }) ms s h.1)
  | inr differ ↦ rw differ (after_turn last m _ s h.0 differ (merge_onto-TurnsFrom m ms h.0 h.1))
]

remove_onto-TurnsFrom :
    (last : Message) (ms : List Message)
    → IsSpeaker last
    → All IsSpeaker ms
    → TurnsFrom last.role (remove_onto last ms)
unfolding remove_onto
remove_onto-TurnsFrom last [] s h = (refl, tt)
remove_onto-TurnsFrom last (m ∷ ms) s h = elim (Bool-cases (m.role == last.role)) [
  | inl same ↦ rw same (
      subst (λ r. TurnsFrom r (remove_onto m ms)) ((eq_iff m.role last.role).0 same)
        (remove_onto-TurnsFrom m ms h.0 h.1))
  | inr differ ↦ rw differ (after_turn last m _ s h.0 differ (remove_onto-TurnsFrom m ms h.0 h.1))
]

synthetic-opposite : (m : Message) → (synthetic m).role ≡ opposite m.role
unfolding synthetic
synthetic-opposite m = ground arith

opposite-opposite : (m : Message) → IsSpeaker m → opposite (opposite m.role) ≡ m.role
opposite-opposite m (inl e) = ap (λ r. opposite (opposite r)) e ∙ sym e
opposite-opposite m (inr e) = ap (λ r. opposite (opposite r)) e ∙ sym e

fill_after-TurnsFrom :
    (last : Message) (ms : List Message)
    → IsSpeaker last
    → All IsSpeaker ms
    → TurnsFrom last.role (fill_after last ms)
unfolding fill_after
fill_after-TurnsFrom last [] s h = (refl, tt)
fill_after-TurnsFrom last (m ∷ ms) s h = elim (Bool-cases (m.role == last.role)) [
  | inl same ↦
      let e : m.role ≡ last.role = (eq_iff m.role last.role).0 same in
      rw same (
        refl,
        (
          synthetic-opposite m ∙ ap opposite e,
          subst (λ r. TurnsFrom r (fill_after m ms)) (e ∙ sym (opposite-opposite last s))
              (fill_after-TurnsFrom m ms h.0 h.1),
        ),
      )
  | inr differ ↦ rw differ (after_turn last m _ s h.0 differ (fill_after-TurnsFrom m ms h.0 h.1))
]

-- The three constants that name a repair.
abbrev pub Repairs : NormStrategy → Type 0
Repairs other = ⊥
Repairs _ = Unit

repair-TurnsFrom :
    (strategy : NormStrategy) (m : Message) (ms : List Message)
    → Repairs strategy
    → All IsSpeaker (m ∷ ms)
    → TurnsFrom m.role (repair strategy (m ∷ ms))
unfolding repair norm_merge norm_fill norm_remove
repair-TurnsFrom merge m ms r h = merge_onto-TurnsFrom m ms h.0 h.1
repair-TurnsFrom fill m ms r h = fill_after-TurnsFrom m ms h.0 h.1
repair-TurnsFrom remove m ms r h = remove_onto-TurnsFrom m ms h.0 h.1
repair-TurnsFrom other m ms r h = absurd r

pub repair-nil : (strategy : NormStrategy) → repair strategy [] ≡ []
unfolding repair norm_merge norm_fill norm_remove
repair-nil merge = refl
repair-nil _ = refl

-- With any of the three strategies, a sequence of user and assistant messages becomes one in which
-- a user message comes first and the two roles take turns.
pub normalize_messages-TurnsFrom :
    (strategy : NormStrategy) (ms : List Message)
    → Repairs strategy
    → All IsSpeaker ms
    → (out : List Message) × (normalize_messages (some ms) strategy ≡ some out)
      × TurnsFrom role_user out
unfolding normalize_messages
normalize_messages-TurnsFrom strategy [] r h = ([], ap some (repair-nil strategy), tt)
normalize_messages-TurnsFrom strategy (m ∷ ms) r h = elim (Bool-cases (m.role == role_user)) [
  | inl first ↦ (
    repair strategy (m ∷ ms),
    rw first,
    subst (λ r. TurnsFrom r (repair strategy (m ∷ ms))) ((eq_iff m.role role_user).0 first)
        (repair-TurnsFrom strategy m ms r h),
  )
  | inr late ↦ (
    repair strategy (continue_message ∷ m ∷ ms),
    rw late,
    repair-TurnsFrom strategy continue_message (m ∷ ms) r (inl refl, h),
  )
]
