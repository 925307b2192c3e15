-- ===== src/Normalize/Contents.antt =====
-- What the repairs of agent/normalize.go keep of the input.
use mathlib.Core.List.{append_assoc}
use mathlib.Core.List.{Sublistᴰ}
use mathlib.Core.List.Sublistᴰ
use mathlib.Core.List.Sublistᴰ.{slnil, cons, cons-cons}
use gude_agents.Prelude.{
  ◌≡◌, refl, sym, ap, ◌∙◌, inl, inr, List, [], ◌∷◌, ◌++◌, some, false, arith, eq_iff, ◌==◌,
  Bool-cases, if◌then◌else◌, subst,
}
use gude_agents.Message.{Message, Role, ContentBlock, blocks, role_user}
use gude_agents.Normalize.{
  NormStrategy, merge, fill, remove, other, merge_onto, fill_after, remove_onto, norm_merge,
  norm_fill, norm_remove, opened, repair, normalize_messages, continue_message,
}
use gude_agents.Normalize.Alternation.{TurnsFrom, opposite, repair-nil}

merge_onto-blocks :
    (last : Message) (ms : List Message) → blocks (merge_onto last ms) ≡ last.content ++ blocks ms
unfolding merge_onto
merge_onto-blocks last [] = refl
merge_onto-blocks last (m ∷ ms) = elim (Bool-cases (m.role == last.role)) [
  | inl same ↦ rw same (
      merge_onto-blocks (record last { content = last.content ++ m.content }) ms
      ∙ append_assoc last.content m.content (blocks ms))
  | inr differ ↦ rw differ (ap (λ bs. last.content ++ bs) (merge_onto-blocks m ms))
]

-- The blocks of the synthetic message that opens a sequence, where one is needed.
abbrev pub opening : List Message → List ContentBlock
opening [] = []
opening (m ∷ ms) = if m.role == role_user then [] else continue_message.content

norm_merge-blocks : (ms : List Message) → blocks (norm_merge ms) ≡ blocks ms
unfolding norm_merge
norm_merge-blocks [] = refl
norm_merge-blocks (m ∷ ms) = merge_onto-blocks m ms

opened-blocks : (ms : List Message) → blocks (opened ms) ≡ opening ms ++ blocks ms
unfolding opened
opened-blocks [] = refl
opened-blocks (m ∷ ms) = ground arith

-- `NormMerge` loses, repeats and reorders no content block: the result has the blocks of the input,
-- behind the block of the synthetic opening message if the input does not start with a user message.
norm_merge_blocks :
    (ms : List Message)
    → (out : List Message) × (normalize_messages (some ms) merge ≡ some out)
      × (blocks out ≡ opening ms ++ blocks ms)
unfolding normalize_messages
norm_merge_blocks ms =
    (norm_merge (opened ms), refl, norm_merge-blocks (opened ms) ∙ opened-blocks ms)

opened-above : (ms : List Message) → Sublistᴰ ms (opened ms)
unfolding opened
opened-above [] = slnil
opened-above (m ∷ ms) = elim (Bool-cases (m.role == role_user)) [
  | inl first ↦ rw first (Sublistᴰ.refl (m ∷ ms))
  | inr late ↦ rw late (cons (Sublistᴰ.refl (m ∷ ms)))
]

opened-below : (ms : List Message) → Sublistᴰ (opened ms) (continue_message ∷ ms)
unfolding opened
opened-below [] = cons slnil
opened-below (m ∷ ms) = elim (Bool-cases (m.role == role_user)) [
  | inl first ↦ rw first (cons (Sublistᴰ.refl (m ∷ ms)))
  | inr late ↦ rw late (Sublistᴰ.refl (continue_message ∷ m ∷ ms))
]

fill_after-Sublistᴰ :
    (last : Message) (ms : List Message) → Sublistᴰ (last ∷ ms) (fill_after last ms)
unfolding fill_after
fill_after-Sublistᴰ last [] = cons-cons refl slnil
fill_after-Sublistᴰ last (m ∷ ms) = elim (Bool-cases (m.role == last.role)) [
  | inl same ↦ rw same (cons-cons refl (cons (fill_after-Sublistᴰ m ms)))
  | inr differ ↦ rw differ (cons-cons refl (fill_after-Sublistᴰ m ms))
]

norm_norm_fill_sublist : (ms : List Message) → Sublistᴰ ms (norm_fill ms)
unfolding norm_fill
norm_norm_fill_sublist [] = slnil
norm_norm_fill_sublist (m ∷ ms) = fill_after-Sublistᴰ m ms

-- `NormFill` keeps every message of the input as it is and in its place; it only adds messages.
norm_fill_sublist :
    (ms : List Message)
    → (out : List Message) × (normalize_messages (some ms) fill ≡ some out) × Sublistᴰ ms out
unfolding normalize_messages
norm_fill_sublist ms = (
  norm_fill (opened ms),
  refl,
  Sublistᴰ.trans (opened-above ms) (norm_norm_fill_sublist (opened ms)),
)

remove_onto-Sublistᴰ :
    (last : Message) (ms : List Message) → Sublistᴰ (remove_onto last ms) (last ∷ ms)
unfolding remove_onto
remove_onto-Sublistᴰ last [] = cons-cons refl slnil
remove_onto-Sublistᴰ last (m ∷ ms) = elim (Bool-cases (m.role == last.role)) [
  | inl same ↦ rw same (cons (remove_onto-Sublistᴰ m ms))
  | inr differ ↦ rw differ (cons-cons refl (remove_onto-Sublistᴰ m ms))
]

norm_norm_remove_sublist : (ms : List Message) → Sublistᴰ (norm_remove ms) ms
unfolding norm_remove
norm_norm_remove_sublist [] = slnil
norm_norm_remove_sublist (m ∷ ms) = remove_onto-Sublistᴰ m ms

-- `NormRemove` invents nothing but the opening message: the result is a subsequence of the input
-- with that message in front.
norm_remove_sublist :
    (ms : List Message)
    → (out : List Message) × (normalize_messages (some ms) remove ≡ some out)
      × Sublistᴰ out (continue_message ∷ ms)
unfolding normalize_messages
norm_remove_sublist ms = (
  norm_remove (opened ms),
  refl,
  Sublistᴰ.trans (norm_norm_remove_sublist (opened ms)) (opened-below ms),
)

-- What a strategy keeps. Merging keeps all content blocks in their order, after the opening message
-- where one is added. Filling keeps every input message, in order, and only adds messages. Removing adds
-- no message but the opening one, and keeps the order of the others.
pub normalize_messages-contents :
    (ms : List Message)
    → ((out : List Message) × (normalize_messages (some ms) merge ≡ some out)
        × (blocks out ≡ opening ms ++ blocks ms))
      × ((out : List Message) × (normalize_messages (some ms) fill ≡ some out) × Sublistᴰ ms out)
      × ((out : List Message) × (normalize_messages (some ms) remove ≡ some out)
          × Sublistᴰ out (continue_message ∷ ms))
normalize_messages-contents ms =
    (norm_merge_blocks ms, norm_fill_sublist ms, norm_remove_sublist ms)

opposite-ne : (r : Role) → (opposite r == r) ≡ false
opposite-ne r = elim (Bool-cases (r == role_user)) [
  | inl e ↦ subst (λ s. (opposite s == s) ≡ false) (sym ((eq_iff r role_user).0 e)) refl
  | inr e ↦ rw e (ground (arith, eq_iff role_user r, eq_iff r role_user))
]

turned : (last m : Message) → m.role ≡ opposite last.role → (m.role == last.role) ≡ false
turned last m e = subst (λ r. (r == last.role) ≡ false) (sym e) (opposite-ne last.role)

merge_onto_fixed :
    (last : Message) (ms : List Message)
    → TurnsFrom (opposite last.role) ms
    → merge_onto last ms ≡ last ∷ ms
unfolding merge_onto
merge_onto_fixed last [] t = refl
merge_onto_fixed last (m ∷ ms) t = rw (turned last m t.0) (
    ap (λ out. last ∷ out)
      (merge_onto_fixed m ms (subst (λ r. TurnsFrom (opposite r) ms) (sym t.0) t.1)))

fill_after_fixed :
    (last : Message) (ms : List Message)
    → TurnsFrom (opposite last.role) ms
    → fill_after last ms ≡ last ∷ ms
unfolding fill_after
fill_after_fixed last [] t = refl
fill_after_fixed last (m ∷ ms) t = rw (turned last m t.0) (
    ap (λ out. last ∷ out)
      (fill_after_fixed m ms (subst (λ r. TurnsFrom (opposite r) ms) (sym t.0) t.1)))

remove_onto_fixed :
    (last : Message) (ms : List Message)
    → TurnsFrom (opposite last.role) ms
    → remove_onto last ms ≡ last ∷ ms
unfolding remove_onto
remove_onto_fixed last [] t = refl
remove_onto_fixed last (m ∷ ms) t = rw (turned last m t.0) (
    ap (λ out. last ∷ out)
      (remove_onto_fixed m ms (subst (λ r. TurnsFrom (opposite r) ms) (sym t.0) t.1)))

repair_fixed :
    (strategy : NormStrategy) (m : Message) (ms : List Message)
    → TurnsFrom (opposite m.role) ms
    → repair strategy (m ∷ ms) ≡ m ∷ ms
unfolding repair norm_merge norm_fill norm_remove
repair_fixed merge m ms t = merge_onto_fixed m ms t
repair_fixed fill m ms t = fill_after_fixed m ms t
repair_fixed remove m ms t = remove_onto_fixed m ms t
repair_fixed other m ms t = refl

-- A sequence that already takes turns from a user message comes back as it is, under any strategy.
normalize_messages_fixed :
    (strategy : NormStrategy) (ms : List Message)
    → TurnsFrom role_user ms
    → normalize_messages (some ms) strategy ≡ some ms
unfolding normalize_messages
normalize_messages_fixed strategy [] t = ap some (repair-nil strategy)
normalize_messages_fixed strategy (m ∷ ms) t =
    rw ((eq_iff m.role role_user).1 t.0)
      (ap some (repair_fixed strategy m ms (subst (λ r. TurnsFrom (opposite r) ms) (sym t.0) t.1)))
