-- ===== src/Normalize.antt =====
-- agent/normalize.go: `NormalizeMessages` and its three repairs. Each loop keeps its last result
-- message as an argument, since it compares with that one and writes only there.
pub mod Alternation
pub mod Contents
use gude_agents.Prelude.{List, [], ◌∷◌, ◌++◌, Option, none, some, ◌==◌, if◌then◌else◌}
use gude_agents.Message.{Message, ContentBlock, text, role_user, role_assistant}

-- Any other value of the integer type is `other`.
pub data NormStrategy : Type 0 where
  merge fill remove other : NormStrategy

abbrev pub continue_message : Message
continue_message = record { role = role_user; content = text (record { text = "Continue." }) ∷ [] }

abbrev pub understood_message : Message
understood_message = record {
  role = role_assistant;
  content = text (record { text = "Understood." }) ∷ [];
}

merge_onto : Message → List Message → List Message
merge_onto last [] = last ∷ []
merge_onto last (m ∷ ms) =
    let merged = merge_onto (record last { content = last.content ++ m.content }) ms in
    let started = last ∷ merge_onto m ms in if m.role == last.role then merged else started

pub norm_merge : List Message → List Message
unfolding merge_onto
norm_merge [] = []
norm_merge (m ∷ ms) = merge_onto m ms

synthetic : Message → Message
synthetic m = if m.role == role_user then understood_message else continue_message

fill_after : Message → List Message → List Message
unfolding synthetic
fill_after last [] = last ∷ []
fill_after last (m ∷ ms) =
    let rest = fill_after m ms in last ∷ (if m.role == last.role then synthetic m ∷ rest else rest)

pub norm_fill : List Message → List Message
unfolding fill_after
norm_fill [] = []
norm_fill (m ∷ ms) = fill_after m ms

remove_onto : Message → List Message → List Message
remove_onto last [] = last ∷ []
remove_onto last (m ∷ ms) =
    let rest = remove_onto m ms in if m.role == last.role then rest else last ∷ rest

pub norm_remove : List Message → List Message
unfolding remove_onto
norm_remove [] = []
norm_remove (m ∷ ms) = remove_onto m ms

-- The working copy: a synthetic user message opens a sequence that does not start with one.
opened : List Message → List Message
opened [] = []
opened (m ∷ ms) = if m.role == role_user then m ∷ ms else continue_message ∷ m ∷ ms

pub repair : NormStrategy → List Message → List Message
repair merge ms = norm_merge ms
repair fill ms = norm_fill ms
repair remove ms = norm_remove ms
repair other ms = ms

-- A nil slice is `none`.
pub normalize_messages : Option (List Message) → NormStrategy → Option (List Message)
unfolding opened repair
normalize_messages none strategy = none
normalize_messages (some ms) strategy = some (repair strategy (opened ms))
