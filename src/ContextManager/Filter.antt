-- ===== src/ContextManager/Filter.antt =====
-- What the text projection keeps.
use gude_agents.Prelude.{
  filter, Bool, true, false, inl, inr, Bool-cases, ◌≡◌, refl, sym, ap, ◌∙◌, ◌≢◌, List, [], ◌∷◌,
  ◌++◌, All,
}
use gude_agents.Message.{
  Message, ContentBlock, text, tool_use, tool_result, image, document, widget, blocks,
}
use gude_agents.ContextManager.{text_blocks, with_blocks, filter_messages}

-- A block of text.
abbrev pub is_text : ContentBlock → Bool
is_text (text b) = true
is_text (tool_use b) = false
is_text (tool_result b) = false
is_text (image b) = false
is_text (document b) = false
is_text (widget b) = false

text_blocks-filter : (bs : List ContentBlock) → text_blocks bs ≡ filter is_text bs
unfolding text_blocks
text_blocks-filter [] = refl
text_blocks-filter (text b ∷ bs) = ap (λ rest. text b ∷ rest) (text_blocks-filter bs)
text_blocks-filter (tool_use b ∷ bs) = text_blocks-filter bs
text_blocks-filter (tool_result b ∷ bs) = text_blocks-filter bs
text_blocks-filter (image b ∷ bs) = text_blocks-filter bs
text_blocks-filter (document b ∷ bs) = text_blocks-filter bs
text_blocks-filter (widget b ∷ bs) = text_blocks-filter bs

filter_text-append :
    (xs ys : List ContentBlock) → filter is_text (xs ++ ys) ≡ filter is_text xs ++ filter is_text ys
filter_text-append [] ys = refl
filter_text-append (x ∷ xs) ys = elim (Bool-cases (is_text x)) [
  | inl spoken ↦ rw spoken (ap (λ rest. x ∷ rest) (filter_text-append xs ys))
  | inr silent ↦ rw silent (filter_text-append xs ys)
]

blocks-with_blocks :
    (m : Message) (bs : List ContentBlock) (rest : List Message)
    → blocks (with_blocks m bs rest) ≡ bs ++ blocks rest
blocks-with_blocks m [] rest = refl
blocks-with_blocks m (b ∷ bs) rest = refl

filter_messages-blocks :
    (ms : List Message) → blocks (filter_messages ms) ≡ filter is_text (blocks ms)
unfolding filter_messages
filter_messages-blocks [] = refl
filter_messages-blocks (m ∷ ms) =
    blocks-with_blocks m (text_blocks m.content) (filter_messages ms)
    ∙ ap (λ bs. bs ++ blocks (filter_messages ms)) (text_blocks-filter m.content)
    ∙ ap (λ bs. filter is_text m.content ++ bs) (filter_messages-blocks ms)
    ∙ sym (filter_text-append m.content (blocks ms))

-- A message that holds something.
abbrev pub IsSpoken : Message → Type 0
IsSpoken m = m.content ≢ []

with_blocks-IsSpoken :
    (m : Message) (bs : List ContentBlock) (rest : List Message)
    → All IsSpoken rest
    → All IsSpoken (with_blocks m bs rest)
with_blocks-IsSpoken m [] rest h = h
with_blocks-IsSpoken m (b ∷ bs) rest h = (λ e. cc, h)

filter_messages-IsSpoken : (ms : List Message) → All IsSpoken (filter_messages ms)
unfolding filter_messages
filter_messages-IsSpoken [] = tt
filter_messages-IsSpoken (m ∷ ms) = with_blocks-IsSpoken m _ _ (filter_messages-IsSpoken ms)

-- The projection has all text blocks of the conversation in their order and no other block, and no
-- empty message.
pub filter_messages-text :
    (ms : List Message)
    → (blocks (filter_messages ms) ≡ filter is_text (blocks ms)) × All IsSpoken (filter_messages ms)
filter_messages-text ms = (filter_messages-blocks ms, filter_messages-IsSpoken ms)
