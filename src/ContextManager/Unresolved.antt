-- ===== src/ContextManager/Unresolved.antt =====
-- The test for unresolved tool calls, against a count for each identifier on its own.
use gude_agents.Prelude.{
  ℕ, ◌+◌, ◌-◌, ◌<◌, ◌≡◌, refl, sym, ap, ◌∙◌, ◌↔◌, String, false, not, List, [], ◌∷◌, ◌++◌, some,
  arith, ◌==◌, eq_iff, eq_refl, if◌then◌else◌,
}
use gude_agents.Dict.{Dict, lookup, lookup-insert, lookup-erase}
use gude_agents.Message.{
  Message, ContentBlock, text, tool_use, tool_result, image, document, widget, blocks,
}
use gude_agents.ContextManager.{
  open_count, opened_call, closed_call, pending_block, pending_blocks, pending_messages, is_empty,
  has_unresolved,
}

-- The calls of `id` that are open after the blocks, when `n` are open before. A result with no open
-- call closes nothing.
unfoldable pub open_calls : String → ℕ → List ContentBlock → ℕ
open_calls id n [] = n
open_calls id n (tool_use x ∷ bs) = open_calls id (if x.tool_use_id == id then n + 1 else n) bs
open_calls id n (tool_result x ∷ bs) = open_calls id (if x.tool_use_id == id then n - 1 else n) bs
open_calls id n (text _ ∷ bs) = open_calls id n bs
open_calls id n (image _ ∷ bs) = open_calls id n bs
open_calls id n (document _ ∷ bs) = open_calls id n bs
open_calls id n (widget _ ∷ bs) = open_calls id n bs

-- No entry counts 0.
record IsPositive (pending : Dict ℕ) : Type 0 where
  at : (id : String) (n : ℕ) → lookup id pending ≡ some n → 0 < n

opened_call-IsPositive : (id : String) (p : Dict ℕ) → IsPositive p → IsPositive (opened_call id p)
unfolding opened_call
opened_call-IsPositive id p h = record { at = λ j n. rw lookup-insert (ground (arith, h.at j n)) }

closed_call-IsPositive : (id : String) (p : Dict ℕ) → IsPositive p → IsPositive (closed_call id p)
unfolding closed_call
closed_call-IsPositive id p h = record {
  at = λ j n e.
      ground (arith, h.at j n, lookup-insert id j (open_count p id - 1) p, lookup-erase id j p);
}

open_count-opened_call :
    (id j : String) (p : Dict ℕ)
    → open_count (opened_call id p) j ≡ (if id == j then open_count p j + 1 else open_count p j)
unfolding opened_call
open_count-opened_call id j p =
    ground (arith, eq_iff id j, lookup-insert id j (open_count p id + 1) p)

open_count-closed_call :
    (id j : String) (p : Dict ℕ)
    → open_count (closed_call id p) j ≡ (if id == j then open_count p j - 1 else open_count p j)
unfolding closed_call
open_count-closed_call id j p =
    ground (arith, eq_iff id j, lookup-insert id j (open_count p id - 1) p, lookup-erase id j p)

pending_blocks-open_calls :
    (p : Dict ℕ) (bs : List ContentBlock) (id : String)
    → open_count (pending_blocks p bs) id ≡ open_calls id (open_count p id) bs
unfolding pending_blocks pending_block open_calls
pending_blocks-open_calls p [] id = refl
pending_blocks-open_calls p (tool_use x ∷ bs) id =
    pending_blocks-open_calls (opened_call x.tool_use_id p) bs id
    ∙ ap (λ n. open_calls id n bs) (open_count-opened_call x.tool_use_id id p)
pending_blocks-open_calls p (tool_result x ∷ bs) id =
    pending_blocks-open_calls (closed_call x.tool_use_id p) bs id
    ∙ ap (λ n. open_calls id n bs) (open_count-closed_call x.tool_use_id id p)
pending_blocks-open_calls p (text _ ∷ bs) id = pending_blocks-open_calls p bs id
pending_blocks-open_calls p (image _ ∷ bs) id = pending_blocks-open_calls p bs id
pending_blocks-open_calls p (document _ ∷ bs) id = pending_blocks-open_calls p bs id
pending_blocks-open_calls p (widget _ ∷ bs) id = pending_blocks-open_calls p bs id

pending_blocks-IsPositive :
    (p : Dict ℕ) (bs : List ContentBlock) → IsPositive p → IsPositive (pending_blocks p bs)
unfolding pending_blocks pending_block
pending_blocks-IsPositive p [] h = h
pending_blocks-IsPositive p (tool_use x ∷ bs) h =
    pending_blocks-IsPositive (opened_call x.tool_use_id p) bs
      (opened_call-IsPositive x.tool_use_id p h)
pending_blocks-IsPositive p (tool_result x ∷ bs) h =
    pending_blocks-IsPositive (closed_call x.tool_use_id p) bs
      (closed_call-IsPositive x.tool_use_id p h)
pending_blocks-IsPositive p (text _ ∷ bs) h = pending_blocks-IsPositive p bs h
pending_blocks-IsPositive p (image _ ∷ bs) h = pending_blocks-IsPositive p bs h
pending_blocks-IsPositive p (document _ ∷ bs) h = pending_blocks-IsPositive p bs h
pending_blocks-IsPositive p (widget _ ∷ bs) h = pending_blocks-IsPositive p bs h

pending_blocks-append :
    (p : Dict ℕ) (xs ys : List ContentBlock)
    → pending_blocks p (xs ++ ys) ≡ pending_blocks (pending_blocks p xs) ys
unfolding pending_blocks
pending_blocks-append p [] ys = refl
pending_blocks-append p (x ∷ xs) ys = pending_blocks-append (pending_block p x) xs ys

pending_messages-blocks :
    (p : Dict ℕ) (ms : List Message) → pending_messages p ms ≡ pending_blocks p (blocks ms)
unfolding pending_messages
pending_messages-blocks p [] = unfold pending_blocks in refl
pending_messages-blocks p (m ∷ ms) =
    pending_messages-blocks (pending_blocks p m.content) ms
    ∙ sym (pending_blocks-append p m.content (blocks ms))

nothing_open :
    (p : Dict ℕ) → IsPositive p → (not (is_empty p) ≡ false) ↔ ((id : String) → open_count p id ≡ 0)
unfolding lookup
nothing_open [] h = (λ e id. refl, λ z. refl)
nothing_open ((k, n) ∷ p) h = (λ e. cc, λ z. ground (arith, z k, h.at k n, eq_refl k))

-- A stretch of messages is unresolved unless every identifier's calls are all answered in it: the
-- count of open calls, up at a call and down at a result, ends at 0 for each identifier.
pub has_unresolved-open_calls :
    (ms : List Message)
    → (has_unresolved ms ≡ false) ↔ ((id : String) → open_calls id 0 (blocks ms) ≡ 0)
unfolding has_unresolved lookup
has_unresolved-open_calls ms = rw (pending_messages-blocks [] ms) (
  λ e id. sym (pending_blocks-open_calls [] (blocks ms) id) ∙ ends.0 e id,
  λ z. ends.1 (λ id. pending_blocks-open_calls [] (blocks ms) id ∙ z id),
)
  where
    start : IsPositive []
    start = record { at = λ id n e. unfold lookup in cc }

    ends :
        (not (is_empty (pending_blocks [] (blocks ms))) ≡ false)
        ↔ ((id : String) → open_count (pending_blocks [] (blocks ms)) id ≡ 0)
    ends =
        nothing_open (pending_blocks [] (blocks ms))
          (pending_blocks-IsPositive [] (blocks ms) start)
