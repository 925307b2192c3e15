-- ===== src/Execution/Batch/Recovery.antt =====
-- The transcript of the active tool batch, as a recovery reads it: `activeToolBatch`,
-- `activeToolBatchFromMessages` and `onlyToolResults` of agent/engine.go.
use gude_agents.Prelude.{
  String, Bool, true, false, not, ◌||◌, ◌&&◌, List, [], ◌∷◌, Option, none, some, Result, ok, err,
  any, all, All, ◌==◌, eq_iff, if◌then◌else◌, inl, inr, ◌≡◌, arith, Bool-cases, Result-cases,
}
use gude_agents.Message.{
  Message, ContentBlock, text, tool_use, tool_result, image, document, widget, role_user,
  role_assistant, ToolUseBlock,
}
use gude_agents.Execution.{ToolExecution, ToolBatchExecution}
use gude_agents.Execution.Batch.{
  Call, RunError, recovery_unsupported, conversation_conflict, Toolbox,
}
use gude_agents.Execution.Batch.Spent.{AllOk, AllOk-guard, at_ok}

abbrev pub is_tool_result : ContentBlock → Bool
is_tool_result (tool_result r) = true
is_tool_result (text t) = false
is_tool_result (tool_use u) = false
is_tool_result (image i) = false
is_tool_result (document d) = false
is_tool_result (widget w) = false

abbrev pub only_tool_results : List ContentBlock → Bool
only_tool_results [] = false
only_tool_results (b ∷ bs) = all is_tool_result (b ∷ bs)

abbrev pub contains : List String → String → Bool
contains ids id = any (λ i. i == id) ids

abbrev pub same_hash : ToolUseBlock → ToolExecution → Option String → Bool
same_hash u call none = false
same_hash u call (some hash) =
    (u.tool_use_id == call.call_id) && (u.name == call.name) && (hash == call.input_hash)

module _ (box : Toolbox) where
  -- The tool use of a block is that of a batch call.
  abbrev pub same_use : ToolUseBlock → ToolExecution → Bool
  same_use u call = same_hash u call (box.input_hash u.input)

  -- The first loop of `activeToolBatch`, with the identifiers seen. The lengths are compared first:
  -- every mismatch is the same error.
  unfoldable pub match_uses :
      List String → List ContentBlock → List ToolExecution → Result RunError (List Call)
  match_uses seen [] [] = ok []
  match_uses seen [] (call ∷ calls) = err recovery_unsupported
  match_uses seen (b ∷ bs) [] = err recovery_unsupported
  match_uses seen (tool_use u ∷ bs) (call ∷ calls) =
      let rest = match_uses (u.tool_use_id ∷ seen) bs calls in
      if not (same_use u call)
      then err recovery_unsupported
      else if contains seen u.tool_use_id
      then err recovery_unsupported
      else elim rest [
        | err e ↦ err e
        | ok cs ↦ ok (record { tool_use_id = u.tool_use_id; name = u.name; input = u.input } ∷ cs)
      ]
  match_uses seen (text t ∷ bs) (call ∷ calls) = err recovery_unsupported
  match_uses seen (tool_result r ∷ bs) (call ∷ calls) = err recovery_unsupported
  match_uses seen (image i ∷ bs) (call ∷ calls) = err recovery_unsupported
  match_uses seen (document d ∷ bs) (call ∷ calls) = err recovery_unsupported
  match_uses seen (widget w ∷ bs) (call ∷ calls) = err recovery_unsupported

-- The results of one message, after those that were seen. A block of another type does not arise
-- under the guard of the loop over messages.
unfoldable pub block_results :
    List String → List String → List ContentBlock → Result RunError (List String)
block_results known results [] = ok results
block_results known results (tool_result r ∷ bs) =
    let rest = block_results known (r.tool_use_id ∷ results) bs in
    if not (contains known r.tool_use_id)
    then err conversation_conflict
    else if contains results r.tool_use_id
    then err conversation_conflict
    else rest
block_results known results (text t ∷ bs) = err conversation_conflict
block_results known results (tool_use u ∷ bs) = err conversation_conflict
block_results known results (image i ∷ bs) = err conversation_conflict
block_results known results (document d ∷ bs) = err conversation_conflict
block_results known results (widget w ∷ bs) = err conversation_conflict

-- The second loop of `activeToolBatch`.
unfoldable pub message_results :
    List String → List String → List Message → Result RunError (List String)
message_results known results [] = ok results
message_results known results (m ∷ ms) =
    if not (m.role == role_user) || not (only_tool_results m.content)
    then err conversation_conflict
    else elim (block_results known results m.content) [
      | err e ↦ err e
      | ok more ↦ message_results known more ms
    ]

abbrev pub call_ids : List Call → List String
call_ids [] = []
call_ids (c ∷ cs) = c.tool_use_id ∷ call_ids cs

-- The calls of the batch and the identifiers of their results, newest first.
unfoldable pub active_tool_batch :
    Toolbox → List Message → Option ToolBatchExecution → Result RunError (List Call × List String)
active_tool_batch box ms none = err recovery_unsupported
active_tool_batch box [] (some b) = err recovery_unsupported
active_tool_batch box (m ∷ ms) (some b) =
    if not (m.role == role_assistant)
    then err recovery_unsupported
    else elim (match_uses box [] m.content b.calls) [
      | err e ↦ err e
      | ok calls ↦ elim (message_results (call_ids calls) [] ms) [
        | err e ↦ err e
        | ok results ↦ ok (calls, results)
      ]
    ]

abbrev pub uses_match : Toolbox → List ContentBlock → List ToolExecution → Bool
uses_match box [] [] = true
uses_match box [] (call ∷ calls) = false
uses_match box (b ∷ bs) [] = false
uses_match box (tool_use u ∷ bs) (call ∷ calls) = same_use box u call && uses_match box bs calls
uses_match box (text t ∷ bs) (call ∷ calls) = false
uses_match box (tool_result r ∷ bs) (call ∷ calls) = false
uses_match box (image i ∷ bs) (call ∷ calls) = false
uses_match box (document d ∷ bs) (call ∷ calls) = false
uses_match box (widget w ∷ bs) (call ∷ calls) = false

-- From the last message that matches the batch, on.
unfoldable pub last_match : Toolbox → List Message → ToolBatchExecution → Option (List Message)
last_match box [] b = none
last_match box (m ∷ ms) b = elim (last_match box ms b) [
  | some found ↦ some found
  | none ↦
      if (m.role == role_assistant) && uses_match box m.content b.calls then some (m ∷ ms) else none
]

unfoldable pub active_tool_batch_from_messages :
    Toolbox → List Message → ToolBatchExecution → Result RunError (List Call × List String)
active_tool_batch_from_messages box ms b = elim (last_match box ms b) [
  | none ↦ err recovery_unsupported
  | some found ↦ active_tool_batch box found (some b)
]

-- The calls that were read are those of the batch, one by one.
abbrev pub Reads : Toolbox → List Call → List ToolExecution → Type 0
Reads box [] [] = Unit
Reads box [] (e ∷ es) = ⊥
Reads box (c ∷ cs) [] = ⊥
Reads box (c ∷ cs) (e ∷ es) =
    (c.tool_use_id ≡ e.call_id)
    × (c.name ≡ e.name)
    × (box.input_hash c.input ≡ some e.input_hash)
    × Reads box cs es

-- No text occurs twice.
abbrev pub IsDistinct : List String → Type 0
IsDistinct [] = Unit
IsDistinct (s ∷ ss) = (contains ss s ≡ false) × IsDistinct ss

same_hash-Reads :
    (u : ToolUseBlock) (call : ToolExecution) (o : Option String)
    → same_hash u call o ≡ true
    → (u.tool_use_id ≡ call.call_id) × (u.name ≡ call.name) × (o ≡ some call.input_hash)
same_hash-Reads u call none h = ground arith
same_hash-Reads u call (some hash) h =
    ground (
      arith,
      eq_iff u.tool_use_id call.call_id,
      eq_iff u.name call.name,
      eq_iff hash call.input_hash,
    )

match_uses-Reads :
    (box : Toolbox) (seen : List String) (bs : List ContentBlock) (calls : List ToolExecution)
    → AllOk (λ cs. Reads box cs calls) (match_uses box seen bs calls)
unfolding match_uses
match_uses-Reads box seen [] [] = tt
match_uses-Reads box seen [] (call ∷ calls) = tt
match_uses-Reads box seen (b ∷ bs) [] = tt
match_uses-Reads box seen (tool_use u ∷ bs) (call ∷ calls) =
    elim (Bool-cases (same_use box u call)) [
      | inr different ↦ rw different tt
      | inl same ↦ rw same (
          AllOk-guard (λ cs. Reads box cs (call ∷ calls)) (contains seen u.tool_use_id) _ _
            (elim (Result-cases (match_uses box (u.tool_use_id ∷ seen) bs calls)) [
              | inl (e, bad) ↦ rw bad tt
              | inr (cs, good) ↦ rw good (
                  let r = same_hash-Reads u call (box.input_hash u.input) same in
                  (
                    r.0,
                    r.1,
                    r.2,
                    at_ok (λ ds. Reads box ds calls) _ cs
                        (match_uses-Reads box (u.tool_use_id ∷ seen) bs calls) good,
                  ))
            ]))
    ]
match_uses-Reads box seen (text t ∷ bs) (call ∷ calls) = tt
match_uses-Reads box seen (tool_result r ∷ bs) (call ∷ calls) = tt
match_uses-Reads box seen (image i ∷ bs) (call ∷ calls) = tt
match_uses-Reads box seen (document d ∷ bs) (call ∷ calls) = tt
match_uses-Reads box seen (widget w ∷ bs) (call ∷ calls) = tt

block_results-IsDistinct :
    (known results : List String) (bs : List ContentBlock)
    → IsDistinct results
    → All (λ id. contains known id ≡ true) results
    → AllOk
        (λ r. IsDistinct r × All (λ id. contains known id ≡ true) r)
        (block_results known results bs)
unfolding block_results
block_results-IsDistinct known results [] d k = (d, k)
block_results-IsDistinct known results (tool_result r ∷ bs) d k =
    elim (Bool-cases (contains known r.tool_use_id)) [
      | inr unknown_id ↦ rw unknown_id tt
      | inl is_known ↦ rw is_known (elim (Bool-cases (contains results r.tool_use_id)) [
        | inl twice ↦ rw twice tt
        | inr once ↦
            rw once
              (block_results-IsDistinct known (r.tool_use_id ∷ results) bs (once, d) (is_known, k))
      ])
    ]
block_results-IsDistinct known results (text t ∷ bs) d k = tt
block_results-IsDistinct known results (tool_use u ∷ bs) d k = tt
block_results-IsDistinct known results (image i ∷ bs) d k = tt
block_results-IsDistinct known results (document i ∷ bs) d k = tt
block_results-IsDistinct known results (widget w ∷ bs) d k = tt

message_results-IsDistinct :
    (known results : List String) (ms : List Message)
    → IsDistinct results
    → All (λ id. contains known id ≡ true) results
    → AllOk
        (λ r. IsDistinct r × All (λ id. contains known id ≡ true) r)
        (message_results known results ms)
unfolding message_results
message_results-IsDistinct known results [] d k = (d, k)
message_results-IsDistinct known results (m ∷ ms) d k =
    elim (Bool-cases (not (m.role == role_user) || not (only_tool_results m.content))) [
      | inl foreign ↦ rw foreign tt
      | inr plain ↦ rw plain (elim (Result-cases (block_results known results m.content)) [
        | inl (e, bad) ↦ rw bad tt
        | inr (more, good) ↦ rw good (
            let h =
              at_ok (λ r. IsDistinct r × All (λ id. contains known id ≡ true) r) _ more
                (block_results-IsDistinct known results m.content d k) good in
            message_results-IsDistinct known more ms h.0 h.1)
      ])
    ]

active_tool_batch-AllOk :
    (box : Toolbox) (ms : List Message) (b : ToolBatchExecution)
    → AllOk
        (λ r.
          Reads box r.0 b.calls
          × IsDistinct r.1
          × All (λ id. contains (call_ids r.0) id ≡ true) r.1)
        (active_tool_batch box ms (some b))
unfolding active_tool_batch
active_tool_batch-AllOk box [] b = tt
active_tool_batch-AllOk box (m ∷ ms) b =
    AllOk-guard _ (not (m.role == role_assistant)) _ _
      (elim (Result-cases (match_uses box [] m.content b.calls)) [
        | inl (e, bad) ↦ rw bad tt
        | inr (cs, good) ↦ rw good (elim (Result-cases (message_results (call_ids cs) [] ms)) [
          | inl (e, bad) ↦ rw bad tt
          | inr (rs, done) ↦ rw done (
              let r =
                at_ok (λ r. IsDistinct r × All (λ id. contains (call_ids cs) id ≡ true) r) _ rs
                  (message_results-IsDistinct (call_ids cs) [] ms tt tt) done in
              (
                at_ok (λ ds. Reads box ds b.calls) _ cs (match_uses-Reads box [] m.content b.calls)
                    good,
                r.0,
                r.1,
              ))
        ])
      ])

-- Where a recovery accepts a transcript, the calls that it reads are those of the batch, one by one,
-- with their identifiers, names and input hashes; and the results that it reads are of distinct
-- calls among them.
pub active_tool_batch-Reads :
    (box : Toolbox) (ms : List Message) (b : ToolBatchExecution) (calls : List Call)
    (results : List String)
    → active_tool_batch box ms (some b) ≡ ok (calls, results)
    → Reads box calls b.calls
      × IsDistinct results
      × All (λ id. contains (call_ids calls) id ≡ true) results
active_tool_batch-Reads box ms b calls results e =
    at_ok
      (λ r.
        Reads box r.0 b.calls × IsDistinct r.1 × All (λ id. contains (call_ids r.0) id ≡ true) r.1)
      _ (calls, results) (active_tool_batch-AllOk box ms b) e
