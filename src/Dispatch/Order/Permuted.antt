-- ===== src/Dispatch/Order/Permuted.antt =====
-- The blocks that agent/turn_messages.go shows to the provider.
use gude_agents.Prelude.{
  ℕ, suc, ◌+◌, String, Bool, true, false, ◌&&◌, List, [], ◌∷◌, ◌++◌, Option, none, some, any,
  filter, take, drop, ◌==◌, eq_iff, eq_refl, if◌then◌else◌, ◌≡◌, refl, sym, ap, ◌∙◌, subst, inl,
  inr, Bool-cases, or_right, clash, arith, take-append-drop,
}
use gude_agents.Words.{Int64}
use gude_agents.Message.{
  Message, ContentBlock, text, tool_use, tool_result, image, document, widget, blocks, role_user,
  role_assistant,
}
use gude_agents.Execution.Batch.Recovery.{only_tool_results}
use gude_agents.Dispatch.Order.{
  TurnMessages, use_order, result_id, by_order, is_unknown, grouped, Gathering, flushed, started,
  project_from, project_tool_result_order, cut_at, projected_canonical, provider_messages,
}

-- How many blocks pass a test.
abbrev pub count : (ContentBlock → Bool) → List ContentBlock → ℕ
count q [] = 0
count q (b ∷ bs) = let rest = count q bs in if q b then suc rest else rest

count-append :
    (q : ContentBlock → Bool) (xs ys : List ContentBlock)
    → count q (xs ++ ys) ≡ count q xs + count q ys
count-append q [] ys = omega arith
count-append q (x ∷ xs) ys = elim (Bool-cases (q x)) [
  | inl counts ↦ rw counts (omega (arith, count-append q xs ys))
  | inr other ↦ rw other (count-append q xs ys)
]

abbrev IsDistinct : List String → Type 0
IsDistinct [] = Unit
IsDistinct (id ∷ ids) = (any (λ i. i == id) ids ≡ false) × IsDistinct ids

-- The results of a new identifier are unknown to the others.
count-unknown :
    (q : ContentBlock → Bool) (id : String) (ids : List String) (bs : List ContentBlock)
    → any (λ i. i == id) ids ≡ false
    → count q (filter (λ b. id == result_id b) bs) + count q (filter (is_unknown (id ∷ ids)) bs)
      ≡ count q (filter (is_unknown ids) bs)
count-unknown q id ids [] new = omega arith
count-unknown q id ids (b ∷ bs) new =
    let rest = count-unknown q id ids bs new in
    elim (Bool-cases (id == result_id b)) [
      | inl same ↦
          rw
            (
              same,
              subst (λ i. any (λ j. j == i) ids ≡ false) ((eq_iff id (result_id b)).0 same) new,
            )
            (counted (q b) _ _ _ rest)
      | inr other ↦ rw other (elim (Bool-cases (any (λ i. i == result_id b) ids)) [
        | inl known ↦ rw known rest
        | inr unknown ↦ rw unknown (counted_later (q b) _ _ _ rest)
      ])
    ]
  where
    counted :
        (c : Bool) (x y z : ℕ) → x + y ≡ z → (if c then suc x else x) + y ≡ (if c then suc z else z)
    counted true x y z e = omega (arith, e)
    counted false x y z e = e

    counted_later :
        (c : Bool) (x y z : ℕ) → x + y ≡ z → x + (if c then suc y else y) ≡ (if c then suc z else z)
    counted_later true x y z e = omega (arith, e)
    counted_later false x y z e = e

unknown_all : (bs : List ContentBlock) → filter (is_unknown []) bs ≡ bs
unknown_all [] = refl
unknown_all (b ∷ bs) = ap (λ rest. b ∷ rest) (unknown_all bs)

count-by_order :
    (q : ContentBlock → Bool) (order : List String) (bs : List ContentBlock)
    → IsDistinct order
    → count q (by_order order bs) + count q (filter (is_unknown order) bs) ≡ count q bs
unfolding by_order
count-by_order q [] bs distinct = rw (unknown_all bs) (omega arith)
count-by_order q (id ∷ ids) bs distinct = omega (
  arith,
  count-append q (filter (λ b. id == result_id b) bs) (by_order ids bs),
  count-unknown q id ids bs distinct.0,
  count-by_order q ids bs distinct.1,
)

count-grouped :
    (q : ContentBlock → Bool) (order : List String) (bs : List ContentBlock)
    → IsDistinct order
    → count q (grouped order bs) ≡ count q bs
unfolding grouped
count-grouped q order bs distinct =
    count-append q (by_order order bs) (filter (is_unknown order) bs)
    ∙ count-by_order q order bs distinct

-- The order has each identifier once.
unlike : (a b : String) (f : String → Bool) → f a ≡ false → f b ≡ true → (a == b) ≡ false
unlike a b f e k = elim (Bool-cases (a == b)) [
  | inl same ↦ absurd (clash (f b) k (ap f (sym ((eq_iff a b).0 same)) ∙ e))
  | inr other ↦ other
]

use_order-new :
    (known : List String) (bs : List ContentBlock) (id : String)
    → any (λ i. i == id) known ≡ true
    → any (λ i. i == id) (use_order known bs) ≡ false
unfolding use_order
use_order-new known [] id e = refl
use_order-new known (tool_use u ∷ bs) id e =
    elim (Bool-cases (any (λ i. i == u.tool_use_id) known)) [
      | inl seen ↦ rw seen (use_order-new known bs id e)
      | inr fresh ↦
          rw (fresh, unlike u.tool_use_id id (λ k. any (λ i. i == k) known) fresh e)
            (use_order-new (u.tool_use_id ∷ known) bs id (or_right (u.tool_use_id == id) _ e))
    ]
use_order-new known (text t ∷ bs) id e = use_order-new known bs id e
use_order-new known (tool_result r ∷ bs) id e = use_order-new known bs id e
use_order-new known (image i ∷ bs) id e = use_order-new known bs id e
use_order-new known (document d ∷ bs) id e = use_order-new known bs id e
use_order-new known (widget w ∷ bs) id e = use_order-new known bs id e

use_order-IsDistinct :
    (known : List String) (bs : List ContentBlock) → IsDistinct (use_order known bs)
unfolding use_order
use_order-IsDistinct known [] = tt
use_order-IsDistinct known (tool_use u ∷ bs) =
    elim (Bool-cases (any (λ i. i == u.tool_use_id) known)) [
      | inl seen ↦ rw seen (use_order-IsDistinct known bs)
      | inr fresh ↦ rw fresh (
        use_order-new (u.tool_use_id ∷ known) bs u.tool_use_id (rw (eq_refl u.tool_use_id) refl),
        use_order-IsDistinct (u.tool_use_id ∷ known) bs,
      )
    ]
use_order-IsDistinct known (text t ∷ bs) = use_order-IsDistinct known bs
use_order-IsDistinct known (tool_result r ∷ bs) = use_order-IsDistinct known bs
use_order-IsDistinct known (image i ∷ bs) = use_order-IsDistinct known bs
use_order-IsDistinct known (document d ∷ bs) = use_order-IsDistinct known bs
use_order-IsDistinct known (widget w ∷ bs) = use_order-IsDistinct known bs

-- What is gathered has an order without repetitions.
abbrev IsGathering : Option Gathering → Type 0
IsGathering none = Unit
IsGathering (some g) = IsDistinct g.order

abbrev gathered_results : Option Gathering → List ContentBlock
gathered_results none = []
gathered_results (some g) = g.results

started-IsGathering :
    (m : Message) (order : List String)
    → IsDistinct order
    → IsGathering (started m order) × (gathered_results (started m order) ≡ [])
started-IsGathering m [] distinct = (tt, refl)
started-IsGathering m (id ∷ ids) distinct = elim (Bool-cases (m.role == role_assistant)) [
  | inl speaks ↦ rw speaks (distinct, refl)
  | inr other ↦ rw other (tt, refl)
]

count-flushed :
    (q : ContentBlock → Bool) (g : Gathering) (bs : List ContentBlock)
    → IsDistinct g.order
    → count q (blocks (flushed g bs)) ≡ count q bs
count-flushed q g [] distinct = refl
count-flushed q g (b ∷ bs) distinct =
    count-append q (grouped g.order (b ∷ bs)) []
    ∙ add_zero (count q (grouped g.order (b ∷ bs)))
    ∙ count-grouped q g.order (b ∷ bs) distinct
  where
    add_zero : (n : ℕ) → n + 0 ≡ n
    add_zero n = omega arith

count-blocks :
    (q : ContentBlock → Bool) (xs ys : List Message)
    → count q (blocks (xs ++ ys)) ≡ count q (blocks xs) + count q (blocks ys)
count-blocks q [] ys = omega arith
count-blocks q (m ∷ xs) ys = omega (
  arith,
  count-append q m.content (blocks (xs ++ ys)),
  count-append q m.content (blocks xs),
  count-blocks q xs ys,
)

count-project_from :
    (q : ContentBlock → Bool) (st : Option Gathering) (ms : List Message)
    → IsGathering st
    → count q (blocks (project_from st ms)) ≡ count q (gathered_results st) + count q (blocks ms)
unfolding project_from
count-project_from q none [] h = omega arith
count-project_from q (some g) [] h = omega (arith, count-flushed q g g.results h)
count-project_from q none (m ∷ ms) h =
    let next = started m (use_order [] m.content) in
    let fresh =
      started-IsGathering m (use_order [] m.content) (use_order-IsDistinct [] m.content) in
    omega (
      arith,
      count-append q m.content (blocks (project_from next ms)),
      count-append q m.content (blocks ms),
      count-project_from q next ms fresh.0,
      ap (count q) fresh.1,
    )
count-project_from q (some g) (m ∷ ms) h =
    let next = started m (use_order [] m.content) in
    let fresh =
      started-IsGathering m (use_order [] m.content) (use_order-IsDistinct [] m.content) in
    let more : Gathering = record { order = g.order; results = g.results ++ m.content } in
    elim (Bool-cases ((m.role == role_user) && only_tool_results m.content)) [
      | inl results ↦ rw results (
          omega (
            arith,
            count-project_from q (some more) ms h,
            count-append q g.results m.content,
            count-append q m.content (blocks ms),
          ))
      | inr other ↦ rw other (
          omega (
            arith,
            count-blocks q (flushed g g.results) (m ∷ project_from next ms),
            count-flushed q g g.results h,
            count-append q m.content (blocks (project_from next ms)),
            count-append q m.content (blocks ms),
            count-project_from q next ms fresh.0,
            ap (count q) fresh.1,
          ))
    ]

-- The messages for the provider have the blocks of the transcript and the transient ones, each as
-- often: the view loses, repeats and invents no block.
pub provider_messages-count :
    (m : TurnMessages) (persisted_count : Int64) (q : ContentBlock → Bool)
    → count q (blocks (provider_messages m persisted_count))
      ≡ count q (blocks m.canonical) + count q (blocks m.transient)
unfolding provider_messages projected_canonical
provider_messages-count m persisted_count q =
    let n = cut_at m persisted_count in
    let recent = take n m.canonical in
    let current = drop n m.canonical in
    let shown : List Message = project_tool_result_order recent in
    count-blocks q (shown ++ m.transient) (project_tool_result_order current)
    ∙ omega (
      arith,
      count-blocks q shown m.transient,
      count-project_from q none recent tt,
      count-project_from q none current tt,
      count-blocks q recent current,
      ap (λ ms. count q (blocks ms)) (take-append-drop n m.canonical),
    )
