-- ===== src/Interrupt/Valid.antt =====
-- Which responses `validateResume` of agent/interrupt.go accepts, and the interrupts of a planned batch.
use gude_agents.Prelude.{
  String, Bool, true, false, not, ◌||◌, List, [], ◌∷◌, Option, none, some, Result, ok, err, any,
  All, ◌==◌, eq_iff, if◌then◌else◌, ◌≡◌, ◌≢◌, refl, sym, ap, ◌∙◌, subst, ◌↔◌, ◌⊎◌, inl, inr, arith,
  Bool-cases, clash,
}
use gude_agents.Dict.{Dict}
use gude_agents.Execution.{ApprovalCall, ApprovalInterrupt}
use gude_agents.Dispatch.{Decision}
use gude_agents.Interrupt.{
  Interrupt, ResumeKind, resume_none, resume_all, resume_decide, resume_respond, ResumeResponse,
  ResumeError, seen_calls, has_key, missing, unexpected, first_error, check_response, check_seen,
  check_calls, check_approval, is_respond, validate_resume, respond_required, missing_decision,
  unexpected_decision,
}

-- The identifiers are not empty, and each one differs from those before it.
abbrev pub IsFresh : List String → List ApprovalCall → Type 0
IsFresh seen [] = Unit
IsFresh seen (call ∷ calls) =
    ((call.call_id == "") ≡ false)
    × (any (λ id. id == call.call_id) seen ≡ false)
    × IsFresh (call.call_id ∷ seen) calls

abbrev push : List String → List ApprovalCall → List String
push seen [] = seen
push seen (call ∷ calls) = push (call.call_id ∷ seen) calls

seen_calls-fresh :
    (seen : List String) (calls : List ApprovalCall)
    → IsFresh seen calls
    → seen_calls seen calls ≡ ok (push seen calls)
unfolding seen_calls
seen_calls-fresh seen [] h = refl
seen_calls-fresh seen (call ∷ calls) h =
    rw (h.0, h.1) (seen_calls-fresh (call.call_id ∷ seen) calls h.2)

abbrev Collected : List String → List ApprovalCall → Result ResumeError (List String) → Type 0
Collected seen calls (err e) = Unit
Collected seen calls (ok ids) = IsFresh seen calls × (ids ≡ push seen calls)

seen_calls-Collected :
    (seen : List String) (calls : List ApprovalCall) → Collected seen calls (seen_calls seen calls)
unfolding seen_calls
seen_calls-Collected seen [] = (tt, refl)
seen_calls-Collected seen (call ∷ calls) = elim (Bool-cases (call.call_id == "")) [
  | inl empty ↦ rw empty tt
  | inr named ↦ elim (Bool-cases (any (λ id. id == call.call_id) seen)) [
    | inl again ↦ rw (named, again) tt
    | inr new ↦
        rw (named, new)
          (extend (seen_calls (call.call_id ∷ seen) calls) named new
            (seen_calls-Collected (call.call_id ∷ seen) calls))
  ]
]
  where
    extend :
        (r : Result ResumeError (List String))
        → (call.call_id == "") ≡ false
        → any (λ id. id == call.call_id) seen ≡ false
        → Collected (call.call_id ∷ seen) calls r
        → Collected seen (call ∷ calls) r
    extend (err e) named new rest = tt
    extend (ok ids) named new rest = ((named, new, rest.0), rest.1)

-- Every call has its decision, and every decision its call.
abbrev pub IsDecided : List ApprovalCall → ResumeResponse → Type 0
IsDecided calls r =
    All (λ call. has_key r.decisions call.call_id ≡ true) calls
    × All (λ entry. any (λ call. call.call_id == entry.0) calls ≡ true) r.decisions

abbrev pub Answers : List ApprovalCall → ResumeResponse → ResumeKind → Type 0
Answers calls r resume_all = Unit
Answers calls r resume_decide = IsDecided calls r
Answers calls r resume_respond = ⊥
Answers calls r resume_none = ⊥

abbrev pub AnswersApproval : Option ApprovalInterrupt → ResumeResponse → Type 0
AnswersApproval none r = ⊥
AnswersApproval (some approval) r =
    (approval.calls ≢ []) × IsFresh [] approval.calls × Answers approval.calls r r.kind

step_none :
    (b : Bool) (rest : Option ResumeError) (e : ResumeError) (P : Type 0)
    → ((rest ≡ none) ↔ P)
    → ((if b then rest else some e) ≡ none) ↔ ((b ≡ true) × P)
step_none true rest e P h = (λ k. (refl, h.0 k), λ k. h.1 k.1)
step_none false rest e P h = (λ k. ground arith, λ k. ground (arith, k.0))

missing-none :
    (decisions : Dict Decision) (ids : List String)
    → (missing decisions ids ≡ none) ↔ All (λ id. has_key decisions id ≡ true) ids
unfolding missing
missing-none decisions [] = (λ e. tt, λ h. refl)
missing-none decisions (id ∷ ids) =
    step_none (has_key decisions id) (missing decisions ids) (missing_decision id) _
      (missing-none decisions ids)

unexpected-none :
    (seen : List String) (decisions : Dict Decision)
    → (unexpected seen decisions ≡ none)
      ↔ All (λ entry. any (λ i. i == entry.0) seen ≡ true) decisions
unfolding unexpected
unexpected-none seen [] = (λ e. tt, λ h. refl)
unexpected-none seen ((id, d) ∷ decisions) =
    step_none (any (λ i. i == id) seen) (unexpected seen decisions) (unexpected_decision id) _
      (unexpected-none seen decisions)

All-push :
    (P : String → Type 0) (seen : List String) (calls : List ApprovalCall)
    → All P (push seen calls) ↔ (All P seen × All (λ call. P call.call_id) calls)
All-push P seen [] = (λ h. (h, tt), λ h. h.0)
All-push P seen (call ∷ calls) =
    let rest = All-push P (call.call_id ∷ seen) calls in
    ((λ h. let k = rest.0 h in (k.0.1, (k.0.0, k.1))), (λ h. rest.1 ((h.1.0, h.0), h.1.1)))

or_false : (b : Bool) → (b || false) ≡ b
or_false true = refl
or_false false = refl

or_swap : (a b c : Bool) → ((a || b) || c) ≡ (b || (a || c))
or_swap true true c = refl
or_swap true false c = refl
or_swap false b c = refl

any-push :
    (q : String → Bool) (seen : List String) (calls : List ApprovalCall)
    → any q (push seen calls) ≡ (any q seen || any (λ call. q call.call_id) calls)
any-push q seen [] = sym (or_false (any q seen))
any-push q seen (call ∷ calls) =
    any-push q (call.call_id ∷ seen) calls ∙ or_swap (q call.call_id) (any q seen) _

first_error-none :
    (first second : Option ResumeError)
    → (first_error first second ≡ none) ↔ ((first ≡ none) × (second ≡ none))
first_error-none none second = (λ e. (refl, e), λ h. h.1)
first_error-none (some e) second = (λ k. ground arith, λ h. ground (arith, h.0))

All-map :
    {A : Type 0} (P Q : A → Type 0) (xs : List A) → ((x : A) → P x → Q x) → All P xs → All Q xs
All-map P Q [] f h = tt
All-map P Q (x ∷ xs) f h = (f x h.0, All-map P Q xs f h.1)

check_response-Answers :
    (calls : List ApprovalCall) (r : ResumeResponse) (kind : ResumeKind)
    → (check_response r kind (push [] calls) ≡ none) ↔ Answers calls r kind
unfolding check_response
check_response-Answers calls r resume_all = (λ e. tt, λ h. refl)
check_response-Answers calls r resume_none = (λ e. ground arith, λ h. absurd h)
check_response-Answers calls r resume_respond = (λ e. ground arith, λ h. absurd h)
check_response-Answers calls r resume_decide =
    let ids = push [] calls in
    let both = first_error-none (missing r.decisions ids) (unexpected ids r.decisions) in
    let asked = missing-none r.decisions ids in
    let told = unexpected-none ids r.decisions in
    let pushed = All-push (λ id. has_key r.decisions id ≡ true) [] calls in
    let named : (id : String) → any (λ i. i == id) ids ≡ any (λ call. call.call_id == id) calls =
      λ id. any-push (λ i. i == id) [] calls in
    (
      (λ e.
          let k = both.0 e in
          (
            (pushed.0 (asked.0 k.0)).1,
            All-map _ _ r.decisions (λ entry h. sym (named entry.0) ∙ h) (told.0 k.1),
          )),
      (λ h. both.1 (
        asked.1 (pushed.1 (tt, h.0)),
        told.1 (All-map _ _ r.decisions (λ entry k. named entry.0 ∙ k) h.1),
      )),
    )

err_ok : (e : ResumeError) (ids : List String) → err e ≡ ok ids → ⊥
err_ok e ids k = ground arith

check_seen-Answers :
    (calls : List ApprovalCall) (r : ResumeResponse) (seen : Result ResumeError (List String))
    → seen ≡ seen_calls [] calls
    → (check_seen r seen ≡ none) ↔ (IsFresh [] calls × Answers calls r r.kind)
check_seen-Answers calls r (err e) same = (
  λ k. ground arith,
  λ h. absurd (err_ok e (push [] calls) (same ∙ seen_calls-fresh [] calls h.0)),
)
check_seen-Answers calls r (ok ids) same =
    let collected = subst (Collected [] calls) (sym same) (seen_calls-Collected [] calls) in
    let answers = check_response-Answers calls r r.kind in
    let here = ap (λ seen. check_response r r.kind seen) collected.1 in
    (λ k. (collected.0, answers.0 (sym here ∙ k)), λ h. here ∙ answers.1 h.1)

check_approval-AnswersApproval :
    (approval : Option ApprovalInterrupt) (r : ResumeResponse)
    → (check_approval approval r ≡ none) ↔ AnswersApproval approval r
unfolding check_approval
check_approval-AnswersApproval none r = (λ e. ground arith, λ h. absurd h)
check_approval-AnswersApproval (some approval) r = by_calls approval.calls
  where
    by_calls :
        (calls : List ApprovalCall)
        → (check_calls calls r ≡ none) ↔ ((calls ≢ []) × IsFresh [] calls × Answers calls r r.kind)
    by_calls [] = (λ e. ground arith, λ h. absurd (h.0 refl))
    by_calls (call ∷ calls) =
        let seen = check_seen-Answers (call ∷ calls) r (seen_calls [] (call ∷ calls)) refl in
        (λ e. let k = seen.0 e in ((λ empty. ground arith), k.0, k.1), λ h. seen.1 (h.1, h.2))

is_respond_iff :
    (k : ResumeKind)
    → ((if not (is_respond k) then some respond_required else none) ≡ none) ↔ (k ≡ resume_respond)
is_respond_iff resume_none = (λ e. ground arith, λ e. ground arith)
is_respond_iff resume_all = (λ e. ground arith, λ e. ground arith)
is_respond_iff resume_decide = (λ e. ground arith, λ e. ground arith)
is_respond_iff resume_respond = (λ e. refl, λ e. refl)

two_names : (t : String) → t ≡ "approval" → t ≡ "human_input" → ⊥
two_names t e f =
    clash (t == "human_input") ((eq_iff t "human_input").1 f)
      (subst (λ s. (s == "human_input") ≡ false) (sym e) refl)

abbrev pub CanResume : Interrupt → ResumeResponse → Type 0
CanResume i r =
    ((i.type_name ≡ "approval") × AnswersApproval i.approval r)
    ⊎ ((i.type_name ≡ "human_input") × (r.kind ≡ resume_respond))

-- `validateResume` accepts a response exactly when the interrupt is an approval with calls, whose
-- identifiers are not empty and distinct, and the response is for all calls or decides on each call and
-- on no other, or when the interrupt asks for input and the response is a text.
pub validate_resume-CanResume :
    (i : Interrupt) (r : ResumeResponse) → (validate_resume (some i) r ≡ none) ↔ CanResume i r
unfolding validate_resume
validate_resume-CanResume i r = elim (Bool-cases (i.type_name == "approval")) [
  | inl approval ↦
      let checked = check_approval-AnswersApproval i.approval r in
      let named = (eq_iff i.type_name "approval").0 approval in
      rw approval (
        (λ e. inl (named, checked.0 e)),
        (λ h. elim h [ inl k ↦ checked.1 k.1 | inr k ↦ absurd (two_names i.type_name named k.0) ]),
      )
  | inr no_approval ↦ elim (Bool-cases (i.type_name == "human_input")) [
    | inl asks ↦
        let named = (eq_iff i.type_name "human_input").0 asks in
        rw (no_approval, asks)
          (
            (λ e. inr (named, (is_respond_iff r.kind).0 e)),
            (λ h. elim h [
              | inl k ↦ absurd (two_names i.type_name k.0 named)
              | inr k ↦ (is_respond_iff r.kind).1 k.1
            ]),
          )
    | inr unknown_name ↦
        rw (no_approval, unknown_name)
          (
            (λ e. ground arith),
            (λ h. elim h [
              | inl k ↦ absurd (clash _ ((eq_iff i.type_name "approval").1 k.0) no_approval)
              | inr k ↦ absurd (clash _ ((eq_iff i.type_name "human_input").1 k.0) unknown_name)
            ]),
          )
  ]
]
