-- ===== src/Execution/Batch/Race.antt =====
-- Two runs that hold the same version of an execution: `persistExecution` of agent/engine.go.
use gude_agents.Prelude.{
  ◌+◌, List, Option, none, some, Result, ok, err, ◌≡◌, ◌≢◌, refl, sym, ap, ◌∙◌, subst,
}
use gude_agents.Message.{Bytes}
use gude_agents.Execution.{Execution, ExecutionError, conflict, Json, Memory, stamped, save}
use gude_agents.Execution.Store.{Codec, kept, IsCurrent, save_outcome}
use gude_agents.Execution.Versions.{Write, writes, save_once}
use gude_agents.Execution.Batch.{RunError, store_failed, persisted, persist_execution}

persist-save :
    (json : Json) (m : Memory) (x x' : Execution) (f : Execution → Result RunError Execution)
    → f x ≡ ok x'
    → persist_execution json m (some x) f ≡ persisted x (save json m x' x'.version)
unfolding persist_execution
persist-save json m x x' f e = rw (e, persist_execution) refl

persisted-store :
    (x : Execution) (r : Memory × Result ExecutionError Execution) → (persisted x r).0 ≡ r.0
persisted-store x (m, ok updated) = refl
persisted-store x (m, err e) = refl

persisted-ok :
    (x y : Execution) (r : Memory × Result ExecutionError Execution)
    → r.1 ≡ ok y
    → persisted x r ≡ (r.0, some y, none)
persisted-ok x y (m, r) e = ap (λ s. persisted x (m, s)) e

module _ (json : Json) (c : Codec json) (m : Memory) where
  -- Of two runs that persist changes of one version of an execution, at most one succeeds: once the
  -- change of the first is stored, and whatever is written then, the second's is refused with a
  -- conflict, its copy is kept, and the store is unchanged.
  pub persist_execution_race :
      (x x' y y' : Execution) (f g : Execution → Result RunError Execution) (payload other : Bytes)
      (ws : List Write)
      → f x ≡ ok x'
      → g y ≡ ok y'
      → json.marshal (stamped x' 0) ≡ some payload
      → json.marshal (stamped y' 0) ≡ some other
      → x'.id ≢ ""
      → y'.id ≡ x'.id
      → y'.version ≡ x'.version
      → IsCurrent m x'.id x'.version
      → let first = persist_execution json m (some x) f in
        let m' = writes json first.0 ws in
        (first ≡ (first.0, some (kept c x' (x'.version + 1)), none))
        × (persist_execution json m' (some y) g
            ≡ (m', some y, some (store_failed (conflict "save" y'.id))))
  persist_execution_race x x' y y' f g payload other ws ex ey mx my named same level now =
      let saved = save json m x' x'.version in
      let p : persist_execution json m (some x) f
          ≡ (saved.0, some (kept c x' (x'.version + 1)), none) =
        persist-save json m x x' f ex
        ∙ persisted-ok x (kept c x' (x'.version + 1)) saved
            ((save_outcome json c x' payload mx named m x'.version).0 now).0 in
      let late = save_once json c m x' y' x'.version payload other ws mx my named same now in
      let stale : save json (writes json saved.0 ws) y' y'.version
          ≡ (writes json saved.0 ws, err (conflict "save" y'.id)) =
        subst
          (λ v.
            save json (writes json saved.0 ws) y' v
            ≡ (writes json saved.0 ws, err (conflict "save" y'.id)))
          (sym level) late in
      subst
        (λ (q : Memory × Option Execution × Option RunError).
          (q ≡ (q.0, some (kept c x' (x'.version + 1)), none))
          × (persist_execution json (writes json q.0 ws) (some y) g
              ≡ (writes json q.0 ws, some y, some (store_failed (conflict "save" y'.id)))))
        (sym p)
        (refl, persist-save json (writes json saved.0 ws) y y' g ey ∙ ap (persisted y) stale)
