-- ===== src/Bridge/History/Replies/Kept.antt =====
-- services.ts: a stored result of a prompt is there until its retention is over.
use erg.Prelude.{
  ℕ, ◌≡◌, ◌≤◌, ◌<◌, ◌+◌, subst, refl, sym, Map, Bool-cases, some, List, [], ◌∷◌, Text, arith, get,
  set, get-set, Distinct, Distinct-set, All, inl, inr, text_eq,
}
use erg.Bridge.State.{PromptResultRecord}
use erg.Bridge.Store.{State, prompt_result_key, upsert_prompt_result}
use erg.Bridge.Store.Cleanup.{prompt_dead, cleanup_expired}
use erg.Bridge.Store.Cleanup.Sweeps.{Distinct-sweep, get-sweep}
use erg.Bridge.Services.{Env}
use erg.Bridge.Services.Activity.{mark_prompt_result, cleanup_expired_state}
use erg.Bridge.History.{
  Call, create_pairing, redeem, register, refresh, issue_ticket, consume_ticket, revoke,
  mark_prompt, record_event, touch, cleanup, step, run,
}
use erg.Bridge.History.Replies.{SparesReplies, step-Same}

-- A result from `start` or later under the key.
pub record IsKept (start : ℕ) (k : Text) (m : Map PromptResultRecord) : Type 0 where
  pub distinct : Distinct m
  pub result : PromptResultRecord
  pub found : get m k ≡ some result
  pub late : start ≤ result.created_at

-- A call within the retention of what was stored at `start`.
abbrev pub InRetention : Env → ℕ → ℕ × Call → Type 0
InRetention env start (now, c) =
    (start ≤ now) × (now < start + env.config.prompt_result_retention_ms)

module _ (env : Env) (start : ℕ) (k : Text) where
  set-IsKept :
      (m : Map PromptResultRecord) (j : Text) (r : PromptResultRecord)
      → start ≤ r.created_at
      → IsKept start k m
      → IsKept start k (set m j r)
  set-IsKept m j r late h = elim (Bool-cases (text_eq j k)) [
    | inl same ↦ record {
      distinct = Distinct-set m j r h.distinct;
      result = r;
      found = ground (arith, get-set m j r k, same);
      late = late;
    }
    | inr other ↦ record {
      distinct = Distinct-set m j r h.distinct;
      result = h.result;
      found = ground (arith, get-set m j r k, other, h.found);
      late = h.late;
    }
  ]

  cleanup-IsKept :
      (now : ℕ) (s : State)
      → now < start + env.config.prompt_result_retention_ms
      → IsKept start k s.prompt_results
      → IsKept start k (cleanup_expired_state env.config now s).prompt_results
  unfolding cleanup_expired_state cleanup_expired
  cleanup-IsKept now s soon h =
      let dead = prompt_dead now env.config.prompt_result_retention_ms in
      record {
        distinct = Distinct-sweep dead s.prompt_results h.distinct;
        result = h.result;
        found = ground (arith, get-sweep dead s.prompt_results k h.distinct, h.found, h.late, soon);
        late = h.late;
      }

  quiet-IsKept :
      (now : ℕ) (c : Call) (s : State)
      → SparesReplies c
      → IsKept start k s.prompt_results
      → IsKept start k (step env now c s).prompt_results
  quiet-IsKept now c s q h =
      subst (IsKept start k) (sym (step-Same s.prompt_results env now c s q refl)) h

  step-IsKept :
      (now : ℕ) (c : Call) (s : State)
      → InRetention env start (now, c)
      → IsKept start k s.prompt_results
      → IsKept start k (step env now c s).prompt_results
  unfolding step mark_prompt_result upsert_prompt_result
  step-IsKept now (mark_prompt input) s (late, soon) h =
      set-IsKept s.prompt_results (prompt_result_key input.device_id input.prompt_id) _ late h
  step-IsKept now cleanup s (late, soon) h = cleanup-IsKept now s soon h
  step-IsKept now (create_pairing a b i) s w h = quiet-IsKept now (create_pairing a b i) s tt h
  step-IsKept now (redeem a b i) s w h = quiet-IsKept now (redeem a b i) s tt h
  step-IsKept now (register d i) s w h = quiet-IsKept now (register d i) s tt h
  step-IsKept now (refresh d i) s w h = quiet-IsKept now (refresh d i) s tt h
  step-IsKept now (issue_ticket a b t i) s w h = quiet-IsKept now (issue_ticket a b t i) s tt h
  step-IsKept now (consume_ticket t) s w h = quiet-IsKept now (consume_ticket t) s tt h
  step-IsKept now (revoke b i) s w h = quiet-IsKept now (revoke b i) s tt h
  step-IsKept now (record_event b i) s w h = quiet-IsKept now (record_event b i) s tt h
  step-IsKept now (touch a b i) s w h = quiet-IsKept now (touch a b i) s tt h

  pub run-IsKept :
      (calls : List (ℕ × Call)) (s : State)
      → All (InRetention env start) calls
      → IsKept start k s.prompt_results
      → IsKept start k (run env calls s).prompt_results
  unfolding run
  run-IsKept [] s w h = h
  run-IsKept ((now, c) ∷ rest) s (w, ws) h =
      run-IsKept rest (step env now c s) ws (step-IsKept now c s w h)
