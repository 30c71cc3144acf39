-- ===== src/Bridge/Services/Activity/Prompts.antt =====
-- services.ts and memory-store.ts: a prompt result is read back under its device and its prompt.
use erg.Prelude.{
  ℕ, ◌≡◌, ◌≢◌, ◌&&◌, some, [], ◌∷◌, ◌++◌, Text, codes, arith, get-set, text_eq, if◌then◌else◌, All,
}
use erg.Bridge.State.{PromptResultRecord}
use erg.Bridge.Store.{State, prompt_result_key, upsert_prompt_result, get_prompt_result}
use erg.Bridge.Services.Activity.{PromptInput, mark_prompt_result}

-- An id of a device, which `createId` makes of a prefix and hex digits, has no colon.
abbrev pub HasNoColon : Text → Type 0
HasNoColon id = All (λ c. c ≢ b':') id

joined-eq :
    (d d' p p' : Text)
    → HasNoColon d
    → HasNoColon d'
    → text_eq (d ++ codes ":" ++ p) (d' ++ codes ":" ++ p') ≡ (text_eq d d' && text_eq p p')
unfolding text_eq
joined-eq [] [] p p' n n' = ground arith
joined-eq [] (c ∷ d') p p' n (nc, n') = ground arith
joined-eq (c ∷ d) [] p p' (nc, n) n' = ground arith
joined-eq (c ∷ d) (c' ∷ d') p p' (nc, n) (nc', n') = ground (arith, joined-eq d d' p p' n n')

prompt_result_key-eq :
    (d d' p p' : Text)
    → HasNoColon d
    → HasNoColon d'
    → text_eq (prompt_result_key d p) (prompt_result_key d' p') ≡ (text_eq d d' && text_eq p p')
unfolding prompt_result_key
prompt_result_key-eq d d' p p' n n' = joined-eq d d' p p' n n'

-- The record that a call stores.
abbrev pub stored : ℕ → PromptInput → PromptResultRecord
stored now input = record {
  device_id = input.device_id;
  prompt_id = input.prompt_id;
  conversation_id = input.conversation_id;
  request_id = input.request_id;
  text = input.text;
  created_at = now;
}

-- After a result was stored, it is what is read for its device and its prompt, and the result of
-- every other pair is what it was, although both are joined to one key: device ids have no colon.
pub mark_prompt_result-get :
    (now : ℕ) (input : PromptInput) (s : State) (device_id prompt_id : Text)
    → HasNoColon input.device_id
    → HasNoColon device_id
    → get_prompt_result (mark_prompt_result now input s) device_id prompt_id ≡ (
        if text_eq input.device_id device_id && text_eq input.prompt_id prompt_id
        then some (stored now input)
        else get_prompt_result s device_id prompt_id)
unfolding mark_prompt_result upsert_prompt_result get_prompt_result
mark_prompt_result-get now input s device_id prompt_id n n' =
    let k = prompt_result_key input.device_id input.prompt_id in
    let k' = prompt_result_key device_id prompt_id in
    ground (
      arith,
      get-set s.prompt_results k (stored now input) k',
      prompt_result_key-eq input.device_id device_id input.prompt_id prompt_id n n',
    )
