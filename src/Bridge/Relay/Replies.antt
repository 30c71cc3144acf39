-- ===== src/Bridge/Relay/Replies.antt =====
-- relay.ts: a prompt that was answered is not asked again.
use erg.Prelude.{ℕ, ◌≡◌, true, false, Option, some, Text, codes, arith, get-set_self, is_empty}
use erg.Bridge.State.{PromptResultRecord}
use erg.Bridge.Store.{get_prompt_result, upsert_prompt_result, prompt_result_key}
use erg.Bridge.Ids.{Bytes, create_id}
use erg.Bridge.Services.Activity.{mark_prompt_result}
use erg.Bridge.Relay.{RelayConnection, Frame, reply_final, Relay, PromptCall, send_json}
use erg.Bridge.Relay.Messages.{handle_prompt, prompt_answered, start_prompt, trimmed_or_empty}

send_json-store : (c : RelayConnection) (f : Frame) (s : Relay) → (send_json c f s).store ≡ s.store
unfolding send_json
send_json-store c f s = ground arith

-- The result that a prompt leaves behind.
abbrev result : ℕ → RelayConnection → PromptCall → Text → PromptResultRecord
result now c call reply = record {
  device_id = c.device_id;
  prompt_id = call.prompt_id;
  conversation_id = call.conversation_id;
  request_id = call.request_id;
  text = reply;
  created_at = now;
}

answered-result :
    (now : ℕ) (delta_bytes final_bytes : Bytes) (c : RelayConnection) (call : PromptCall)
    (reply : Text) (s : Relay)
    → get_prompt_result
        (prompt_answered now delta_bytes final_bytes c call reply s).store
        c.device_id
        call.prompt_id
      ≡ some (result now c call reply)
unfolding prompt_answered mark_prompt_result upsert_prompt_result get_prompt_result
    prompt_result_key send_json
answered-result now delta_bytes final_bytes c call reply s = ground (
  arith,
  get-set_self s.store.prompt_results (prompt_result_key c.device_id call.prompt_id)
      (result now c call reply),
)

-- Once a prompt with an id was answered, the next prompt with this id and some text, on any connection
-- of the same device that has said hello, is answered at once with the stored reply and its request
-- id: OpenClaw is not called, and nothing is stored.
pub prompt_again :
    (now : ℕ) (delta_bytes final_bytes bytes : Bytes) (c c' : RelayConnection) (call : PromptCall)
    (reply : Text) (id text conversation : Option Text) (s : Relay)
    → c'.device_id ≡ c.device_id
    → c'.ready_sent ≡ true
    → trimmed_or_empty id ≡ call.prompt_id
    → is_empty call.prompt_id ≡ false
    → is_empty (trimmed_or_empty text) ≡ false
    → let t = prompt_answered now delta_bytes final_bytes c call reply s in
      handle_prompt bytes c' id text conversation t
      ≡ send_json c'
          (reply_final (create_id (codes "evt") bytes) call.prompt_id reply call.request_id)
          t
unfolding handle_prompt start_prompt
prompt_again now delta_bytes final_bytes bytes c c' call reply id text conversation s same greeted
      named given asked =
    ground (
      arith,
      same,
      greeted,
      named,
      given,
      asked,
      answered-result now delta_bytes final_bytes c call reply s,
    )
