-- ===== src/Bridge/OpenClaw/Verdict.antt =====
-- openclaw.ts: what an answer means for a call, described on its own.
use erg.Prelude.{
  codes, ℕ, Bool, true, false, not, [], Text, text_eq, is_empty, or_else, get_or, if◌then◌else◌,
}
use erg.Bridge.OpenClaw.{
  Fetched, aborted, failed, answered, Json, unreadable, null, value, is_ok, extract_reply,
  busy_sentence, upstream_failed_sentence, authentication_sentence, Outcome, replied, truncate,
  message_for_failure_kind, request_error, type_error, plain, upstream_returned, busy, auth,
  timeout, network_error, http_error, invalid_response, upstream_failed,
}

-- Whether an answer is one of the two sentences that OpenClaw sends when it is worth asking again.
abbrev pub is_transient_reply : Text → Bool
is_transient_reply reply =
    if text_eq reply busy_sentence then true else text_eq reply upstream_failed_sentence

abbrev pub is_transient_json : Json → Bool
is_transient_json unreadable = false
is_transient_json null = false
is_transient_json (value v) = is_transient_reply (extract_reply v.content)

unfoldable pub is_transient : Fetched → Bool
is_transient (answered r) = if not (is_ok r) then false else is_transient_json r.json
is_transient _ = false

-- What an answer means for the caller when no other attempt is made.
abbrev pub reply_verdict : Text → Text → Text → Outcome
reply_verdict reply model session_key =
    if is_empty reply
    then request_error (plain (message_for_failure_kind invalid_response)) invalid_response
    else if text_eq reply busy_sentence
    then request_error (plain (message_for_failure_kind busy)) busy
    else if text_eq reply upstream_failed_sentence
    then request_error (plain (message_for_failure_kind upstream_failed)) upstream_failed
    else if text_eq reply authentication_sentence
    then request_error (plain (message_for_failure_kind auth)) auth
    else replied (record { reply = reply; model = model; session_key = session_key })

abbrev pub json_verdict : Text → Text → Json → Outcome
json_verdict model session_key unreadable =
    request_error (plain (message_for_failure_kind invalid_response)) invalid_response
json_verdict model session_key null = type_error
json_verdict model session_key (value v) =
    reply_verdict (extract_reply v.content) (or_else (get_or v.model []) model) session_key

unfoldable pub verdict : Text → Text → Fetched → Outcome
verdict model session_key aborted = request_error (plain (message_for_failure_kind timeout)) timeout
verdict model session_key (failed message) =
    request_error (plain (message_for_failure_kind network_error)) network_error
verdict model session_key (answered r) =
    if not (is_ok r)
    then request_error
        (upstream_returned r.status (
          truncate (or_else (or_else (get_or r.text []) r.status_text) (codes "Unknown error"))
            300))
        http_error
    else json_verdict model session_key r.json

-- The number of the request that decides a call.
unfoldable pub deciding : (ℕ → Fetched) → ℕ
unfolding is_transient
deciding fetch =
    if not (is_transient (fetch 0)) then 0 else if not (is_transient (fetch 1)) then 1 else 2
