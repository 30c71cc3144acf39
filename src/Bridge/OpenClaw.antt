-- ===== src/Bridge/OpenClaw.antt =====
-- bridge/src/openclaw.ts: the client of the OpenClaw server. `fetch` is an argument: what each request
-- of a call, counted from 0, comes to. A call gives its outcome and the effects that it had, in order;
-- the log entries are without their times and without the ids of the call.
mod Data
pub mod Verdict
pub mod Attempts
unfoldable pub use Data.*
use erg.Prelude.{
  ℕ, zero, suc, ◌+◌, ◌-◌, Bool, true, false, not, ◌&&◌, Option, none, some, List, [], ◌∷◌, ◌++◌,
  Text, codes, is_empty, or_else, text_eq, trim, take, filter, length, get_or, leb, ltb, ◌==◌,
  if◌then◌else◌,
}
use erg.Bridge.SessionKey.{is_segment_char}

-- The two entries of a failed attempt, which are alike in each of the source's branches.
abbrev pub failed_entries : ℕ → Option ℕ → Option Text → FailureKind → List Effect
failed_entries attempt http_status upstream_model kind =
    logged_attempt (record {
      attempt = attempt;
      http_status = http_status;
      ok = false;
      upstream_model = upstream_model;
      reply_text = none;
      retryable = false;
      failure_kind = some kind;
    })
    ∷ logged_result (record {
      attempts_used = attempt;
      final_outcome = failure kind;
      final_reply_text = none;
      final_http_status = http_status;
    })
    ∷ []

abbrev pub failing : FailureKind → Next
failing kind = finish (request_error (plain (message_for_failure_kind kind)) kind)

abbrev pub result_entry : ℕ → ℕ → Classification → Text → Effect
result_entry attempt status c reply_text = logged_result (record {
  attempts_used = attempt;
  final_outcome = c.final_outcome;
  final_reply_text = some reply_text;
  final_http_status = some status;
})

-- What a classified reply leads to, after its attempt was logged.
unfoldable pub conclude :
    ℕ → ℕ → ChatCompletionResult → Classification → Option FailureKind → List Effect × Next
conclude attempt status result c none = (
  result_entry attempt status c (truncate result.reply max_logged_reply_length) ∷ [],
  finish (replied result),
)
conclude attempt status result c (some kind) =
    if c.retryable && ltb attempt max_attempts
    then ([], again (delay_at transient_reply_retry_delays_ms (attempt - 1)))
    else (
      result_entry attempt status c (truncate result.reply max_logged_reply_length) ∷ [],
      failing kind,
    )

-- The part on a reply that is not empty.
unfoldable pub handle_reply : ℕ → ℕ → ChatCompletionResult → List Effect × Next
unfolding classify_reply conclude truncate
handle_reply attempt status result =
    let c = classify_reply result.reply in
    let (effects, next) = conclude attempt status result c c.failure_kind in
    (
      logged_attempt (record {
        attempt = attempt;
        http_status = some status;
        ok = true;
        upstream_model = some result.model;
        reply_text = some (truncate result.reply max_logged_reply_length);
        retryable = c.retryable;
        failure_kind = c.failure_kind;
      })
          ∷ effects,
      next,
    )

unfoldable pub handle_json : Text → Text → ℕ → ℕ → Json → List Effect × Next
unfolding extract_reply handle_reply
handle_json model session_key attempt status unreadable =
    (failed_entries attempt (some status) none invalid_response, failing invalid_response)
handle_json model session_key attempt status null = ([], finish type_error)
handle_json model session_key attempt status (value response) =
    let reply = extract_reply response.content in
    let upstream_model = or_else (get_or response.model []) model in
    if is_empty reply
    then (
      failed_entries attempt (some status) (some upstream_model) invalid_response,
      failing invalid_response,
    )
    else handle_reply attempt status
        (record { reply = reply; model = upstream_model; session_key = session_key })

-- The body of the loop, once its request has come to an end.
unfoldable pub handle_fetched : Text → Text → ℕ → Fetched → List Effect × Next
unfolding handle_json truncate
handle_fetched model session_key attempt aborted =
    (failed_entries attempt none none timeout, failing timeout)
handle_fetched model session_key attempt (failed message) =
    (failed_entries attempt none none network_error, failing network_error)
handle_fetched model session_key attempt (answered response) =
    if not (is_ok response)
    then (
      failed_entries attempt (some response.status) none http_error,
      finish (
          request_error
            (upstream_returned response.status (
              truncate
                (or_else (or_else (get_or response.text []) response.status_text)
                  (codes "Unknown error"))
                300))
            http_error),
    )
    else handle_json model session_key attempt response.status response.json

-- One round of the loop, with the rounds that would follow it.
unfoldable pub round : ℕ → List Effect → Next → List Effect × Outcome → List Effect × Outcome
round index effects (finish outcome) rest = (requested index ∷ effects, outcome)
round index effects (again delay) rest = (requested index ∷ effects ++ slept delay ∷ rest.0, rest.1)

-- The loop, from an attempt on, with the number of attempts that are left.
unfoldable pub attempts : Text → Text → (ℕ → Fetched) → ℕ → ℕ → List Effect × Outcome
unfolding handle_fetched round
attempts model session_key fetch index zero = ([], exhausted)
attempts model session_key fetch index (suc left) =
    let now = handle_fetched model session_key (index + 1) (fetch index) in
    round index now.0 now.1 (attempts model session_key fetch (index + 1) left)

unfoldable pub create_chat_completion : Text → Text → (ℕ → Fetched) → List Effect × Outcome
unfolding attempts
create_chat_completion model session_key fetch = attempts model session_key fetch 0 max_attempts

pub record OpenClawHealth : Type 0 where
  pub ok : Bool
  pub status : Option ℕ
  pub model_count : Option ℕ
  pub error : Option Message

-- The body of the answer to a health check: `null`, whose `data` cannot be read, or a value with the
-- length of its `data`, if that is an array. A body that cannot be read counts as one without.
pub data ModelsBody : Type 0 where
  null_body : ModelsBody
  models : Option ℕ → ModelsBody

abbrev not_ok : Option ℕ → Message → OpenClawHealth
not_ok status error = record { ok = false; status = status; model_count = none; error = some error }

-- The message of an error is cut; that of the `TypeError` is the engine's own.
unfoldable pub check_health : Fetched → ModelsBody → OpenClawHealth
unfolding truncate
check_health aborted body = not_ok none (plain (codes "OpenClaw timed out"))
check_health (failed message) body = not_ok none (plain (truncate message 300))
check_health (answered response) body =
    if response.status == 404
    then record { ok = true; status = some 404; model_count = none; error = none }
    else if not (is_ok response)
    then not_ok (some response.status) (returned response.status)
    else elim body [
      | null_body ↦ not_ok none engine_message
      | models count ↦ record {
        ok = true;
        status = some response.status;
        model_count = count;
        error = none;
      }
    ]

unfoldable pub normalize_install_id : Text → Text
unfolding trim is_segment_char
normalize_install_id install_id = take 128 (filter is_segment_char (trim install_id))

unfoldable pub build_g2_session_key : Text → Text
unfolding normalize_install_id
build_g2_session_key install_id = codes "g2:" ++ normalize_install_id install_id
