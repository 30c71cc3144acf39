-- ===== src/Bridge/OpenClaw/Data.antt =====
-- bridge/src/openclaw.ts: what a request comes to, what a reply means, and what a call reports.
use erg.Prelude.{
  ℕ, zero, suc, ◌+◌, ◌-◌, Bool, true, false, ◌&&◌, Option, none, some, List, [], ◌∷◌, ◌++◌, Text,
  codes, text_eq, trim, take, length, leb, ltb, if◌then◌else◌,
}

pub data FailureKind : Type 0 where
  busy upstream_failed timeout auth http_error invalid_response network_error : FailureKind

pub data FinalOutcome : Type 0 where
  success : FinalOutcome
  failure : FailureKind → FinalOutcome

-- A part of a content that is an array: a string, an object with a text, or anything else.
pub data Part : Type 0 where
  string : Text → Part
  object : Text → Part
  other : Part

-- `data.choices?.[0]?.message?.content`
pub data Content : Type 0 where
  missing : Content
  string : Text → Content
  parts : List Part → Content

pub record ChatResponse : Type 0 where
  pub model : Option Text
  pub content : Content

-- What `response.json()` comes to: an error, `null`, or another value.
pub data Json : Type 0 where
  unreadable : Json
  null : Json
  value : ChatResponse → Json

-- `text` is what `response.text()` returns, if it does not fail.
pub record Response : Type 0 where
  pub status : ℕ
  pub status_text : Text
  pub text : Option Text
  pub json : Json

-- What `fetchWithTimeout` comes to: an `AbortError`, another error with its message, or an answer.
pub data Fetched : Type 0 where
  aborted : Fetched
  failed : Text → Fetched
  answered : Response → Fetched

-- `response.ok`
abbrev pub is_ok : Response → Bool
is_ok response = leb 200 response.status && leb response.status 299

abbrev pub transient_reply_retry_delays_ms : List ℕ
transient_reply_retry_delays_ms = 400 ∷ 1200 ∷ []

abbrev pub max_attempts : ℕ
max_attempts = length transient_reply_retry_delays_ms + 1

abbrev pub max_logged_reply_length : ℕ
max_logged_reply_length = 160

abbrev pub delay_at : List ℕ → ℕ → ℕ
delay_at [] i = 0
delay_at (d ∷ ds) zero = d
delay_at (d ∷ ds) (suc i) = delay_at ds i

unfoldable pub truncate : Text → ℕ → Text
truncate s max_length =
    if ltb max_length (length s) then take (max_length - 1) s ++ codes "..." else s

abbrev pub part_text : Part → Text
part_text (Part.string s) = s
part_text (Part.object s) = s
part_text Part.other = []

-- `map` and `join("")`
abbrev pub join_parts : List Part → Text
join_parts [] = []
join_parts (p ∷ ps) = part_text p ++ join_parts ps

unfoldable pub extract_reply : Content → Text
unfolding trim
extract_reply Content.missing = []
extract_reply (Content.string s) = trim s
extract_reply (Content.parts ps) = trim (join_parts ps)

abbrev pub busy_sentence : Text
busy_sentence = codes "Even AI is busy with another request. Please retry shortly."

abbrev pub upstream_failed_sentence : Text
upstream_failed_sentence = codes "Even AI request failed upstream. Please try again."

abbrev pub authentication_sentence : Text
authentication_sentence = codes "Authentication failed."

pub record Classification : Type 0 where
  pub retryable : Bool
  pub failure_kind : Option FailureKind
  pub final_outcome : FinalOutcome

unfoldable pub classify_reply : Text → Classification
unfolding text_eq
classify_reply reply =
    if text_eq reply busy_sentence
    then record { retryable = true; failure_kind = some busy; final_outcome = failure busy }
    else if text_eq reply upstream_failed_sentence
    then record {
      retryable = true;
      failure_kind = some upstream_failed;
      final_outcome = failure upstream_failed;
    }
    else if text_eq reply authentication_sentence
    then record { retryable = false; failure_kind = some auth; final_outcome = failure auth }
    else record { retryable = false; failure_kind = none; final_outcome = success }

unfoldable pub message_for_failure_kind : FailureKind → Text
message_for_failure_kind busy = codes "OpenClaw is busy; retry shortly"
message_for_failure_kind upstream_failed = codes "OpenClaw upstream failed; retry shortly"
message_for_failure_kind timeout = codes "OpenClaw timed out"
message_for_failure_kind auth = codes "OpenClaw authentication failed"
message_for_failure_kind http_error = codes "OpenClaw upstream returned an error"
message_for_failure_kind invalid_response = codes "OpenClaw returned an invalid reply"
message_for_failure_kind network_error = codes "OpenClaw network error"

-- The text of an error. `returned` is "OpenClaw returned <status>", `upstream_returned` is "OpenClaw upstream returned <status>: <text>", and
-- `engine_message` that of a `TypeError`.
pub data Message : Type 0 where
  plain : Text → Message
  engine_message : Message
  returned : ℕ → Message
  upstream_returned : ℕ → Text → Message

pub record ChatCompletionResult : Type 0 where
  pub reply : Text
  pub model : Text
  pub session_key : Text

-- What a call returns or throws: an `OpenClawRequestError`, the `TypeError` of a body that is `null`,
-- or the error after the loop.
pub data Outcome : Type 0 where
  replied : ChatCompletionResult → Outcome
  request_error : Message → FailureKind → Outcome
  type_error : Outcome
  exhausted : Outcome

-- The entries `openclaw_upstream_attempt` and `openclaw_upstream_result`.
pub record AttemptLogEntry : Type 0 where
  pub attempt : ℕ
  pub http_status : Option ℕ
  pub ok : Bool
  pub upstream_model : Option Text
  pub reply_text : Option Text
  pub retryable : Bool
  pub failure_kind : Option FailureKind

pub record ResultLogEntry : Type 0 where
  pub attempts_used : ℕ
  pub final_outcome : FinalOutcome
  pub final_reply_text : Option Text
  pub final_http_status : Option ℕ

pub data Effect : Type 0 where
  requested : ℕ → Effect
  slept : ℕ → Effect
  logged_attempt : AttemptLogEntry → Effect
  logged_result : ResultLogEntry → Effect

-- How an attempt goes on: with the end of the call, or with another attempt after a wait.
pub data Next : Type 0 where
  finish : Outcome → Next
  again : ℕ → Next
