-- ===== src/Bridge/OpenClaw/Attempts.antt =====
-- openclaw.ts: how many requests a call makes, and which answer it takes.
use erg.Prelude.{
  ℕ, suc, ◌+◌, ◌-◌, ◌≡◌, ◌≢◌, refl, true, false, ◌&&◌, Option, none, some, List, [], ◌∷◌, ◌++◌,
  Text, text_eq, is_empty, or_else, get_or, take, ap, ◌∙◌, arith, Bool-cases, inl, inr, ltb,
}
use erg.Bridge.OpenClaw.{
  Fetched, aborted, failed, answered, Json, unreadable, null, value, is_ok, extract_reply,
  busy_sentence, upstream_failed_sentence, Effect, requested, slept, logged_attempt, logged_result,
  finish, again, classify_reply, conclude, handle_reply, FailureKind, delay_at,
  transient_reply_retry_delays_ms, handle_json, handle_fetched, attempts, create_chat_completion,
  ChatCompletionResult, ChatResponse, Classification, round,
}
use erg.Bridge.OpenClaw.Verdict.{
  is_transient_reply, is_transient_json, is_transient, reply_verdict, json_verdict, verdict,
  deciding,
}

-- The requests and the waits among the effects of a call.
pub requests : List Effect → List ℕ
requests [] = []
requests (e ∷ es) = let rest = requests es in elim e [ requested i ↦ i ∷ rest | _ ↦ rest ]

pub waits : List Effect → List ℕ
waits [] = []
waits (e ∷ es) = let rest = waits es in elim e [ slept d ↦ d ∷ rest | _ ↦ rest ]

requests-append : (xs ys : List Effect) → requests (xs ++ ys) ≡ requests xs ++ requests ys
unfolding requests
requests-append [] ys = refl
requests-append (requested i ∷ xs) ys = ap (◌∷◌ i) (requests-append xs ys)
requests-append (slept d ∷ xs) ys = requests-append xs ys
requests-append (logged_attempt e ∷ xs) ys = requests-append xs ys
requests-append (logged_result e ∷ xs) ys = requests-append xs ys

waits-append : (xs ys : List Effect) → waits (xs ++ ys) ≡ waits xs ++ waits ys
unfolding waits
waits-append [] ys = refl
waits-append (requested i ∷ xs) ys = waits-append xs ys
waits-append (slept d ∷ xs) ys = ap (◌∷◌ d) (waits-append xs ys)
waits-append (logged_attempt e ∷ xs) ys = waits-append xs ys
waits-append (logged_result e ∷ xs) ys = waits-append xs ys

-- The attempts' own effects are log entries.
abbrev IsSilent : List Effect → Type 0
IsSilent es = (requests es ≡ []) × (waits es ≡ [])

conclude-IsSilent :
    (n status : ℕ) (r : ChatCompletionResult) (c : Classification) (k : Option FailureKind)
    → IsSilent (conclude n status r c k).0
unfolding conclude requests waits
conclude-IsSilent n status r c none = (refl, refl)
conclude-IsSilent n status r c (some kind) = elim (Bool-cases (c.retryable && ltb n 3)) [
  | inl e ↦ rw e (refl, refl)
  | inr e ↦ rw e (refl, refl)
]

reply-IsSilent : (n status : ℕ) (r : ChatCompletionResult) → IsSilent (handle_reply n status r).0
unfolding handle_reply requests waits
reply-IsSilent n status r =
    conclude-IsSilent n status r (classify_reply r.reply) (classify_reply r.reply).failure_kind

transient-not-empty : (s : Text) → is_empty s ≡ true → is_transient_reply s ≢ true
unfolding text_eq
transient-not-empty [] e h = cc
transient-not-empty (c ∷ s) e h = cc

-- One attempt on a reply.
module _ (n status : ℕ) (r : ChatCompletionResult) where
  reply-again :
      is_transient_reply r.reply ≡ true
      → ltb n 3 ≡ true
      → (handle_reply n status r).1 ≡ again (delay_at transient_reply_retry_delays_ms (n - 1))
  unfolding handle_reply conclude classify_reply
  reply-again h k = elim (Bool-cases (text_eq r.reply busy_sentence)) [
    | inl e ↦ rw (e, k)
    | inr e ↦ elim (Bool-cases (text_eq r.reply upstream_failed_sentence)) [
      | inl f ↦ rw (e, f, k)
      | inr f ↦ absurd (ground arith)
    ]
  ]

  reply-final :
      is_transient_reply r.reply && ltb n 3 ≡ false
      → is_empty r.reply ≡ false
      → (handle_reply n status r).1 ≡ finish (reply_verdict r.reply r.model r.session_key)
  unfolding handle_reply conclude classify_reply
  reply-final h k = elim (Bool-cases (text_eq r.reply busy_sentence)) [
    | inl e ↦ ground arith
    | inr e ↦ ground arith
  ]

-- One attempt, whatever its request came to.
module _ (model session_key : Text) where
  abbrev result : ChatResponse → ChatCompletionResult
  result v = record {
    reply = extract_reply v.content;
    model = or_else (get_or v.model []) model;
    session_key = session_key;
  }

  json-IsSilent : (n status : ℕ) (j : Json) → IsSilent (handle_json model session_key n status j).0
  unfolding handle_json requests waits
  json-IsSilent n status unreadable = (refl, refl)
  json-IsSilent n status null = (refl, refl)
  json-IsSilent n status (value v) = elim (Bool-cases (is_empty (extract_reply v.content))) [
    | inl e ↦ rw e (refl, refl)
    | inr e ↦ rw e (reply-IsSilent n status (result v))
  ]

  fetched-IsSilent : (n : ℕ) (f : Fetched) → IsSilent (handle_fetched model session_key n f).0
  unfolding handle_fetched requests waits
  fetched-IsSilent n aborted = (refl, refl)
  fetched-IsSilent n (failed message) = (refl, refl)
  fetched-IsSilent n (answered r) = elim (Bool-cases (is_ok r)) [
    | inl e ↦ rw e (json-IsSilent n r.status r.json)
    | inr e ↦ rw e (refl, refl)
  ]

  json-again :
      (n status : ℕ) (j : Json)
      → is_transient_json j ≡ true
      → ltb n 3 ≡ true
      → (handle_json model session_key n status j).1
        ≡ again (delay_at transient_reply_retry_delays_ms (n - 1))
  unfolding handle_json
  json-again n status unreadable h k = cc
  json-again n status null h k = cc
  json-again n status (value v) h k = elim (Bool-cases (is_empty (extract_reply v.content))) [
    | inl e ↦ absurd (transient-not-empty (extract_reply v.content) e h)
    | inr e ↦ rw e (reply-again n status (result v) h k)
  ]

  json-final :
      (n status : ℕ) (j : Json)
      → is_transient_json j && ltb n 3 ≡ false
      → (handle_json model session_key n status j).1 ≡ finish (json_verdict model session_key j)
  unfolding handle_json
  json-final n status unreadable h = refl
  json-final n status null h = refl
  json-final n status (value v) h = elim (Bool-cases (is_empty (extract_reply v.content))) [
    | inl e ↦ rw e
    | inr e ↦ rw e (reply-final n status (result v) h e ∙ ap finish (rw e))
  ]

  fetched-again :
      (n : ℕ) (f : Fetched)
      → is_transient f ≡ true
      → ltb n 3 ≡ true
      → (handle_fetched model session_key n f).1
        ≡ again (delay_at transient_reply_retry_delays_ms (n - 1))
  unfolding handle_fetched is_transient
  fetched-again n aborted h k = cc
  fetched-again n (failed message) h k = cc
  fetched-again n (answered r) h k = elim (Bool-cases (is_ok r)) [
    | inl e ↦ rw e (json-again n r.status r.json (rw e at h) k)
    | inr e ↦ cc (rw e at h)
  ]

  fetched-final :
      (n : ℕ) (f : Fetched)
      → is_transient f && ltb n 3 ≡ false
      → (handle_fetched model session_key n f).1 ≡ finish (verdict model session_key f)
  unfolding handle_fetched is_transient verdict
  fetched-final n aborted h = refl
  fetched-final n (failed message) h = refl
  fetched-final n (answered r) h = elim (Bool-cases (is_ok r)) [
    | inl e ↦ rw e (json-final n r.status r.json (rw e at h))
    | inr e ↦ rw e
  ]

  module _ (fetch : ℕ → Fetched) (i left : ℕ) where
    attempts-stop :
        is_transient (fetch i) && ltb (i + 1) 3 ≡ false
        → let (effects, outcome) = attempts model session_key fetch i (suc left) in
          (outcome ≡ verdict model session_key (fetch i))
          × (requests effects ≡ i ∷ [])
          × (waits effects ≡ [])
    unfolding attempts requests waits
    attempts-stop h =
        let silent = fetched-IsSilent (i + 1) (fetch i) in
        rw (fetched-final (i + 1) (fetch i) h)
          (unfold round in (refl, ap (◌∷◌ i) silent.0, silent.1))

    attempts-go :
        is_transient (fetch i) ≡ true
        → ltb (i + 1) 3 ≡ true
        → let (effects, outcome) = attempts model session_key fetch i (suc left) in
          let (more, later) = attempts model session_key fetch (i + 1) left in
          (outcome ≡ later)
          × (requests effects ≡ i ∷ requests more)
          × (waits effects ≡ delay_at transient_reply_retry_delays_ms (i + 1 - 1) ∷ waits more)
    unfolding attempts requests waits
    attempts-go h k =
        let silent = fetched-IsSilent (i + 1) (fetch i) in
        let d = delay_at transient_reply_retry_delays_ms (i + 1 - 1) in
        let later = (attempts model session_key fetch (i + 1) left).0 in
        let own = (handle_fetched model session_key (i + 1) (fetch i)).0 in
        rw (fetched-again (i + 1) (fetch i) h k) (
          unfold round in
          (
            refl,
            ap (◌∷◌ i) (requests-append own (slept d ∷ later) ∙ rw silent.0),
            waits-append own (slept d ∷ later) ∙ rw silent.1,
          ))

  -- A call makes at most three requests: it goes on to the next as long as the answer is one of the
  -- two sentences by which OpenClaw asks for patience, waiting 400 and then 1200 milliseconds, and
  -- what it returns or throws is the verdict on the answer at which it stops.
  pub create_chat_completion_lem :
      (fetch : ℕ → Fetched)
      → let (effects, outcome) = create_chat_completion model session_key fetch in
        (outcome ≡ verdict model session_key (fetch (deciding fetch)))
        × (requests effects ≡ take (deciding fetch + 1) (0 ∷ 1 ∷ 2 ∷ []))
        × (waits effects ≡ take (deciding fetch) (400 ∷ 1200 ∷ []))
  unfolding create_chat_completion deciding
  create_chat_completion_lem fetch = elim (Bool-cases (is_transient (fetch 0))) [
    | inl e ↦ elim (Bool-cases (is_transient (fetch 1))) [
      | inl f ↦
          let first = attempts-go fetch 0 2 e refl in
          let second = attempts-go fetch 1 1 f refl in
          let third = attempts-stop fetch 2 0 (ground arith) in
          rw (e, f)
            (
              first.0 ∙ second.0 ∙ third.0,
              first.1 ∙ ap (◌∷◌ 0) (second.1 ∙ ap (◌∷◌ 1) third.1),
              first.2 ∙ ap (◌∷◌ 400) (second.2 ∙ ap (◌∷◌ 1200) third.2),
            )
      | inr f ↦
          let first = attempts-go fetch 0 2 e refl in
          let second = attempts-stop fetch 1 1 (rw f) in
          rw (e, f)
            (first.0 ∙ second.0, first.1 ∙ ap (◌∷◌ 0) second.1, first.2 ∙ ap (◌∷◌ 400) second.2)
    ]
    | inr e ↦ rw e (attempts-stop fetch 0 2 (rw e))
  ]
