-- ===== src/Bridge/Ingest/Dedup.antt =====
-- hardware-bridge-ingest.ts: the loop over the events of a batch.
pub mod Once
pub mod Told
use erg.Prelude.{
  ℕ, ◌+◌, ◌<◌, ◌≡◌, refl, sym, subst, ◌∙◌, ◌⊎◌, Bool, true, false, ◌||◌, Option, none, some, List,
  [], ◌∷◌, Text, arith, get, set, get-set, get-set_self, length, text_eq, text_eq_iff, Distinct,
  Distinct-set, All, is_empty, trim, leb, ltb, if◌then◌else◌, Option-cases, Bool-cases, inl, inr,
}
use erg.Bridge.Store.{contains}
use erg.Bridge.Store.Cleanup.{sweep}
use erg.Bridge.Store.Cleanup.Sweeps.{alive, get-sweep, Distinct-sweep}
use erg.Bridge.Ingest.{
  HardwareBridgeEvent, Batch, Response, Config, Seen, Reason, Verdict, rejected, duplicate,
  accepted, judge, remember, answer, nothing, id_of, ingest_events, expired, cleanup_expired,
  ingest, validate_hardware_bridge_event,
}

abbrev pub answers : Response → ℕ
answers r = length r.accepted_event_ids + length r.duplicate_event_ids + length r.rejected_events

answers-answer :
    (v : Verdict) (e : Option HardwareBridgeEvent) (r : Response)
    → answers (answer v e r) ≡ answers r + 1
answers-answer (rejected reason) e r = omega arith
answers-answer duplicate e r = omega arith
answers-answer accepted e r = omega arith

pub ingest_events-answers :
    (until : ℕ) (bridge_id : Text) (seen : Seen) (events : List (Option HardwareBridgeEvent))
    → answers (ingest_events until bridge_id seen events).1 ≡ length events
unfolding ingest_events
ingest_events-answers until bridge_id seen [] = omega arith
ingest_events-answers until bridge_id seen (e ∷ events) =
    let v = judge bridge_id seen e in
    let next = remember v (id_of e) until seen in
    omega (
      arith,
      ingest_events-answers until bridge_id next events,
      answers-answer v e (ingest_events until bridge_id next events).1,
    )

-- An id that is remembered is never judged to be new.
judge-known :
    (bridge_id : Text) (seen : Seen) (e : Option HardwareBridgeEvent) (id : Text) (exp : ℕ)
    → get seen id ≡ some exp
    → id_of e ≡ id
    → (judge bridge_id seen e ≡ duplicate)
      ⊎ ((reason : Reason) × (judge bridge_id seen e ≡ rejected reason))
unfolding judge
judge-known bridge_id seen e id exp known same =
    elim (Option-cases (validate_hardware_bridge_event e bridge_id)) [
      | inl valid ↦ inl (ground (arith, valid, known, same))
      | inr (reason, bad) ↦ inr (reason, ground (arith, bad))
    ]

-- A verdict of acceptance is on an id that is not remembered.
judge-accepted :
    (bridge_id : Text) (seen : Seen) (e : Option HardwareBridgeEvent)
    → judge bridge_id seen e ≡ accepted
    → get seen (id_of e) ≡ none
unfolding judge
judge-accepted bridge_id seen e h =
    elim (Option-cases (validate_hardware_bridge_event e bridge_id)) [
      | inl valid ↦ elim (Option-cases (get seen (id_of e))) [
        | inl new ↦ new
        | inr (exp, known) ↦ absurd (ground (arith, valid, known))
      ]
      | inr (reason, bad) ↦ absurd (ground (arith, bad))
    ]

remember-known :
    (v : Verdict) (bridge_id : Text) (seen : Seen) (e : Option HardwareBridgeEvent) (until : ℕ)
    (id : Text) (exp : ℕ)
    → judge bridge_id seen e ≡ v
    → get seen id ≡ some exp
    → get (remember v (id_of e) until seen) id ≡ some exp
remember-known (rejected reason) bridge_id seen e until id exp h known = known
remember-known duplicate bridge_id seen e until id exp h known = known
remember-known accepted bridge_id seen e until id exp h known = ground (
  arith,
  judge-accepted bridge_id seen e h,
  known,
  get-set seen (id_of e) until id,
  text_eq_iff (id_of e) id,
)

answer-known :
    (v : Verdict) (bridge_id : Text) (seen : Seen) (e : Option HardwareBridgeEvent) (r : Response)
    (id : Text) (exp : ℕ)
    → judge bridge_id seen e ≡ v
    → get seen id ≡ some exp
    → contains r.accepted_event_ids id ≡ false
    → contains (answer v e r).accepted_event_ids id ≡ false
unfolding contains
answer-known (rejected reason) bridge_id seen e r id exp h known rest = rest
answer-known duplicate bridge_id seen e r id exp h known rest = rest
answer-known accepted bridge_id seen e r id exp h known rest =
    ground (arith, judge-accepted bridge_id seen e h, known, text_eq_iff (id_of e) id, rest)

-- An id that is remembered stays so, with its time, and is not accepted.
pub ingest_events-known :
    (until : ℕ) (bridge_id : Text) (events : List (Option HardwareBridgeEvent)) (seen : Seen)
    (id : Text) (exp : ℕ)
    → get seen id ≡ some exp
    → let (after, r) = ingest_events until bridge_id seen events in
      (get after id ≡ some exp) × (contains r.accepted_event_ids id ≡ false)
unfolding ingest_events contains
ingest_events-known until bridge_id [] seen id exp known = (known, refl)
ingest_events-known until bridge_id (e ∷ events) seen id exp known =
    let v = judge bridge_id seen e in
    let next = remember v (id_of e) until seen in
    let (kept, rest) =
      ingest_events-known until bridge_id events next id exp
        (remember-known v bridge_id seen e until id exp refl known) in
    (
      kept,
      answer-known v bridge_id seen e (ingest_events until bridge_id next events).1 id exp refl
          known rest,
    )

-- An id that is accepted is remembered.
pub ingest_events-accepted :
    (until : ℕ) (bridge_id : Text) (events : List (Option HardwareBridgeEvent)) (seen : Seen)
    (id : Text)
    → let (after, r) = ingest_events until bridge_id seen events in
      contains r.accepted_event_ids id ≡ true → get after id ≡ some until
unfolding ingest_events contains
ingest_events-accepted until bridge_id [] seen id inside = absurd (ground arith)
ingest_events-accepted until bridge_id (e ∷ events) seen id inside =
    now_or_later (judge bridge_id seen e)
      (λ next. ingest_events-accepted until bridge_id events next id) inside
  where
    now_or_later :
        (v : Verdict)
        → ((next : Seen)
            → contains (ingest_events until bridge_id next events).1.accepted_event_ids id ≡ true
            → get (ingest_events until bridge_id next events).0 id ≡ some until)
        → let (after, r) = ingest_events until bridge_id (remember v (id_of e) until seen) events in
          contains (answer v e r).accepted_event_ids id ≡ true → get after id ≡ some until
    now_or_later (rejected reason) later inside = later seen inside
    now_or_later duplicate later inside = later seen inside
    now_or_later accepted later inside =
        let next = set seen (id_of e) until in
        elim (Bool-cases (text_eq (id_of e) id)) [
          | inl here ↦
              (ingest_events-known until bridge_id events next id until
                (ground (arith, here, get-set seen (id_of e) until id))).0
          | inr there ↦ later next (ground (arith, there, inside))
        ]

pub ingest_events-Distinct :
    (until : ℕ) (bridge_id : Text) (events : List (Option HardwareBridgeEvent)) (seen : Seen)
    → Distinct seen
    → Distinct (ingest_events until bridge_id seen events).0
unfolding ingest_events
ingest_events-Distinct until bridge_id [] seen d = d
ingest_events-Distinct until bridge_id (e ∷ events) seen d =
    ingest_events-Distinct until bridge_id events _ (remembered (judge bridge_id seen e))
  where
    remembered : (v : Verdict) → Distinct (remember v (id_of e) until seen)
    remembered (rejected reason) = d
    remembered duplicate = d
    remembered accepted = Distinct-set seen (id_of e) until d
