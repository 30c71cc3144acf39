-- ===== src/Bridge/RateLimit.antt =====
-- bridge/src/rate-limit.ts. `timestamp > nowMs - windowMs` is written without a negative number.
pub mod Window
use erg.Prelude.{
  ℕ, ◌+◌, ◌-◌, Bool, true, false, Option, none, some, List, [], ◌∷◌, ◌++◌, Text, Map, get, set,
  get_or, filter, length, ltb, leb, if◌then◌else◌,
}

abbrev pub Buckets : Type 0
Buckets = Map (List ℕ)

-- A wait that is not a number, which a limit of 0 gives, is `none`.
pub record Outcome : Type 0 where
  pub allowed : Bool
  pub retry_after_ms : Option ℕ

abbrev pub is_active : ℕ → ℕ → ℕ → Bool
is_active window_ms now timestamp = ltb now (timestamp + window_ms)

-- `windowMs - (nowMs - active[0])`, and 0 if that is negative.
abbrev pub wait : ℕ → ℕ → List ℕ → Option ℕ
wait window_ms now [] = none
wait window_ms now (t ∷ ts) = some (window_ms + t - now)

-- The bucket after a call, and whether the call is allowed.
unfoldable pub check_bucket : List ℕ → ℕ → ℕ → ℕ → List ℕ × Outcome
check_bucket timestamps limit window_ms now =
    let active = filter (is_active window_ms now) timestamps in
    if leb limit (length active)
    then (active, record { allowed = false; retry_after_ms = wait window_ms now active })
    else (active ++ now ∷ [], record { allowed = true; retry_after_ms = some 0 })

unfoldable pub check : Buckets → Text → ℕ → ℕ → ℕ → Buckets × Outcome
unfolding check_bucket
check buckets key limit window_ms now =
    let (bucket, outcome) = check_bucket (get_or (get buckets key) []) limit window_ms now in
    (set buckets key bucket, outcome)
