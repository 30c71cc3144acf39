-- ===== src/Bridge/RateLimit/Window.antt =====
-- rate-limit.ts: how many calls a window holds.
use erg.Prelude.{
  ℕ, ◌+◌, ◌≤◌, ◌<◌, ◌≡◌, refl, ◌∙◌, ap, Bool-cases, inl, inr, get-set_self, Bool, true, false, some,
  List, [], ◌∷◌, ◌++◌, Text, arith, get, set, get-set, get_or, filter, length, length-append,
  length-filter-le, leb, if◌then◌else◌, text_eq, text_eq_iff,
}
use erg.Bridge.RateLimit.{Buckets, is_active, wait, check_bucket, check}

-- The times at which calls with a key were allowed, in a series of calls of all keys.
pub allowed_times : ℕ → ℕ → Text → Buckets → List (Text × ℕ) → List ℕ
allowed_times limit window key buckets [] = []
allowed_times limit window key buckets ((k, now) ∷ calls) =
    let (next, outcome) = check buckets k limit window now in
    let rest = allowed_times limit window key next calls in
    if text_eq k key then (if outcome.allowed then now ∷ rest else rest) else rest

-- The clock never goes back.
abbrev pub InOrder : ℕ → List (Text × ℕ) → Type 0
InOrder last [] = Unit
InOrder last ((k, now) ∷ calls) = (last ≤ now) × InOrder now calls

-- The time of the last call.
abbrev pub last_time : ℕ → List (Text × ℕ) → ℕ
last_time last [] = last
last_time last ((k, now) ∷ calls) = last_time now calls

last_time-le :
    (last : ℕ) (calls : List (Text × ℕ)) → InOrder last calls → last ≤ last_time last calls
last_time-le last [] o = omega arith
last_time-le last ((k, now) ∷ calls) (le, o) = let h = last_time-le now calls o in omega arith

filter-append : (p : ℕ → Bool) (xs ys : List ℕ) → filter p (xs ++ ys) ≡ filter p xs ++ filter p ys
filter-append p [] ys = refl
filter-append p (x ∷ xs) ys = ground (arith, filter-append p xs ys)

-- What is active later is active now.
filter-filter :
    (window now later : ℕ) (xs : List ℕ)
    → now ≤ later
    → filter (is_active window later) (filter (is_active window now) xs)
      ≡ filter (is_active window later) xs
filter-filter window now later [] le = refl
filter-filter window now later (x ∷ xs) le = ground (arith, filter-filter window now later xs le)

append_assoc : (xs ys zs : List ℕ) → (xs ++ ys) ++ zs ≡ xs ++ ys ++ zs
append_assoc [] ys zs = refl
append_assoc (x ∷ xs) ys zs = ap (λ t. x ∷ t) (append_assoc xs ys zs)

count-append :
    (p : ℕ → Bool) (xs ys : List ℕ)
    → length (filter p (xs ++ ys)) ≡ length (filter p xs) + length (filter p ys)
count-append p xs ys = ap length (filter-append p xs ys) ∙ length-append (filter p xs) (filter p ys)

module _ (limit window : ℕ) (key : Text) where
  abbrev bucket : Buckets → List ℕ
  bucket buckets = get_or (get buckets key) []

  abbrev bucket_of : Text → Buckets → List ℕ
  bucket_of k buckets = get_or (get buckets k) []

  abbrev active_count : ℕ → List ℕ → ℕ
  active_count t ts = length (filter (is_active window t) ts)

  -- One call, of this key or of another.
  check_bucket-count :
      (ts rest : List ℕ) (now t : ℕ)
      → length ts ≤ limit
      → now ≤ t
      → let (next, outcome) = check_bucket ts limit window now in
        (length next ≤ limit)
        × (active_count t ts + active_count t (if outcome.allowed then now ∷ rest else rest)
            ≡ active_count t next + active_count t rest)
  unfolding check_bucket
  check_bucket-count ts rest now t le later =
      let active = filter (is_active window now) ts in
      ground (
        arith,
        length-filter-le (is_active window now) ts,
        ap length (filter-filter window now t ts later),
        length-append active (now ∷ []),
        count-append (is_active window t) active (now ∷ []),
      )

  window_bound :
      (buckets : Buckets) (calls : List (Text × ℕ)) (last t : ℕ)
      → length (bucket buckets) ≤ limit
      → InOrder last calls
      → last_time last calls ≤ t
      → active_count t (bucket buckets)
          + active_count t (allowed_times limit window key buckets calls)
        ≤ limit
  unfolding allowed_times check
  window_bound buckets [] last t le o late =
      let h = length-filter-le (is_active window t) (bucket buckets) in omega arith
  window_bound buckets ((k, now) ∷ calls) last t le (ordered, o) late =
      elim (Bool-cases (text_eq k key)) [
        | inl here ↦
            let (next, outcome) = check_bucket (bucket buckets) limit window now in
            let rest = allowed_times limit window key (set buckets key next) calls in
            let soon : now ≤ t = let h = last_time-le now calls o in omega arith in
            let (le', count) = check_bucket-count (bucket buckets) rest now t le soon in
            let same = (text_eq_iff k key).0 here in
            let own : bucket (set buckets key next) ≡ next =
              ground (arith, get-set_self buckets key next) in
            let h = window_bound (set buckets key next) calls now t (rw own le') o late in
            ground (arith, same, count, own, h)
        | inr there ↦
            let next = (check_bucket (bucket_of k buckets) limit window now).0 in
            let own : bucket (set buckets k next) ≡ bucket buckets =
              ground (arith, there, get-set buckets k next key) in
            let h = window_bound (set buckets k next) calls now t (rw own le) o late in
            ground (arith, there, own, h)
      ]

  -- Of a series of calls in the order of time, at most `limit` calls with one key are allowed inside
  -- any window: those that are still active at a time not before the last call are no more.
  pub allowed-window :
      (calls : List (Text × ℕ)) (t : ℕ)
      → InOrder 0 calls
      → last_time 0 calls ≤ t
      → length (filter (is_active window t) (allowed_times limit window key [] calls)) ≤ limit
  unfolding get
  allowed-window calls t o late =
      let h = window_bound [] calls 0 t (omega arith) o late in omega (arith, h)

-- After the wait the oldest call is no longer active.
wait-frees :
    (active : List ℕ) (window now w : ℕ)
    → wait window now active ≡ some w
    → length (filter (is_active window (now + w)) active) < length active
wait-frees [] window now w e = absurd (ground arith)
wait-frees (t ∷ ts) window now w e =
    ground (arith, length-filter-le (is_active window (now + w)) ts)

-- A call that is refused with a wait is right about it: with no other call of its key in between,
-- the next one after the wait is allowed.
pub retry-allowed :
    (ts : List ℕ) (limit window now w : ℕ)
    → length ts ≤ limit
    → (check_bucket ts limit window now).1 ≡ record { allowed = false; retry_after_ms = some w }
    → (check_bucket (check_bucket ts limit window now).0 limit window (now + w)).1.allowed ≡ true
unfolding check_bucket
retry-allowed ts limit window now w le refused =
    let active = filter (is_active window now) ts in
    let full : (leb limit (length active) ≡ true) × (wait window now active ≡ some w) =
      ground arith in
    let fewer = wait-frees active window now w full.1 in
    let within = length-filter-le (is_active window now) ts in ground (arith, full, fewer, within)
