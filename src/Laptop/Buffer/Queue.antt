-- ===== src/Laptop/Buffer/Queue.antt =====
-- event-buffer.ts: the queue keeps the newest events, in their order.
use erg.Prelude.{
  ℕ, suc, ◌+◌, ◌-◌, ◌≤◌, ◌<◌, ◌≡◌, refl, sym, subst, ap, ◌∙◌, Bool-cases, inl, inr, All-append,
  List, [], ◌∷◌, ◌++◌, Text, arith, length, length-append, length-drop, drop, ltb, All,
}
use erg.Laptop.Buffer.{HardwareBridgeEvent, Queue, shrink, enqueue, acknowledge}

shrink_lem : (max : ℕ) (q : Queue) → shrink max q ≡ drop (length q - max) q
unfolding shrink
shrink_lem max [] = ground arith
shrink_lem max (e ∷ q) = elim (Bool-cases (ltb max (length (e ∷ q)))) [
  | inl over ↦
      let n : length (e ∷ q) - max ≡ suc (length q - max) = ground arith in
      rw (over, n) (shrink_lem max q)
  | inr fits ↦ let n : length (e ∷ q) - max ≡ 0 = ground arith in rw (fits, n) refl
]

-- Adding an event keeps the newest events that fit, the new one among them, in their order, and drops
-- the oldest; the queue never holds more than its maximum.
pub enqueue_lem :
    (max : ℕ) (e : HardwareBridgeEvent) (q : Queue)
    → (enqueue max e q ≡ drop (length q + 1 - max) (q ++ e ∷ [])) × (length (enqueue max e q) ≤ max)
unfolding enqueue
enqueue_lem max e q =
    let grown = q ++ e ∷ [] in
    let n : length grown ≡ length q + 1 = omega (arith, length-append q (e ∷ [])) in
    (
      shrink_lem max grown ∙ ap (λ k. drop (k - max) grown) n,
      omega (arith, ap length (shrink_lem max grown), length-drop (length grown - max) grown),
    )

-- An acknowledgement makes the queue no longer.
pub acknowledge-length : (ids : List Text) (q : Queue) → length (acknowledge ids q) ≤ length q
unfolding acknowledge
acknowledge-length ids [] = omega arith
acknowledge-length ids (e ∷ q) = ground (arith, acknowledge-length ids q)

module _ (P : HardwareBridgeEvent → Type 0) where
  All-drop : (n : ℕ) (q : Queue) → All P q → All P (drop n q)
  All-drop ℕ.zero q all = all
  All-drop (suc n) [] all = tt
  All-drop (suc n) (e ∷ q) (p, all) = All-drop n q all

  pub All-enqueue :
      (max : ℕ) (e : HardwareBridgeEvent) (q : Queue) → P e → All P q → All P (enqueue max e q)
  All-enqueue max e q p all =
      subst (All P) (sym (enqueue_lem max e q).0)
        (All-drop (length q + 1 - max) (q ++ e ∷ []) (All-append P q (e ∷ []) all (p, tt)))

  pub All-acknowledge : (ids : List Text) (q : Queue) → All P q → All P (acknowledge ids q)
  unfolding acknowledge
  All-acknowledge ids [] all = tt
  All-acknowledge ids (e ∷ q) (p, all) = ground (arith, p, All-acknowledge ids q all)

-- The sequence numbers go up from the oldest event to the newest.
abbrev pub Ascending : Queue → Type 0
Ascending [] = Unit
Ascending (e ∷ q) = All (λ f. e.sequence < f.sequence) q × Ascending q

drop-Ascending : (n : ℕ) (q : Queue) → Ascending q → Ascending (drop n q)
drop-Ascending ℕ.zero q a = a
drop-Ascending (suc n) [] a = tt
drop-Ascending (suc n) (e ∷ q) (first, a) = drop-Ascending n q a

append-Ascending :
    (q : Queue) (e : HardwareBridgeEvent)
    → Ascending q
    → All (λ f. f.sequence < e.sequence) q
    → Ascending (q ++ e ∷ [])
append-Ascending [] e a below = (tt, tt)
append-Ascending (f ∷ q) e (first, a) (lt, below) = (
  All-append (λ g. f.sequence < g.sequence) q (e ∷ []) first (lt, tt),
  append-Ascending q e a below,
)

pub enqueue-Ascending :
    (max : ℕ) (e : HardwareBridgeEvent) (q : Queue)
    → Ascending q
    → All (λ f. f.sequence < e.sequence) q
    → Ascending (enqueue max e q)
enqueue-Ascending max e q a below =
    subst Ascending (sym (enqueue_lem max e q).0)
      (drop-Ascending (length q + 1 - max) (q ++ e ∷ []) (append-Ascending q e a below))

pub acknowledge-Ascending :
    (ids : List Text) (q : Queue) → Ascending q → Ascending (acknowledge ids q)
unfolding acknowledge
acknowledge-Ascending ids [] a = tt
acknowledge-Ascending ids (e ∷ q) (first, a) = ground (
  arith,
  All-acknowledge (λ f. e.sequence < f.sequence) ids q first,
  acknowledge-Ascending ids q a,
)
