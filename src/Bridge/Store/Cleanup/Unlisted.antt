-- ===== src/Bridge/Store/Cleanup/Unlisted.antt =====
-- memory-store.ts: `cleanupExpired` takes a token that has run out off the set of its family.
use erg.Prelude.{
  ℕ, ◌≡◌, refl, inl, inr, true, false, some, List, [], ◌∷◌, Text, Map, Bool, arith, text_eq,
  text_eq_iff, text_eq_refl, get, get-set, Option-cases, Bool-cases,
}
use erg.Bridge.State.{RefreshTokenRecord}
use erg.Bridge.Store.{discard, contains, family_set}
use erg.Bridge.Store.Cleanup.{refresh_dead, unlist_token, unlist_dead}

-- Whether the set of a family has a hash.
abbrev pub listed : Map (List Text) → Text → Text → Bool
listed families f h = contains (family_set (get families f)) h

discard-absent : (js : List Text) (k : Text) → contains (discard js k) k ≡ false
unfolding contains discard
discard-absent [] k = refl
discard-absent (j ∷ js) k = ground (arith, discard-absent js k)

discard-still_absent :
    (js : List Text) (k h : Text) → contains js h ≡ false → contains (discard js k) h ≡ false
unfolding contains discard
discard-still_absent [] k h e = refl
discard-still_absent (j ∷ js) k h e = ground (arith, discard-still_absent js k h)

unlist_token-still_absent :
    (now : ℕ) (k : Text) (r : RefreshTokenRecord) (families : Map (List Text)) (f h : Text)
    → listed families f h ≡ false
    → listed (unlist_token now k r families) f h ≡ false
unfolding unlist_token
unlist_token-still_absent now k r families f h e = elim (Bool-cases (refresh_dead now r)) [
  | inr live ↦ rw live e
  | inl dead ↦ elim (Option-cases (get families r.refresh_family_id)) [
    | inl missing ↦ rw (dead, missing) e
    | inr (js, found) ↦ rw dead (
        ground (
          arith,
          found,
          e,
          get-set families r.refresh_family_id (discard js k) f,
          text_eq_iff r.refresh_family_id f,
          discard-still_absent js k h,
        ))
  ]
]

unlist_token-removes :
    (now : ℕ) (h : Text) (r : RefreshTokenRecord) (families : Map (List Text))
    → refresh_dead now r ≡ true
    → listed (unlist_token now h r families) r.refresh_family_id h ≡ false
unfolding unlist_token
unlist_token-removes now h r families dead =
    elim (Option-cases (get families r.refresh_family_id)) [
      | inl missing ↦ rw (dead, missing) (unfold contains in rw missing refl)
      | inr (js, found) ↦ rw dead (
          ground (
            arith,
            found,
            get-set families r.refresh_family_id (discard js h) r.refresh_family_id,
            text_eq_refl r.refresh_family_id,
            discard-absent js h,
          ))
    ]

unlist_dead-still_absent :
    (now : ℕ) (m : Map RefreshTokenRecord) (families : Map (List Text)) (f h : Text)
    → listed families f h ≡ false
    → listed (unlist_dead now m families) f h ≡ false
unfolding unlist_dead
unlist_dead-still_absent now [] families f h e = e
unlist_dead-still_absent now ((k, r) ∷ m) families f h e =
    unlist_dead-still_absent now m (unlist_token now k r families) f h
      (unlist_token-still_absent now k r families f h e)

pub unlist_dead-removes :
    (now : ℕ) (m : Map RefreshTokenRecord) (families : Map (List Text)) (h : Text)
    (r : RefreshTokenRecord)
    → get m h ≡ some r
    → refresh_dead now r ≡ true
    → listed (unlist_dead now m families) r.refresh_family_id h ≡ false
unfolding get unlist_dead
unlist_dead-removes now [] families h r e dead = absurd (cc)
unlist_dead-removes now ((k, v) ∷ m) families h r e dead = elim (Bool-cases (text_eq k h)) [
  | inr there ↦ unlist_dead-removes now m (unlist_token now k v families) h r (rw there at e) dead
  | inl here ↦
      let same : v ≡ r = ground (arith, here, e) in
      let at : k ≡ h = (text_eq_iff k h).0 here in
      unlist_dead-still_absent now m (unlist_token now k v families) r.refresh_family_id h
        (rw (at, same) (unlist_token-removes now h r families dead))
]
