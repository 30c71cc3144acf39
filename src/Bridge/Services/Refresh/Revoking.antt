-- ===== src/Bridge/Services/Refresh/Revoking.antt =====
-- services.ts: the loop that revokes the tokens of a family.
use erg.Prelude.{
  ℕ, ◌≡◌, refl, sym, subst, inl, inr, Bool-cases, Option-cases, true, Option, none, some, List, [],
  ◌∷◌, Text, arith, text_eq_iff, text_eq, is_some, if◌then◌else◌, get, get-set, get-set_self, All,
}
use erg.Bridge.State.{RefreshTokenRecord}
use erg.Bridge.Store.{
  State, update_refresh_token, list_refresh_tokens_by_family_id, collect, contains, family_set,
  present,
}
use erg.Bridge.Store.Coherent.{IsCoherent}
use erg.Bridge.Services.Refresh.{revoke_tokens}

-- The token with this hash is stored, and revoked.
abbrev pub IsRevoked : State → Text → Type 0
IsRevoked s h =
    (r : RefreshTokenRecord) × (get s.refresh_tokens h ≡ some r) × (is_some r.revoked_at ≡ true)

-- One round of the loop.
abbrev round : ℕ → RefreshTokenRecord → State → State
round now t s =
    if is_some t.revoked_at then s else update_refresh_token (record t { revoked_at = some now }) s

-- What the loop leaves alone.
pub record SameRest (s s' : State) : Type 0 where
  pub sessions : s'.pairing_sessions ≡ s.pairing_sessions
  pub bootstraps : s'.bootstrap_tokens ≡ s.bootstrap_tokens
  pub devices : s'.devices ≡ s.devices
  pub families : s'.refresh_families ≡ s.refresh_families
  pub tickets : s'.websocket_tickets ≡ s.websocket_tickets
  pub revocations : s'.revocations ≡ s.revocations
  pub prompts : s'.prompt_results ≡ s.prompt_results

round-SameRest : (now : ℕ) (t : RefreshTokenRecord) (s : State) → SameRest s (round now t s)
unfolding update_refresh_token
round-SameRest now t s = ground arith

pub revoke_tokens-SameRest :
    (now : ℕ) (ts : List RefreshTokenRecord) (s : State) → SameRest s (revoke_tokens now ts s)
unfolding revoke_tokens
revoke_tokens-SameRest now [] s = ground arith
revoke_tokens-SameRest now (t ∷ ts) s =
    ground (arith, round-SameRest now t s, revoke_tokens-SameRest now ts (round now t s))

round-IsRevoked :
    (now : ℕ) (t : RefreshTokenRecord) (s : State) (h : Text)
    → IsRevoked s h
    → IsRevoked (round now t s) h
unfolding update_refresh_token
round-IsRevoked now t s h (r, at, gone) = (
  if is_some t.revoked_at
      then r
      else if text_eq t.token_hash h
      then record t { revoked_at = some now }
      else r,
  ground (arith, get-set s.refresh_tokens t.token_hash (record t { revoked_at = some now }) h),
  ground arith,
)

-- A token that was revoked before is revoked in the table.
abbrev Known : State → RefreshTokenRecord → Type 0
Known s t = is_some t.revoked_at ≡ true → IsRevoked s t.token_hash

round-revokes :
    (now : ℕ) (t : RefreshTokenRecord) (s : State)
    → Known s t
    → IsRevoked (round now t s) t.token_hash
unfolding update_refresh_token
round-revokes now t s k = elim (Bool-cases (is_some t.revoked_at)) [
  | inl before ↦ rw before (k before)
  | inr live ↦ rw live (
    record t { revoked_at = some now },
    get-set_self s.refresh_tokens t.token_hash (record t { revoked_at = some now }),
    refl,
  )
]

revoke_tokens-keeps :
    (now : ℕ) (ts : List RefreshTokenRecord) (s : State) (h : Text)
    → IsRevoked s h
    → IsRevoked (revoke_tokens now ts s) h
unfolding revoke_tokens
revoke_tokens-keeps now [] s h v = v
revoke_tokens-keeps now (t ∷ ts) s h v =
    revoke_tokens-keeps now ts (round now t s) h (round-IsRevoked now t s h v)

Known-round :
    (now : ℕ) (t : RefreshTokenRecord) (s : State) (ts : List RefreshTokenRecord)
    → All (Known s) ts
    → All (Known (round now t s)) ts
Known-round now t s [] k = tt
Known-round now t s (u ∷ ts) (k, ks) =
    ((λ e. round-IsRevoked now t s u.token_hash (k e)), Known-round now t s ts ks)

-- The loop revokes every token that it is given.
revoke_tokens-All :
    (now : ℕ) (ts : List RefreshTokenRecord) (s : State)
    → All (Known s) ts
    → All (λ t. IsRevoked (revoke_tokens now ts s) t.token_hash) ts
unfolding revoke_tokens
revoke_tokens-All now [] s k = tt
revoke_tokens-All now (t ∷ ts) s (k, ks) = (
  revoke_tokens-keeps now ts (round now t s) t.token_hash (round-revokes now t s k),
  revoke_tokens-All now ts (round now t s) (Known-round now t s ts ks),
)

module _ (Q : RefreshTokenRecord → Type 0) where
  present-head :
      (o : Option RefreshTokenRecord) (r : RefreshTokenRecord) (rs : List RefreshTokenRecord)
      → o ≡ some r
      → All Q (present o rs)
      → Q r
  present-head none r rs e all = cc
  present-head (some t) r rs e (q, all) = let same : t ≡ r = cc in subst Q same q

  present-tail :
      (o : Option RefreshTokenRecord) (rs : List RefreshTokenRecord)
      → All Q (present o rs)
      → All Q rs
  present-tail none rs all = all
  present-tail (some t) rs (q, all) = all

module _ (s : State) (c : IsCoherent s) where
  collect-Known : (js : List Text) → All (Known s) (collect s js)
  unfolding collect
  collect-Known [] = tt
  collect-Known (j ∷ js) = elim (Option-cases (get s.refresh_tokens j)) [
    | inl missing ↦ rw (missing, present) (collect-Known js)
    | inr (r, found) ↦
        rw (found, present)
          (
            (λ e. (
              r,
              subst (λ k. get s.refresh_tokens k ≡ some r) (sym (c.tokens j r found)) found,
              e,
            )),
            collect-Known js,
          )
  ]

  -- What holds of the collected tokens holds of each member that is stored.
  collect-All :
      (P : Text → Type 0) (js : List Text) (h : Text) (r : RefreshTokenRecord)
      → All (λ t. P t.token_hash) (collect s js)
      → contains js h ≡ true
      → get s.refresh_tokens h ≡ some r
      → P h
  unfolding collect contains
  collect-All P [] h r all inside found = cc
  collect-All P (j ∷ js) h r all inside found = elim (Bool-cases (text_eq j h)) [
    | inl here ↦
        let at : get s.refresh_tokens j ≡ some r = rw ((text_eq_iff j h).0 here) found in
        subst P (c.tokens h r found) (present-head (λ t. P t.token_hash) _ r _ at all)
    | inr there ↦
        collect-All P js h r (present-tail (λ t. P t.token_hash) (get s.refresh_tokens j) _ all)
          (rw there at inside) found
  ]

  -- Revoking the listed tokens of a family revokes every token of the family that is stored.
  pub family-IsRevoked :
      (now : ℕ) (family : Text) (h : Text) (r : RefreshTokenRecord)
      → get s.refresh_tokens h ≡ some r
      → r.refresh_family_id ≡ family
      → IsRevoked (revoke_tokens now (list_refresh_tokens_by_family_id s family) s) h
  unfolding list_refresh_tokens_by_family_id
  family-IsRevoked now family h r found of_family =
      let js = family_set (get s.refresh_tokens_by_family_id family) in
      collect-All (IsRevoked (revoke_tokens now (collect s js) s)) js h r
        (revoke_tokens-All now (collect s js) s (collect-Known js))
        (subst (λ f. contains (family_set (get s.refresh_tokens_by_family_id f)) h ≡ true) of_family
          (c.members h r found))
        found
