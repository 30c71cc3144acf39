-- ===== src/Bridge/Services/Keeps.antt =====
-- services.ts: when a method keeps a property of the store, whether it returns or throws.
use erg.Prelude.{◌⊎◌, inl, inr, ◌≡◌, refl}
use erg.Bridge.Store.{State}
use erg.Bridge.Services.{
  ApiError, Run, ok, err, M, store_of, StoreDriver, memory, postgres, with_transaction,
}

pub Run-cases :
    {A : Type 0} (r : Run A)
    → ((a : A) × (s : State) × (r ≡ ok a s)) ⊎ ((e : ApiError) × (s : State) × (r ≡ err e s))
Run-cases (ok a s) = inl (a, s, refl)
Run-cases (err e s) = inr (e, s, refl)

module _ (P : State → Type 0) where
  abbrev pub Keeps : {A : Type 0} → M A → Type 0
  Keeps m = (s : State) → P s → P (store_of (m s))

  rolled_back :
      {A : Type 0} (r : Run A) (s : State)
      → P s
      → P (store_of r)
      → P (store_of (elim r as (λ _. Run A) [ ok a t ↦ ok a t | err e t ↦ err e s ]))
  rolled_back (ok a t) s p q = q
  rolled_back (err e t) s p q = p

  pub with_transaction-Keeps :
      {A : Type 0} (d : StoreDriver) (m : M A) → Keeps m → Keeps (with_transaction d m)
  unfolding with_transaction
  with_transaction-Keeps memory m k s p = k s p
  with_transaction-Keeps postgres m k s p = rolled_back (m s) s p (k s p)
