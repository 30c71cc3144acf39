-- ===== src/Bridge/Services/Transactions.antt =====
-- services.ts and the stores: what a transaction does with the outcome of its callback.
use erg.Prelude.{◌≡◌, arith}
use erg.Bridge.Store.{State}
use erg.Bridge.Services.{ApiError, Run, ok, err, StoreDriver, with_transaction}

-- A transaction that throws and has written nothing leaves either store as it was.
pub with_transaction-err :
    {A : Type 0} (d : StoreDriver) (m : State → Run A) (s : State) (e : ApiError)
    → m s ≡ err e s
    → with_transaction d m s ≡ err e s
unfolding with_transaction
with_transaction-err StoreDriver.memory m s e h = h
with_transaction-err StoreDriver.postgres m s e h = ground arith

-- One that returns has committed what the callback left.
pub with_transaction-ok :
    {A : Type 0} (d : StoreDriver) (m : State → Run A) (s s' : State) (a : A)
    → with_transaction d m s ≡ ok a s'
    → m s ≡ ok a s'
unfolding with_transaction
with_transaction-ok StoreDriver.memory m s s' a h = h
with_transaction-ok StoreDriver.postgres m s s' a h = ground arith

pub with_transaction_of_ok :
    {A : Type 0} (d : StoreDriver) (m : State → Run A) (s s' : State) (a : A)
    → m s ≡ ok a s'
    → with_transaction d m s ≡ ok a s'
unfolding with_transaction
with_transaction_of_ok StoreDriver.memory m s s' a h = h
with_transaction_of_ok StoreDriver.postgres m s s' a h = ground arith

-- The memory store keeps the writes of a callback that throws, and PostgreSQL undoes them.
module _ {A : Type 0} (d : StoreDriver) (m : State → Run A) (s s' : State) (e : ApiError) where
  pub memory-err : d ≡ StoreDriver.memory → m s ≡ err e s' → with_transaction d m s ≡ err e s'
  unfolding with_transaction
  memory-err h k = ground arith

  pub postgres-err : d ≡ StoreDriver.postgres → m s ≡ err e s' → with_transaction d m s ≡ err e s
  unfolding with_transaction
  postgres-err h k = ground arith
