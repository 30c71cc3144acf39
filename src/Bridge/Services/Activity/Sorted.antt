-- ===== src/Bridge/Services/Activity/Sorted.antt =====
-- services.ts: the list of devices.
use erg.Prelude.{◌≤◌, ◌≡◌, refl, List, [], ◌∷◌, arith, map, leb, Bool-cases, inl, inr}
use mathlib.Core.List.{Perm}
use mathlib.Core.List.Perm as Permutation
use erg.Bridge.State.{DeviceRecord}
use erg.Bridge.Store.{State, list_devices as stored_devices}
use erg.Bridge.Services.Activity.{insert_by_creation, sort_by_creation, summary, list_devices}

-- No device was created before the one in front of it.
abbrev pub Ascending : List DeviceRecord → Type 0
Ascending [] = Unit
Ascending (d ∷ []) = Unit
Ascending (d ∷ (e ∷ ds)) = (d.created_at ≤ e.created_at) × Ascending (e ∷ ds)

insert-Perm : (d : DeviceRecord) (ds : List DeviceRecord) → Perm (d ∷ ds) (insert_by_creation d ds)
unfolding insert_by_creation
insert-Perm d [] = Permutation.refl (d ∷ [])
insert-Perm d (e ∷ ds) = elim (Bool-cases (leb d.created_at e.created_at)) [
  | inl first ↦ rw first (Permutation.refl (d ∷ e ∷ ds))
  | inr later ↦
      rw later (Permutation.trans (Permutation.swap e d ds) (Permutation.cons e (insert-Perm d ds)))
]

sort-Perm : (ds : List DeviceRecord) → Perm ds (sort_by_creation ds)
unfolding sort_by_creation
sort-Perm [] = Permutation.refl []
sort-Perm (d ∷ ds) =
    Permutation.trans (Permutation.cons d (sort-Perm ds)) (insert-Perm d (sort_by_creation ds))

insert-Ascending :
    (d : DeviceRecord) (ds : List DeviceRecord) → Ascending ds → Ascending (insert_by_creation d ds)
unfolding insert_by_creation
insert-Ascending d [] a = tt
insert-Ascending d (e ∷ []) a = ground arith
insert-Ascending d (e ∷ (f ∷ ds)) (le, a) = ground (arith, insert-Ascending d (f ∷ ds) a)

sort-Ascending : (ds : List DeviceRecord) → Ascending (sort_by_creation ds)
unfolding sort_by_creation
sort-Ascending [] = tt
sort-Ascending (d ∷ ds) = insert-Ascending d (sort_by_creation ds) (sort-Ascending ds)

-- The devices are listed by their summaries, each stored device once, the earliest first.
pub list_devices_lem :
    (s : State)
    → (ds : List DeviceRecord) × (list_devices s ≡ map summary ds)
      × Perm (stored_devices s) ds
      × Ascending ds
unfolding list_devices
list_devices_lem s =
    let ds = stored_devices s in (sort_by_creation ds, refl, sort-Perm ds, sort-Ascending ds)
