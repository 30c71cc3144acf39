-- ===== src/Prelude/Maps.antt =====
-- ECMAScript `Map`s with string keys as association lists in the order of insertion.
use mathlib.Core.Path.{◌≡◌, refl}
use mathlib.Core.Bool.{false}
use mathlib.Core.Option.{Option, none, some}
use mathlib.Core.List.{List, [], ◌∷◌}
use native.Mathlib.Omega.{arith}
use erg.Prelude.Tests.{if◌then◌else◌}
use erg.Prelude.Texts.{Text, text_eq, text_eq_iff, text_eq_refl}

abbrev pub Map {ℓ} : Type ℓ → Type ℓ
Map V = List (Text × V)

module _ {ℓ} {V : Type ℓ} where
  unfoldable pub get : Map V → Text → Option V
  get [] k = none
  get ((j, v) ∷ m) k = if text_eq j k then some v else get m k

  -- A new key goes to the end, and a known one keeps its place.
  unfoldable pub set : Map V → Text → V → Map V
  set [] k v = (k, v) ∷ []
  set ((j, w) ∷ m) k v = if text_eq j k then (j, v) ∷ m else (j, w) ∷ set m k v

  -- `delete`.
  unfoldable pub remove : Map V → Text → Map V
  remove [] k = []
  remove ((j, w) ∷ m) k = if text_eq j k then m else (j, w) ∷ remove m k

  pub get-set :
      (m : Map V) (k : Text) (v : V) (j : Text)
      → get (set m k v) j ≡ (if text_eq k j then some v else get m j)
  unfolding get set
  get-set [] k v j = refl
  get-set ((i, w) ∷ m) k v j =
      ground (arith, text_eq_iff i k, text_eq_iff k j, text_eq_iff i j, get-set m k v j)

  pub get-set_self : (m : Map V) (k : Text) (v : V) → get (set m k v) k ≡ some v
  get-set_self m k v = ground (arith, get-set m k v k, text_eq_refl k)

module _ {V : Type 0} where
  -- No key stands twice, as in every `Map`.
  abbrev pub Distinct : Map V → Type 0
  Distinct [] = Unit
  Distinct ((k, v) ∷ m) = (get m k ≡ none) × Distinct m

  get-set_ne_none :
      (m : Map V) (k j : Text) (v : V)
      → text_eq k j ≡ false
      → get m j ≡ none
      → get (set m k v) j ≡ none
  get-set_ne_none m k j v h e = ground (arith, get-set m k v j)

  pub Distinct-set : (m : Map V) (k : Text) (v : V) → Distinct m → Distinct (set m k v)
  unfolding set get
  Distinct-set [] k v d = (refl, tt)
  Distinct-set ((j, w) ∷ m) k v (fresh, d) =
      ground
        (arith, fresh, d, Distinct-set m k v d, get-set m k v j, text_eq_iff j k, text_eq_iff k j)
