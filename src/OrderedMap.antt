-- ===== src/OrderedMap.antt =====
-- `std::map` as the list of its entries in the order of their keys, which is the order in which the
-- program iterates.
pub mod Order
pub mod Laws
pub mod Numbers
use bolt_stream.Base.{ℕ, Bool, Option, none, some, List, [], ◌∷◌, map, if◌then◌else◌, ◌≡◌, ◌⊎◌}

-- A key type: `eq` is `==`, `lt` is the map's comparison, a strict total order.
pub record Key {ℓ} (K : Type ℓ) : Type ℓ where
  pub eq : K → K → Bool
  pub lt : K → K → Bool

module _ {ℓ κ} {K : Type ℓ} ⦃k : Key K⦄ {V : Type κ} where
  -- `m.find(key)`
  unfoldable pub find : K → List (K × V) → Option V
  find key [] = none
  find key ((other, v) ∷ m) = if k.eq other key then some v else find key m

  -- `m[key] = value`
  unfoldable pub insert : K → V → List (K × V) → List (K × V)
  insert key v [] = (key, v) ∷ []
  insert key v ((other, w) ∷ m) =
      if k.eq other key
      then (key, v) ∷ m
      else if k.lt key other
      then (key, v) ∷ (other, w) ∷ m
      else (other, w) ∷ insert key v m

  -- `m.erase(key)`
  unfoldable pub erase : K → List (K × V) → List (K × V)
  erase key [] = []
  erase key ((other, w) ∷ m) = if k.eq other key then m else (other, w) ∷ erase key m

  abbrev pub keys : List (K × V) → List K
  keys = map λ entry. entry.0

  abbrev pub values : List (K × V) → List V
  values = map λ entry. entry.1
