-- ===== src/Map.antt =====
-- `std::map<std::string, V>` as the list of its entries in the order of its iterators. A list that
-- IsSorted stands for a map.
pub mod Canonical
pub mod Laws
use find_friend_bot.Base.{
  ◌≡◌, true, Option, none, some, List, [], ◌∷◌, Text, text_eq, text_lt, if◌then◌else◌,
}

module _ {V : Type 0} where
  -- `it = m.find(k)`, and what `it->second` holds.
  unfoldable pub find : Text → List (Text × V) → Option V
  find k [] = none
  find k ((j, w) ∷ m) = if text_eq j k then some w else find k m

  -- `m.insert(make_pair(k, v))`: an entry that is there stays as it is.
  unfoldable pub insert : Text → V → List (Text × V) → List (Text × V)
  insert k v [] = (k, v) ∷ []
  insert k v ((j, w) ∷ m) =
      if text_eq j k
      then (j, w) ∷ m
      else if text_lt k j
      then (k, v) ∷ (j, w) ∷ m
      else (j, w) ∷ insert k v m

  -- `m[k] = v`: an entry that is there gets the value.
  unfoldable pub assign : Text → V → List (Text × V) → List (Text × V)
  assign k v [] = (k, v) ∷ []
  assign k v ((j, w) ∷ m) =
      if text_eq j k
      then (j, v) ∷ m
      else if text_lt k j
      then (k, v) ∷ (j, w) ∷ m
      else (j, w) ∷ assign k v m

  -- `m.erase(m.find(k))`
  unfoldable pub erase : Text → List (Text × V) → List (Text × V)
  erase k [] = []
  erase k ((j, w) ∷ m) = if text_eq j k then m else (j, w) ∷ erase k m

  abbrev pub values : List (Text × V) → List V
  values [] = []
  values ((k, v) ∷ m) = v ∷ values m

  -- Every key is behind `k`.
  abbrev pub IsAbove : Text → List (Text × V) → Type 0
  IsAbove k [] = Unit {0}
  IsAbove k ((j, w) ∷ m) = (text_lt k j ≡ true) × IsAbove k m

  -- The keys rise along the list, so none stands twice.
  abbrev pub IsSorted : List (Text × V) → Type 0
  IsSorted [] = Unit {0}
  IsSorted ((k, v) ∷ m) = IsAbove k m × IsSorted m
