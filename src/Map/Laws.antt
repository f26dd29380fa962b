-- ===== src/Map/Laws.antt =====
-- The laws of `std::map`.
use find_friend_bot.Base.{
  zero, get_elem?, text_eq_refl, ◌<◌, inl, inr, Bool-cases, false, ℕ, suc, ◌+◌, ◌≡◌, refl, true,
  none, some, List, [], ◌∷◌, arith, Text, text_eq, text_lt, text_eq_iff, text_lt_trans,
  text_lt_total, text_lt_irrefl, if◌then◌else◌, count, ◌==◌, length,
}
use find_friend_bot.Map.{find, insert, assign, erase, values, IsAbove, IsSorted}

module _ {V : Type 0} where
  pub find_above : (k : Text) (m : List (Text × V)) → IsAbove k m → find k m ≡ none
  unfolding find
  find_above k [] a = refl
  find_above k ((j, w) ∷ m) a =
      ground (arith, text_eq_iff j k, text_lt_irrefl k, find_above k m a.1)

  pub IsAbove-trans :
      (k j : Text) (m : List (Text × V)) → text_lt k j ≡ true → IsAbove j m → IsAbove k m
  IsAbove-trans k j [] l a = tt
  IsAbove-trans k j ((i, w) ∷ m) l a = (text_lt_trans k j i l a.0, IsAbove-trans k j m l a.1)

  -- An insertion adds a key that was missing, and changes no other.
  pub find-insert :
      (i k : Text) (v : V) (m : List (Text × V))
      → IsSorted m
      → find i (insert k v m)
        ≡ (if text_eq k i then elim (find k m) [ none ↦ some v | some w ↦ some w ] else find i m)
  unfolding find insert
  find-insert i k v [] s = refl
  find-insert i k v ((j, w) ∷ m) s = ground (
    arith,
    text_eq_iff j k,
    text_eq_iff k i,
    text_eq_iff j i,
    find_above k m,
    IsAbove-trans k j m,
    find-insert i k v m s.1,
  )

  pub find-assign :
      (i k : Text) (v : V) (m : List (Text × V))
      → find i (assign k v m) ≡ (if text_eq k i then some v else find i m)
  unfolding find assign
  find-assign i k v [] = refl
  find-assign i k v ((j, w) ∷ m) =
      ground (arith, text_eq_iff j k, text_eq_iff k i, text_eq_iff j i, find-assign i k v m)

  pub find-erase :
      (i k : Text) (m : List (Text × V))
      → IsSorted m
      → find i (erase k m) ≡ (if text_eq k i then none else find i m)
  unfolding find erase
  find-erase i k [] s = ground arith
  find-erase i k ((j, w) ∷ m) s = ground (
    arith,
    text_eq_iff j k,
    text_eq_iff k i,
    text_eq_iff j i,
    find_above j m s.0,
    find-erase i k m s.1,
  )

  IsAbove-insert :
      (i k : Text) (v : V) (m : List (Text × V))
      → text_lt i k ≡ true
      → IsAbove i m
      → IsAbove i (insert k v m)
  unfolding insert
  IsAbove-insert i k v [] l a = (l, tt)
  IsAbove-insert i k v ((j, w) ∷ m) l a = ground (arith, IsAbove-insert i k v m l a.1)

  IsAbove-assign :
      (i k : Text) (v : V) (m : List (Text × V))
      → text_lt i k ≡ true
      → IsAbove i m
      → IsAbove i (assign k v m)
  unfolding assign
  IsAbove-assign i k v [] l a = (l, tt)
  IsAbove-assign i k v ((j, w) ∷ m) l a =
      ground (arith, text_eq_iff j k, IsAbove-assign i k v m l a.1)

  IsAbove-erase : (i k : Text) (m : List (Text × V)) → IsAbove i m → IsAbove i (erase k m)
  unfolding erase
  IsAbove-erase i k [] a = tt
  IsAbove-erase i k ((j, w) ∷ m) a = ground (arith, IsAbove-erase i k m a.1)

  pub insert-IsSorted :
      (k : Text) (v : V) (m : List (Text × V)) → IsSorted m → IsSorted (insert k v m)
  unfolding insert
  insert-IsSorted k v [] s = (tt, tt)
  insert-IsSorted k v ((j, w) ∷ m) s = ground (
    arith,
    text_eq_iff j k,
    text_lt_total k j,
    text_eq_iff k j,
    IsAbove-trans k j m,
    IsAbove-insert j k v m,
    insert-IsSorted k v m s.1,
  )

  pub assign-IsSorted :
      (k : Text) (v : V) (m : List (Text × V)) → IsSorted m → IsSorted (assign k v m)
  unfolding assign
  assign-IsSorted k v [] s = (tt, tt)
  assign-IsSorted k v ((j, w) ∷ m) s = ground (
    arith,
    text_eq_iff j k,
    text_lt_total k j,
    text_eq_iff k j,
    IsAbove-trans k j m,
    IsAbove-assign j k v m,
    assign-IsSorted k v m s.1,
  )

  pub erase-IsSorted : (k : Text) (m : List (Text × V)) → IsSorted m → IsSorted (erase k m)
  unfolding erase
  erase-IsSorted k [] s = tt
  erase-IsSorted k ((j, w) ∷ m) s = ground (arith, IsAbove-erase j k m, erase-IsSorted k m s.1)

  pub length-erase :
      (k : Text) (m : List (Text × V)) {v : V}
      → find k m ≡ some v
      → suc (length (erase k m)) ≡ length m
  unfolding find erase
  length-erase k [] {v} e = cc
  length-erase k ((j, w) ∷ m) {v} e = ground (arith, length-erase k m {v = v})

  find_of_above :
      (k j : Text) (m : List (Text × V)) {v : V}
      → IsAbove k m
      → find j m ≡ some v
      → text_eq k j ≡ false
  unfolding find
  find_of_above k j [] {v} a e = cc
  find_of_above k j ((i, w) ∷ m) {v} a e =
      ground
        (arith, text_eq_iff i j, text_eq_iff k j, text_lt_irrefl k, find_of_above k j m {v = v} a.1)

  -- What an iterator reaches is found under its key, and the other way round.
  pub find_of_get_elem? :
      (i : ℕ) (m : List (Text × V)) {v : V}
      → IsSorted m
      → get_elem? (values m) i ≡ some v
      → (k : Text) × (find k m ≡ some v)
  unfolding find
  find_of_get_elem? i [] {v} s e = absurd (cc)
  find_of_get_elem? zero ((j, w) ∷ m) {v} s e = (j, rw (text_eq_refl j) e)
  find_of_get_elem? (suc i) ((j, w) ∷ m) {v} s e =
      let (k, h) = find_of_get_elem? i m {v = v} s.1 e in (k, rw (find_of_above j k m s.0 h) h)

  pub get_elem?_of_find :
      (k : Text) (m : List (Text × V)) {v : V}
      → find k m ≡ some v
      → (i : ℕ) × (i < length m) × (get_elem? (values m) i ≡ some v)
  unfolding find
  get_elem?_of_find k [] {v} e = absurd (cc)
  get_elem?_of_find k ((j, w) ∷ m) {v} e = elim (Bool-cases (text_eq j k)) [
    | inl h ↦ (0, omega arith, ground arith)
    | inr h ↦
        let (i, l, g) = get_elem?_of_find k m {v = v} (ground arith) in (suc i, omega arith, g)
  ]

  pub length-values : (m : List (Text × V)) → length (values m) ≡ length m
  length-values [] = refl
  length-values (x ∷ m) = omega (arith, length-values m)

-- The pointers of a map, counted.
pub count-values-insert :
    (p : ℕ) (k : Text) (v : ℕ) (m : List (Text × ℕ))
    → IsSorted m
    → count p (values (insert k v m))
      ≡ (elim (find k m) [ none ↦ if v == p then 1 else 0 | some w ↦ 0 ]) + count p (values m)
unfolding find insert
count-values-insert p k v [] s = ground arith
count-values-insert p k v ((j, w) ∷ m) s =
    ground
      (arith, text_eq_iff j k, find_above k m, IsAbove-trans k j m, count-values-insert p k v m s.1)

pub count-values-erase :
    (p : ℕ) (k : Text) (m : List (Text × ℕ)) {v : ℕ}
    → find k m ≡ some v
    → count p (values m) ≡ (if v == p then 1 else 0) + count p (values (erase k m))
unfolding find erase
count-values-erase p k [] {v} e = cc
count-values-erase p k ((j, w) ∷ m) {v} e = ground (arith, count-values-erase p k m {v = v})
