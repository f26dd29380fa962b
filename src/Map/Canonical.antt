-- ===== src/Map/Canonical.antt =====
-- A sorted list of entries is determined by what its keys find.
use find_friend_bot.Base.{
  ◌≡◌, refl, true, false, Option, none, some, List, [], ◌∷◌, Text, text_eq, text_eq_iff,
  text_eq_refl, text_lt, text_lt_total, Bool-cases, inl, inr, subst, sym, ◌∙◌, arith,
}
use find_friend_bot.Map.{find, IsAbove, IsSorted}
use find_friend_bot.Map.Laws.{find_above, IsAbove-trans}

module _ {V : Type 0} where
  find_first : (k : Text) (v : V) (m : List (Text × V)) → find k ((k, v) ∷ m) ≡ some v
  unfolding find
  find_first k v m = rw (text_eq_refl k) refl

  -- Nothing is found below the first key.
  find_below :
      (k j : Text) (w : V) (m : List (Text × V))
      → text_lt k j ≡ true
      → IsAbove j m
      → find k ((j, w) ∷ m) ≡ none
  find_below k j w m l a = find_above k ((j, w) ∷ m) (l, IsAbove-trans k j m l a)

  some-none : {v : V} → ◌≡◌ {A = Option V} (some v) none → ⊥
  some-none e = ground arith

  some_inj : {v w : V} → ◌≡◌ {A = Option V} (some v) (some w) → v ≡ w
  some_inj e = ground arith

  -- The first keys are the same, and their values.
  same_first :
      (i j : Text) (v w : V) (m n : List (Text × V))
      → IsSorted ((i, v) ∷ m)
      → IsSorted ((j, w) ∷ n)
      → ((k : Text) → find k ((i, v) ∷ m) ≡ find k ((j, w) ∷ n))
      → (i ≡ j) × (v ≡ w)
  same_first i j v w m n s r h = elim (Bool-cases (text_eq i j)) [
    | inl e ↦
        let same : i ≡ j = (text_eq_iff i j).0 e in
        let there : find i ((j, w) ∷ n) ≡ some w =
          subst (λ k. find k ((j, w) ∷ n) ≡ some w) (sym same) (find_first j w n) in
        (same, some_inj (sym (find_first i v m) ∙ h i ∙ there))
    | inr e ↦ elim (Bool-cases (text_lt i j)) [
      | inl l ↦ absurd (some-none (sym (find_first i v m) ∙ h i ∙ find_below i j w n l r.0))
      | inr l ↦ absurd (
          some-none
            (sym (find_first j w n) ∙ sym (h j) ∙ find_below j i v m (text_lt_total i j e l) s.0))
    ]
  ]

  same_rest :
      (i j : Text) (v w : V) (m n : List (Text × V))
      → IsSorted ((i, v) ∷ m)
      → IsSorted ((j, w) ∷ n)
      → i ≡ j
      → ((k : Text) → find k ((i, v) ∷ m) ≡ find k ((j, w) ∷ n))
      → (k : Text) → find k m ≡ find k n
  unfolding find
  same_rest i j v w m n s r p h k = elim (Bool-cases (text_eq i k)) [
    | inl e ↦
        let first : i ≡ k = (text_eq_iff i k).0 e in
        subst (λ x. find x m ≡ find x n) first
          (find_above i m s.0 ∙ sym (subst (λ x. find x n ≡ none) (sym p) (find_above j n r.0)))
    | inr e ↦
        let other : text_eq j k ≡ false = subst (λ x. text_eq x k ≡ false) p e in
        rw (e, other) at (h k)
  ]

  -- Two sorted lists in which every key finds the same are the same list.
  pub IsSorted-ext :
      (m n : List (Text × V)) → IsSorted m → IsSorted n → ((k : Text) → find k m ≡ find k n) → m ≡ n
  unfolding find
  IsSorted-ext [] [] s r h = refl
  IsSorted-ext [] ((j, w) ∷ n) s r h = absurd (some-none (sym (find_first j w n) ∙ sym (h j)))
  IsSorted-ext ((i, v) ∷ m) [] s r h = absurd (some-none (sym (find_first i v m) ∙ h i))
  IsSorted-ext ((i, v) ∷ m) ((j, w) ∷ n) s r h =
      let same : (i ≡ j) × (v ≡ w) = same_first i j v w m n s r h in
      let rest : m ≡ n = IsSorted-ext m n s.1 r.1 (same_rest i j v w m n s r same.0 h) in
      rw (same.0, same.1, rest) refl
