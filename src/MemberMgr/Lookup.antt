-- ===== src/MemberMgr/Lookup.antt =====
-- `find_member` and `random_member`.
use native.Mathlib.Nat.{mod-eq_of_lt}
use find_friend_bot.Base.{
  ℕ, ◌≡◌, ◌≢◌, ◌%◌, ◌⊎◌, refl, none, some, List, [], ◌∷◌, Text, text_eq, false, arith, ok, Returns,
  returns, Option-cases, inl, inr, ◌==◌, length, get_elem?-some,
}
use find_friend_bot.Map.{find, erase, values}
use find_friend_bot.Map.Laws.{
  find-erase, erase-IsSorted, find_of_get_elem?, get_elem?_of_find, length-values,
}
use find_friend_bot.LockedQueue.{Ptr, null}
use find_friend_bot.Member.{Member, pooled_member}
use find_friend_bot.MemberMgr.{MemberMgr, random_member, find_member}
use find_friend_bot.MemberMgr.Invariant.{IsValid}

-- `find_member` gives null, or the member's object.
pub find_member_lem :
    (m : MemberMgr) (loose : List Ptr) (pk : Text)
    → IsValid loose m
    → Returns
        (λ q m'.
          (m' ≡ m)
          × (((q ≡ null) × (find pk m.online_member ≡ none))
              ⊎ ((a : Member) × (find pk m.online_member ≡ some q)
                  × (m.free_list.cell q ≡ some a)
                  × (a.pk ≡ pk)
                  × (q ≢ null))))
        (find_member pk m)
unfolding find_member
find_member_lem m loose pk v = elim (Option-cases (find pk m.online_member)) [
  | inl e ↦ rw e (returns (refl, inl (refl, refl)))
  | inr (q, e) ↦
      let (a, c, key) = v.keyed pk q e in
      rw e (returns (refl, inr (a, refl, c, key, λ z. ground (arith, v.owned.null_dead))))
]

module _ {m : MemberMgr} {loose : List Ptr} (v : IsValid loose m) (pk : Text) where
  -- The object of some other member.
  abbrev pub IsOther : Ptr → Type 0
  IsOther q =
      (key : Text) × (a : Member) × (text_eq pk key ≡ false)
      × (find key m.online_member ≡ some q)
      × (m.free_list.cell q ≡ some a)
      × (a.pk ≡ key)

  IsOther-of_erase :
      (key : Text) {q : Ptr} → find key (erase pk m.online_member) ≡ some q → IsOther q
  IsOther-of_erase key {q} e =
      let apart : text_eq pk key ≡ false =
        ground (arith, find-erase key pk m.online_member v.sorted) in
      let there : find key m.online_member ≡ some q =
        ground (arith, find-erase key pk m.online_member v.sorted) in
      let (a, c, same) = v.keyed key q there in (key, a, apart, there, c, same)

  length-pos : (x : Text × Ptr) (rest : List (Text × Ptr)) → (length (x ∷ rest) == 0) ≡ false
  length-pos x rest = ground arith

  picked :
      (r : ℕ) (others : List (Text × Ptr))
      → erase pk m.online_member ≡ others
      → Returns
          (λ q m'. (m' ≡ m) × (((q ≡ null) × (erase pk m.online_member ≡ [])) ⊎ IsOther q))
          (random_member pk r m)
  unfolding random_member
  picked r [] e = rw (e, random_member) (returns (refl, inl (refl, refl)))
  picked r (x ∷ rest) e =
      let i = r % length (x ∷ rest) in
      let (q, got) =
        get_elem?-some (values (x ∷ rest)) i (omega (arith, length-values (x ∷ rest))) in
      let (key, found) =
        find_of_get_elem? i (erase pk m.online_member) (erase-IsSorted pk m.online_member v.sorted)
          (rw e got) in
      rw (e, random_member, length-pos x rest, got)
        (returns (refl, inr (IsOther-of_erase key found)))

  -- In a valid manager, whatever `rand()` returns, `random_member` leaves the manager alone and
  -- gives the live object of another online member than the one who asks, under its own key; it
  -- gives null only if no other member is online.
  pub random_member-IsOther :
      (r : ℕ)
      → Returns
          (λ q m'. (m' ≡ m) × (((q ≡ null) × (erase pk m.online_member ≡ [])) ⊎ IsOther q))
          (random_member pk r m)
  random_member-IsOther r = picked r (erase pk m.online_member) refl

  -- In a valid manager every online member but the one who asks is what `random_member` gives for
  -- some result of `rand()` below the number of the others.
  pub random_member_reaches :
      (key : Text) {q : Ptr}
      → find key m.online_member ≡ some q
      → text_eq pk key ≡ false
      → (r : ℕ) × ((length (erase pk m.online_member) == 0) ≡ false)
        × (random_member pk r m ≡ ok q m)
  unfolding random_member
  random_member_reaches key {q} e n =
      let (i, l, got) =
        get_elem?_of_find key (erase pk m.online_member) {v = q}
          (ground (arith, find-erase key pk m.online_member v.sorted)) in
      let some_other : (length (erase pk m.online_member) == 0) ≡ false = ground arith in
      (i, some_other, rw (mod-eq_of_lt l, some_other, got) refl)
