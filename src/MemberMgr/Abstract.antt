-- ===== src/MemberMgr/Abstract.antt =====
-- `random_member` looks at who is online, and not at where their objects are.
use find_friend_bot.Base.{
  ℕ, zero, suc, ◌%◌, ◌≡◌, refl, Option, none, some, List, [], ◌∷◌, Text, text_eq, Returns, returns,
  length, get_elem?, false, if◌then◌else◌, ◌==◌, Option-cases, Bool-cases, inl, inr, sym, ap, ◌∙◌,
  arith,
}
use mathlib.Core.Option
use find_friend_bot.Map.{find, erase, values, IsSorted, IsAbove}
use find_friend_bot.Map.Laws.{find-erase, erase-IsSorted}
use find_friend_bot.Map.Canonical.{IsSorted-ext}
use find_friend_bot.LockedQueue.{Ptr, null}
use find_friend_bot.Member.{Member}
use find_friend_bot.MemberMgr.{MemberMgr, random_member, second_or_null}
use find_friend_bot.MemberMgr.Invariant.{IsValid}
use find_friend_bot.MemberMgr.View.{view}

-- The entries with the objects in place of the pointers.
module _ (cell : Ptr → Option Member) where
  abbrev members : List (Text × Ptr) → List (Text × Option Member)
  members [] = []
  members ((k, q) ∷ m) = (k, cell q) ∷ members m

  find-members :
      (k : Text) (m : List (Text × Ptr)) → find k (members m) ≡ Option.map cell (find k m)
  unfolding find
  find-members k [] = refl
  find-members k ((j, q) ∷ m) = elim (Bool-cases (text_eq j k)) [
    | inl e ↦ rw e refl
    | inr e ↦ rw e (find-members k m)
  ]

  members-IsAbove : (k : Text) (m : List (Text × Ptr)) → IsAbove k m → IsAbove k (members m)
  members-IsAbove k [] a = tt
  members-IsAbove k ((j, q) ∷ m) a = (a.0, members-IsAbove k m a.1)

  members-IsSorted : (m : List (Text × Ptr)) → IsSorted m → IsSorted (members m)
  members-IsSorted [] s = tt
  members-IsSorted ((j, q) ∷ m) s = (members-IsAbove j m s.0, members-IsSorted m s.1)

  members-erase : (k : Text) (m : List (Text × Ptr)) → members (erase k m) ≡ erase k (members m)
  unfolding erase
  members-erase k [] = refl
  members-erase k ((j, q) ∷ m) = elim (Bool-cases (text_eq j k)) [
    | inl e ↦ rw e refl
    | inr e ↦ rw (e, members-erase k m) refl
  ]

  length-members : (m : List (Text × Ptr)) → length (members m) ≡ length m
  length-members [] = refl
  length-members (x ∷ m) = omega (arith, length-members m)

  get_elem?-members :
      (m : List (Text × Ptr)) (i : ℕ)
      → get_elem? (values (members m)) i ≡ Option.map cell (get_elem? (values m) i)
  get_elem?-members [] i = refl
  get_elem?-members (x ∷ m) zero = refl
  get_elem?-members (x ∷ m) (suc i) = get_elem?-members m i

-- What stands at a place, as an object or nobody.
abbrev object : Option (Option Member) → Option Member
object none = none
object (some a) = a

-- The member that `rand()` picks out of the others.
abbrev chosen : List (Text × Option Member) → ℕ → Option Member
chosen others r =
    if length others == 0 then none else object (get_elem? (values others) (r % length others))

-- The pointer that `random_member` gives.
abbrev picked : Text → ℕ → MemberMgr → Ptr
picked pk r m =
    let others = erase pk m.online_member in
    if length others == 0
    then null
    else second_or_null (get_elem? (values others) (r % length others))

cell-second_or_null :
    (cell : Ptr → Option Member) (q : Option Ptr)
    → cell null ≡ none
    → cell (second_or_null q) ≡ object (Option.map cell q)
cell-second_or_null cell none z = z
cell-second_or_null cell (some q) z = refl

module _ {m : MemberMgr} {loose : List Ptr} (v : IsValid loose m) where
  abbrev seen : List (Text × Option Member)
  seen = members m.free_list.cell m.online_member

  cell-picked : (pk : Text) (r : ℕ) → m.free_list.cell (picked pk r m) ≡ chosen (erase pk seen) r
  cell-picked pk r =
      let cell = m.free_list.cell in
      let others = erase pk m.online_member in
      rw⁻¹ (members-erase cell pk m.online_member) (
        rw (length-members cell others) (elim (Bool-cases (length others == 0)) [
          | inl e ↦ rw e v.owned.null_dead
          | inr e ↦
              rw (e, get_elem?-members cell others (r % length others))
                (cell-second_or_null cell (get_elem? (values others) (r % length others))
                  v.owned.null_dead)
        ]))

  -- A key is found with the member that the view shows.
  find-seen : (k : Text) → find k seen ≡ Option.map some (view m k)
  find-seen k =
      find-members m.free_list.cell k m.online_member
      ∙ elim (Option-cases (find k m.online_member)) [
        | inl e ↦ rw e refl
        | inr (q, e) ↦ let (a, live, _) = v.keyed k q e in rw (e, live) refl
      ]

  seen-IsSorted : IsSorted seen
  seen-IsSorted = members-IsSorted m.free_list.cell m.online_member v.sorted

  find-others :
      (pk k : Text)
      → find k (erase pk seen) ≡ (if text_eq pk k then none else Option.map some (view m k))
  find-others pk k = find-erase k pk seen seen-IsSorted ∙ rw (find-seen k) refl

same_others :
    {m m' : MemberMgr} {loose loose' : List Ptr} (v : IsValid loose m) (v' : IsValid loose' m')
    (pk : Text)
    → ((k : Text) → text_eq pk k ≡ false → view m k ≡ view m' k)
    → erase pk (seen v) ≡ erase pk (seen v')
same_others v v' pk same =
    IsSorted-ext (erase pk (seen v)) (erase pk (seen v'))
      (erase-IsSorted pk (seen v) (seen-IsSorted v))
      (erase-IsSorted pk (seen v') (seen-IsSorted v'))
      λ k.
        find-others v pk k
        ∙ elim (Bool-cases (text_eq pk k)) [ inl e ↦ rw e refl | inr e ↦ rw (e, same k e) refl ]
        ∙ sym (find-others v' pk k)

-- Two valid managers that show the same member for every key but the one that asks give it the same
-- member for the same value of `rand()`, wherever their objects are.
pub random_member-view :
    {m m' : MemberMgr} {loose loose' : List Ptr}
    → IsValid loose m
    → IsValid loose' m'
    → (pk : Text) (r : ℕ) → ((k : Text) → text_eq pk k ≡ false → view m k ≡ view m' k)
    → Returns
        (λ q n.
          Returns (λ q' n'. n.free_list.cell q ≡ n'.free_list.cell q') (random_member pk r m'))
        (random_member pk r m)
unfolding random_member
random_member-view {m} {m'} v v' pk r same =
    let all = same_others v v' pk same in
    returns (returns (cell-picked v pk r ∙ ap (λ s. chosen s r) all ∙ sym (cell-picked v' pk r)))
