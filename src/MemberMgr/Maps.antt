-- ===== src/MemberMgr/Maps.antt =====
-- The managers as clients know them are the finite maps from keys to members with that key.
use native.Mathlib.Nat.{ℕ_set}
use mathlib.Core.Equiv.{◌≃◌, iso_to_equiv}
use mathlib.Core.HLevel.{Σ_prop_path}
use mathlib.Core.Quot
use mathlib.Core.Quot.{Quot, Quot-set}
use find_friend_bot.Base.{
  ◌≡◌, refl, sym, Option, none, some, List, [], ◌∷◌, Text, text_eq, text_eq_iff, text_eq_refl,
  arith, ◌∙◌, Option-cases, Bool-cases, inl, inr,
}
use find_friend_bot.Map.{find, IsAbove, IsSorted}
use find_friend_bot.Map.Laws.{find_above}
use find_friend_bot.Map.Canonical.{IsSorted-ext}
use find_friend_bot.LockedQueue.{Ptr}
use find_friend_bot.Member.{Member}
use find_friend_bot.MemberMgr.{MemberMgr}
use find_friend_bot.MemberMgr.View.{view}
use find_friend_bot.MemberMgr.Shown.{ValidMgr, Shown, shown}
use find_friend_bot.MemberMgr.Placed.{Named, placed, view-placed, placed-IsValid}

abbrev pub Members : Type 0
Members = (l : List (Text × Member)) × (IsSorted l × Named l)

IsAbove-prop : (k : Text) (l : List (Text × Member)) → IsProp (IsAbove k l)
IsAbove-prop k [] = hlevel
IsAbove-prop k (x ∷ l) = hlevel (IsAbove-prop k l)

IsSorted-prop : (l : List (Text × Member)) → IsProp (IsSorted l)
IsSorted-prop [] = hlevel
IsSorted-prop ((k, a) ∷ l) = hlevel (IsAbove-prop k l, IsSorted-prop l)

text_set : IsSet Text
text_set = hlevel ℕ_set

Named-prop : (l : List (Text × Member)) → IsProp (Named l)
Named-prop [] = hlevel
Named-prop ((k, a) ∷ l) = hlevel (text_set, Named-prop l)

entry_set : IsSet (List (Text × Member))
entry_set = hlevel ℕ_set

order_prop : (l : List (Text × Member)) → IsProp (IsSorted l × Named l)
order_prop l = hlevel (IsSorted-prop l, Named-prop l)

Members_set : IsSet Members
Members_set = hlevel (entry_set, order_prop)

-- Two finite maps that find the same are the same.
Members-ext : (x y : Members) → ((k : Text) → find k x.0 ≡ find k y.0) → x ≡ y
Members-ext (l, (s, named)) (l', (s', named')) h = Σ_prop_path order_prop (IsSorted-ext l l' s s' h)

module _ (cell : Ptr → Option Member) where
  -- Each entry has a live object with its key.
  abbrev Live : List (Text × Ptr) → Type 0
  Live [] = Unit {0}
  Live ((k, q) ∷ m) = ((a : Member) × (cell q ≡ some a) × (a.pk ≡ k)) × Live m

  abbrev listed : (m : List (Text × Ptr)) → Live m → List (Text × Member)
  listed [] live = []
  listed ((k, q) ∷ m) ((a, _, _), live) = (k, a) ∷ listed m live

  listed-IsAbove :
      (k : Text) (m : List (Text × Ptr)) (live : Live m) → IsAbove k m → IsAbove k (listed m live)
  listed-IsAbove k [] live h = tt
  listed-IsAbove k (x ∷ m) (_, live) (h, hs) = (h, listed-IsAbove k m live hs)

  listed-IsSorted : (m : List (Text × Ptr)) (live : Live m) → IsSorted m → IsSorted (listed m live)
  listed-IsSorted [] live h = tt
  listed-IsSorted ((k, q) ∷ m) (_, live) (h, hs) =
      (listed-IsAbove k m live h, listed-IsSorted m live hs)

  listed-Named : (m : List (Text × Ptr)) (live : Live m) → Named (listed m live)
  listed-Named [] live = tt
  listed-Named (x ∷ m) ((_, _, own), live) = (own, listed-Named m live)

  abbrev at_cell : Option Ptr → Option Member
  at_cell none = none
  at_cell (some q) = cell q

  find-listed :
      (k : Text) (m : List (Text × Ptr)) (live : Live m)
      → find k (listed m live) ≡ at_cell (find k m)
  unfolding find
  find-listed k [] live = refl
  find-listed k ((j, q) ∷ m) ((a, there, _), live) = elim (Bool-cases (text_eq j k)) [
    | inl e ↦ rw e (sym there)
    | inr e ↦ rw e (find-listed k m live)
  ]

  abbrev IsKeyed : List (Text × Ptr) → Type 0
  IsKeyed m =
      (pk : Text) (q : Ptr) → find pk m ≡ some q → (a : Member) × (cell q ≡ some a) × (a.pk ≡ pk)

  IsKeyed-rest :
      (j : Text) (q : Ptr) (m : List (Text × Ptr)) → IsAbove j m → IsKeyed ((j, q) ∷ m) → IsKeyed m
  unfolding find
  IsKeyed-rest j q m above keyed pk r e = elim (Bool-cases (text_eq j pk)) [
    | inl f ↦ absurd (ground (arith, e, text_eq_iff j pk, find_above j m above))
    | inr f ↦ keyed pk r (rw f e)
  ]

  IsKeyed-Live : (m : List (Text × Ptr)) → IsSorted m → IsKeyed m → Live m
  unfolding find
  IsKeyed-Live [] s keyed = tt
  IsKeyed-Live ((j, q) ∷ m) (above, s) keyed =
      (keyed j q (rw (text_eq_refl j) refl), IsKeyed-Live m s (IsKeyed-rest j q m above keyed))

-- The map of a valid manager.
of_manager : ValidMgr → Members
of_manager x =
    let cell = x.mgr.free_list.cell in
    let m = x.mgr.online_member in
    let live = IsKeyed-Live cell m x.valid.sorted x.valid.keyed in
    (listed cell m live, (listed-IsSorted cell m live x.valid.sorted, listed-Named cell m live))

find-of_manager : (x : ValidMgr) (k : Text) → find k (of_manager x).0 ≡ view x.mgr k
unfolding of_manager
find-of_manager x k =
    let cell = x.mgr.free_list.cell in
    let m = x.mgr.online_member in
    find-listed cell k m (IsKeyed-Live cell m x.valid.sorted x.valid.keyed)
    ∙ elim (Option-cases (find k m)) [ inl e ↦ rw e refl | inr (q, e) ↦ rw e refl ]

pub members_of : Shown → Members
members_of = Quot.lift Members_set of_manager λ x y h.
    Members-ext (of_manager x) (of_manager y)
      λ k. find-of_manager x k ∙ h k ∙ sym (find-of_manager y k)

manager_of : Members → Shown
manager_of (l, (s, named)) = shown (placed-IsValid l s named)

members_of-manager_of : (x : Members) → members_of (manager_of x) ≡ x
unfolding members_of manager_of
members_of-manager_of (l, (s, named)) =
    let x : ValidMgr = record { mgr = placed 1 l; loose = []; valid = placed-IsValid l s named } in
    Members-ext (of_manager x) (l, (s, named)) λ k. find-of_manager x k ∙ view-placed k 1 l

manager_of-members_of : (s : Shown) → manager_of (members_of s) ≡ s
unfolding members_of manager_of
manager_of-members_of =
    Quot.ind (λ s. Quot-set _ s)
      λ x. Quot.sound λ k. view-placed k 1 (of_manager x).0 ∙ find-of_manager x k

-- The quotient of the valid managers by what each key shows is equivalent to the type of the sorted
-- lists of members, each under its own key: the class of a manager goes to the list in which each
-- key finds the member that the manager shows for it.
pub Shown-Members :
    (e : Shown ≃ Members) × ((x : ValidMgr) (key : Text)
      → find key (e.0 (Quot.mk x)).0 ≡ view x.mgr key)
unfolding members_of
Shown-Members = (
  iso_to_equiv (record {
    fun = members_of;
    inv = manager_of;
    rinv = members_of-manager_of;
    linv = manager_of-members_of;
  }),
  find-of_manager,
)

-- The same as an equation of types.
pub Shown-path : Shown ≡ Members
Shown-path = λ i. V i Shown Members Shown-Members.0
