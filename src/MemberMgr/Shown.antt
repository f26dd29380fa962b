-- ===== src/MemberMgr/Shown.antt =====
-- Valid managers as their clients know them: addresses, the pool and what is left in it forgotten.
use native.Mathlib.Nat.{ℕ_set}
use mathlib.Core.Quot
use mathlib.Core.Quot.{Quot, Quot-set}
use find_friend_bot.Base.{
  ℕ, ◌≡◌, refl, fun_ext, Option, none, List, Text, Run, ok, fault, Returns, returns, Returns-mono,
}
use find_friend_bot.LockedQueue.{Ptr, Locking}
use find_friend_bot.Member.{Member}
use find_friend_bot.MemberMgr.{MemberMgr, del_member, random_member}
use find_friend_bot.MemberMgr.Invariant.{IsValid}
use find_friend_bot.MemberMgr.Removal.{del_member-IsValid}
use find_friend_bot.MemberMgr.View.{view, Deleted-view}
use find_friend_bot.MemberMgr.Abstract.{random_member-view}

pub record ValidMgr : Type 0 where
  pub mgr : MemberMgr
  pub loose : List Ptr
  pub valid : IsValid loose mgr

-- No client can tell them apart: for each key they show the same.
abbrev pub SameView : ValidMgr → ValidMgr → Type 0
SameView x y = (pk : Text) → view x.mgr pk ≡ view y.mgr pk

abbrev pub Shown : Type 0
Shown = Quot SameView

-- What clients know of a valid manager.
abbrev pub shown : {m : MemberMgr} {loose : List Ptr} → IsValid loose m → Shown
shown {m} {loose} v = Quot.mk (record { mgr = m; loose = loose; valid = v })

member_set : IsSet Member
member_set = hlevel ℕ_set

maybe_set : IsSet (Option Member)
maybe_set = hlevel member_set

views_set : IsSet (Text → Option Member)
views_set = hlevel maybe_set

-- The map from keys to members that is left of a manager.
pub entries : Shown → Text → Option Member
entries = Quot.lift views_set (λ x. view x.mgr) (λ x y h. fun_ext h)

-- The map is all there is to it.
pub entries-ext : (s t : Shown) → ((pk : Text) → entries s pk ≡ entries t pk) → s ≡ t
unfolding entries
entries-ext =
    Quot.ind (λ s. hlevel Quot-set) (λ x. Quot.ind (λ t. hlevel Quot-set) (λ y h. Quot.sound h))

-- What `random_member` points to.
abbrev pointed : Run MemberMgr Ptr → Option Member
pointed (ok q m) = m.free_list.cell q
pointed (fault e) = none

pointed-same :
    {r r' : Run MemberMgr Ptr}
    → Returns (λ q n. Returns (λ q' n'. n.free_list.cell q ≡ n'.free_list.cell q') r') r
    → pointed r ≡ pointed r'
pointed-same (returns (returns e)) = e

-- `random_member` does not look behind what is shown.
pub draw : Text → ℕ → Shown → Option Member
draw pk r =
    Quot.lift maybe_set (λ x. pointed (random_member pk r x.mgr))
      (λ x y h. pointed-same (random_member-view x.valid y.valid pk r (λ k n. h k)))

module _ (k : Locking) {m : MemberMgr} {loose : List Ptr} (v : IsValid loose m) where
  -- For the random choice it does not matter whether the one who asks is online.
  pub random_member-del_member :
      (pk : Text) (r : ℕ)
      → Returns
          (λ _ m'. (v' : IsValid loose m') × (draw pk r (shown v') ≡ draw pk r (shown v)))
          (del_member k pk m)
  unfolding draw
  random_member-del_member pk r = Returns-mono (del_member-IsValid k v pk) λ _ m' d. (
    d.0,
    pointed-same
        (random_member-view d.0 v pk r λ key n. rw (Deleted-view m m' loose pk d key, n) refl),
  )
