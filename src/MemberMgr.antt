-- ===== src/MemberMgr.antt =====
-- src/MemberMgr.h and src/MemberMgr.cpp: the members that are online, by public key, and the pool
-- that their objects come from.
pub mod Invariant
pub mod Objects
pub mod Lookup
pub mod Filling
pub mod Removal
pub mod View
pub mod Abstract
pub mod Shown
pub mod Placed
pub mod Maps
use find_friend_bot.Base.{
  ℕ, ◌%◌, ◌^◌, Option, none, some, List, [], ◌∷◌, Text, ◌==◌, if◌then◌else◌, length, get_elem?, Run,
  ok, fault, Cmd, on_part, pure, ◌>>=◌, ◌>>◌,
}
use find_friend_bot.Map.{find, insert, erase, values}
use find_friend_bot.LockedQueue
use find_friend_bot.LockedQueue.{Ptr, null, Locking, Pool}
use find_friend_bot.Member.{Member, clear_member, pooled_member}

pub record MemberMgr : Type 0 where
  pub online_member : List (Text × Ptr)
  pub free_list : Pool Member

abbrev pub on_pool : {A : Type 0} → Cmd (Pool Member) A → Cmd MemberMgr A
on_pool = on_part (λ m. m.free_list) (λ p m. record m { free_list = p })

-- `it->second`, with null for `end()`.
abbrev pub second_or_null : Option Ptr → Ptr
second_or_null none = null
second_or_null (some q) = q

-- `*q = f(*q)`, as the setters do through a pointer.
unfoldable pub modify : (Member → Member) → Ptr → Cmd MemberMgr (Unit {0})
unfolding LockedQueue.load LockedQueue.store
modify f q = on_pool (do a ← LockedQueue.load q; LockedQueue.store q (f a))

unfoldable pub add_member : Ptr → Cmd MemberMgr (Unit {0})
unfolding LockedQueue.load
add_member q = do
  a ← on_pool (LockedQueue.load q)
  (λ m. ok tt (record m { online_member = insert a.pk q m.online_member }))

unfoldable pub find_member : Text → Cmd MemberMgr Ptr
find_member pk m = ok (second_or_null (find pk m.online_member)) m

-- `rand() % size` picks among the others; `r` is what `rand()` returns.
unfoldable pub random_member : Text → ℕ → Cmd MemberMgr Ptr
random_member pk r m =
    let others = erase pk m.online_member in
    let picked = second_or_null (get_elem? (values others) (r % length others)) in
    ok (if length others == 0 then null else picked) m

unfoldable pub online_member_num : Cmd MemberMgr ℕ
online_member_num m = ok (length m.online_member % 2 ^ 32) m

reset : Ptr → Cmd MemberMgr (Unit {0})
unfolding modify
reset q = if q == null then pure tt else modify clear_member q

module _ (k : Locking) where
  unfoldable pub deallcate : Ptr → Cmd MemberMgr (Unit {0})
  deallcate q = on_pool (LockedQueue.deallcate k q)

  erase_entry : Text → Cmd MemberMgr (Unit {0})
  erase_entry pk m = ok tt (record m { online_member = erase pk m.online_member })

  unfoldable pub del_member : Text → Cmd MemberMgr (Unit {0})
  unfolding deallcate erase_entry
  del_member pk m = elim (find pk m.online_member) [
    | none ↦ ok tt m
    | some q ↦ (if q == null then pure tt else deallcate q >> erase_entry pk) m
  ]

  unfoldable pub allocate : Cmd MemberMgr Ptr
  unfolding reset
  allocate = do q ← on_pool (LockedQueue.allocate k); reset q; pure q

  -- The loop of the destructor: an entry with a null pointer stays.
  destroy_each : List (Text × Ptr) → Cmd MemberMgr (Unit {0})
  unfolding deallcate erase_entry
  destroy_each [] = pure tt
  destroy_each ((pk, q) ∷ rest) =
      (if q == null then pure tt else deallcate q >> erase_entry pk) >> destroy_each rest

  unfoldable pub destroy : Cmd MemberMgr (Unit {0})
  unfolding destroy_each
  destroy m = destroy_each m.online_member m
