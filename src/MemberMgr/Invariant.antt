-- ===== src/MemberMgr/Invariant.antt =====
-- The invariant of the member manager, and what each operation does to it.
use find_friend_bot.Base.{
  ◌≡◌, ◌≢◌, refl, Option, none, some, List, ◌∷◌, ◌++◌, Text, text_eq, text_eq_iff, if◌then◌else◌,
  arith, count, count-append, ok, Returns, returns, Option-cases, inl, inr,
}
use find_friend_bot.Map.{find, insert, values, IsSorted}
use find_friend_bot.Map.Laws.{find-insert, insert-IsSorted, count-values-insert}
use find_friend_bot.LockedQueue.{Ptr, null}
use find_friend_bot.LockedQueue.Ownership.{Owned, Owned-count}
use find_friend_bot.Member.{Member, max_pool_size, pooled_member}
use find_friend_bot.MemberMgr.{MemberMgr, add_member}

-- Every live member object is online under its public key, in the pool, or among the `loose` ones,
-- and in one of these places only.
pub record IsValid (loose : List Ptr) (m : MemberMgr) : Type 0 where
  pub owned : Owned max_pool_size m.free_list (values m.online_member ++ loose)
  pub sorted : IsSorted m.online_member
  pub keyed :
      (pk : Text) (q : Ptr)
      → find pk m.online_member ≡ some q
      → (a : Member) × (m.free_list.cell q ≡ some a) × (a.pk ≡ pk)

-- Where a new object goes: it is lost if the key is taken.
abbrev pub left_over : Option Ptr → Ptr → List Ptr → List Ptr
left_over none q loose = loose
left_over (some _) q loose = q ∷ loose

-- The member with the object `q` is online.
abbrev pub now_online : Option Ptr → Ptr → Option Ptr
now_online none q = some q
now_online (some r) q = some r

add_member_eq :
    (m : MemberMgr) (q : Ptr) (a : Member)
    → q ≢ null
    → m.free_list.cell q ≡ some a
    → add_member q m ≡ ok tt (record m { online_member = insert a.pk q m.online_member })
unfolding add_member
add_member_eq m q a n e = ground arith

-- What `add_member` promises of an object whose key is `pk`.
abbrev pub Added : MemberMgr → Ptr → List Ptr → Text → MemberMgr → Type 0
Added m q loose key m' =
    IsValid (left_over (find key m.online_member) q loose) m'
    × ((pk : Text)
        → find pk m'.online_member ≡ (
            if text_eq key pk
            then now_online (find key m.online_member) q
            else find pk m.online_member))
    × (m'.free_list ≡ m.free_list)

module _ {m : MemberMgr} {q : Ptr} {loose : List Ptr} (v : IsValid (q ∷ loose) m) where
  left_over-count :
      (key : Text) (r : Ptr)
      → count r (values m.online_member ++ q ∷ loose)
        ≡ count r
            (values (insert key q m.online_member) ++ left_over (find key m.online_member) q loose)
  left_over-count key r = elim (Option-cases (find key m.online_member)) [
    | inl e ↦ rw e (
        ground (
          arith,
          count-append r (values m.online_member) (q ∷ loose),
          count-append r (values (insert key q m.online_member)) loose,
          count-values-insert r key q m.online_member v.sorted,
        ))
    | inr (w, e) ↦ rw e (
        ground (
          arith,
          count-append r (values m.online_member) (q ∷ loose),
          count-append r (values (insert key q m.online_member)) (q ∷ loose),
          count-values-insert r key q m.online_member v.sorted,
        ))
  ]

  find_added :
      (key pk : Text)
      → find pk (insert key q m.online_member) ≡ (
          if text_eq key pk
          then now_online (find key m.online_member) q
          else find pk m.online_member)
  find_added key pk = ground (arith, find-insert pk key q m.online_member v.sorted)

  keyed_added :
      (a : Member) (pk : Text) (r : Ptr)
      → m.free_list.cell q ≡ some a
      → find pk (insert a.pk q m.online_member) ≡ some r
      → (b : Member) × (m.free_list.cell r ≡ some b) × (b.pk ≡ pk)
  keyed_added a pk r e f = elim (Option-cases (find pk m.online_member)) [
    | inl n ↦ (
      a,
      ground (arith, find_added a.pk pk, text_eq_iff a.pk pk),
      ground (arith, find_added a.pk pk, text_eq_iff a.pk pk),
    )
    | inr (w, n) ↦ v.keyed pk r (ground (arith, find_added a.pk pk, text_eq_iff a.pk pk))
  ]

  pub add_member-IsValid :
      {a : Member}
      → m.free_list.cell q ≡ some a
      → Returns (λ _. Added m q loose a.pk) (add_member q m)
  add_member-IsValid {a} e = rw (add_member_eq m q a (λ z. ground (arith, v.owned.null_dead)) e) (
      returns (
        record {
          owned = Owned-count (left_over-count a.pk) v.owned;
          sorted = insert-IsSorted a.pk q m.online_member v.sorted;
          keyed = λ pk r f. keyed_added a pk r e f;
        },
        find_added a.pk,
        refl,
      ))
