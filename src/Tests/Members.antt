-- ===== src/Tests/Members.antt =====
-- Two managers with the same members at other addresses.
use find_friend_bot.Base.{
  ◌≡◌, refl, none, some, ◌∷◌, Text, text_eq, text_eq_iff, text_lt, ◌==◌, if◌then◌else◌, Returns,
  arith, Bool-cases, inl, inr, [],
}
use find_friend_bot.Map.{find}
use find_friend_bot.Lock.{unlocked}
use find_friend_bot.LockedQueue.{Ptr}
use find_friend_bot.Member.{Member}
use find_friend_bot.MemberMgr.{MemberMgr, random_member}
use find_friend_bot.MemberMgr.Invariant.{IsValid}
use find_friend_bot.MemberMgr.View.{view}
use find_friend_bot.MemberMgr.Abstract.{random_member-view}
use find_friend_bot.Fixtures.{ann, ben, ann_object, ben_object, two_online, two_online-IsValid}

abbrev moved : MemberMgr
moved = record {
  online_member = (ann, 5) ∷ (ben, 4) ∷ [];
  free_list = record {
    next = 6;
    cell = λ q. if q == 5 then some ann_object else if q == 4 then some ben_object else none;
    free_list = [];
    lock = unlocked;
  };
}

keyed_moved :
    (pk : Text) (q : Ptr)
    → find pk moved.online_member ≡ some q
    → (a : Member) × (moved.free_list.cell q ≡ some a) × (a.pk ≡ pk)
unfolding find
keyed_moved pk q e = elim (Bool-cases (text_eq ann pk)) [
  | inl f ↦ (ann_object, ground (arith), (text_eq_iff ann pk).0 f)
  | inr f ↦ elim (Bool-cases (text_eq ben pk)) [
    | inl g ↦ (ben_object, ground (arith), (text_eq_iff ben pk).0 g)
    | inr g ↦ absurd (ground arith)
  ]
]

moved-IsValid : IsValid [] moved
unfolding text_lt
moved-IsValid = record {
  owned = record {
    one_owner = λ q. ground arith;
    null_dead = refl;
    fresh = λ q h. ground (arith, h);
    started = omega arith;
    lock_free = refl;
    bounded = omega arith;
  };
  sorted = ((refl, tt), (tt, tt));
  keyed = keyed_moved;
}

same_view : (pk : Text) → view two_online pk ≡ view moved pk
unfolding find
same_view pk = ground arith

random_member-view_example :
    Returns
      (λ q n.
        Returns (λ q' n'. n.free_list.cell q ≡ n'.free_list.cell q') (random_member ann 7 moved))
      (random_member ann 7 two_online)
random_member-view_example =
    random_member-view two_online-IsValid moved-IsValid ann 7 (λ k n. same_view k)
