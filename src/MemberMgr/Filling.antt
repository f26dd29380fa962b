-- ===== src/MemberMgr/Filling.antt =====
-- A new object, field by field, and then put online.
use find_friend_bot.Base.{
  ◌≡◌, ◌∙◌, none, some, List, ◌∷◌, Text, text_eq, text_eq_refl, subst, count-append, if◌then◌else◌,
  arith, count, Returns, Returns-mono, inr,
}
use find_friend_bot.Map.{find, values}
use find_friend_bot.LockedQueue.{Ptr, Locking}
use find_friend_bot.LockedQueue.Ownership.{SameBut}
use find_friend_bot.Member.{Member, blank_member}
use find_friend_bot.MemberMgr.{MemberMgr, allocate, modify, add_member}
use find_friend_bot.MemberMgr.Invariant.{IsValid, left_over, now_online, add_member-IsValid}
use find_friend_bot.MemberMgr.Objects.{allocate-Fresh, modify-IsValid, count_of_find}

-- The object `q` of the caller holds `a`, and all else is as it was in `m`.
pub record Filled (m : MemberMgr) (loose : List Ptr) (q : Ptr) (a : Member) (m' : MemberMgr)
    : Type 0 where
  pub valid : IsValid (q ∷ loose) m'
  pub object : m'.free_list.cell q ≡ some a
  pub others : SameBut q m.free_list m'.free_list
  pub online : m'.online_member ≡ m.online_member

pub allocate-Filled :
    (k : Locking) {m : MemberMgr} {loose : List Ptr}
    → IsValid loose m
    → Returns (λ q. Filled m loose q blank_member) (allocate k m)
allocate-Filled k v =
    Returns-mono (allocate-Fresh k v)
      λ q m' h. record { valid = h.0; object = h.1; others = h.2; online = h.3 }

pub modify-Filled :
    (f : Member → Member) {m m' : MemberMgr} {loose : List Ptr} {q : Ptr} {a : Member}
    → Filled m loose q a m'
    → Returns (λ _ s. Filled m loose q (f a) s) (modify f q m')
modify-Filled f {q} h =
    Returns-mono (modify-IsValid h.valid f q h.object (inr (ground arith))) λ _ s w. record {
      valid = w.0;
      object = w.1;
      others = λ r n. w.2 r n ∙ h.others r n;
      online = w.3 ∙ h.online;
    }

-- The object `q`, which holds `a`, was offered under the key of `a`: it is the member's object now
-- if the key was not online, and with nobody if it was.
pub record Joined (m : MemberMgr) (loose : List Ptr) (q : Ptr) (a : Member) (m' : MemberMgr)
    : Type 0 where
  pub valid : IsValid (left_over (find a.pk m.online_member) q loose) m'
  pub object : m'.free_list.cell q ≡ some a
  pub others : SameBut q m.free_list m'.free_list
  pub directory :
      (pk : Text)
      → find pk m'.online_member ≡ (
          if text_eq a.pk pk
          then now_online (find a.pk m.online_member) q
          else find pk m.online_member)

pub add_member-Joined :
    {m m' : MemberMgr} {loose : List Ptr} {q : Ptr} {a : Member}
    → Filled m loose q a m'
    → Returns (λ _ s. Joined m loose q a s) (add_member q m')
add_member-Joined {m} {m'} {loose} {q} {a} h =
    Returns-mono (add_member-IsValid h.valid h.object) λ _ s w. record {
      valid = rw h.online at (w.0);
      object = rw w.2 h.object;
      others = λ r n. rw w.2 (h.others r n);
      directory = λ pk. rw h.online at (w.1 pk);
    }

-- Where the key was taken, its object is as it was, and the one that was offered is live and in
-- nobody's hands.
module _ {m m' : MemberMgr} {loose : List Ptr} {q old : Ptr} {a : Member}
    (j : Joined m loose q a m') (taken : find a.pk m.online_member ≡ some old) where
  lost_valid : IsValid (q ∷ loose) m'
  lost_valid = subst (λ o. IsValid (left_over o q loose) m') taken j.valid

  lost_counts : (count q (values m'.online_member) ≡ 0) × (count q m'.free_list.free_list ≡ 0)
  lost_counts = (
    ground (
      arith,
      lost_valid.owned.one_owner q,
      j.object,
      count-append q (values m'.online_member) (q ∷ loose),
    ),
    ground (
      arith,
      lost_valid.owned.one_owner q,
      j.object,
      count-append q (values m'.online_member) (q ∷ loose),
    ),
  )

  still_there : find a.pk m'.online_member ≡ some old
  still_there = ground (arith, j.directory a.pk, text_eq_refl a.pk)

  pub Joined-taken :
      (find a.pk m'.online_member ≡ some old)
      × (m'.free_list.cell old ≡ m.free_list.cell old)
      × (m'.free_list.cell q ≡ some a)
      × (count q (values m'.online_member) ≡ 0)
      × (count q m'.free_list.free_list ≡ 0)
  Joined-taken = (
    still_there,
    j.others old (λ z. ground (arith, count_of_find lost_valid a.pk still_there, lost_counts.0)),
    j.object,
    lost_counts.0,
    lost_counts.1,
  )

-- Where it was free, the object is the member's.
pub Joined-free :
    {m m' : MemberMgr} {loose : List Ptr} {q : Ptr} {a : Member}
    → Joined m loose q a m'
    → find a.pk m.online_member ≡ none
    → IsValid loose m' × (find a.pk m'.online_member ≡ some q) × (m'.free_list.cell q ≡ some a)
Joined-free {m} {m'} {loose} {q} {a} j free = (
  subst (λ o. IsValid (left_over o q loose) m') free j.valid,
  ground (arith, j.directory a.pk, text_eq_refl a.pk),
  j.object,
)
