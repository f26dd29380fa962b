-- ===== src/MemberMgr/Objects.antt =====
-- `allocate`, and the setters through a pointer.
use find_friend_bot.Base.{
  ◌≡◌, ◌≢◌, ◌⊎◌, refl, ◌∙◌, some, List, ◌∷◌, ◌++◌, Text, false, arith, count, count-append, ok,
  Returns, returns, returned, inl, inr, Bool-cases, ◌==◌,
}
use find_friend_bot.Map.{find, values}
use find_friend_bot.Map.Laws.{count-values-erase}
use find_friend_bot.LockedQueue.{Ptr, null, Locking, Pool, write}
use find_friend_bot.LockedQueue.Ownership.{
  Owned-count, SameBut, Allocated, allocate-Owned, held_live,
}
use find_friend_bot.Member.{Member, clear_member, blank_member, pooled_member}
use find_friend_bot.MemberMgr.{MemberMgr, allocate, modify}
use find_friend_bot.MemberMgr.Invariant.{IsValid}

pub modify_eq :
    (f : Member → Member) (q : Ptr) (m : MemberMgr) (a : Member)
    → q ≢ null
    → m.free_list.cell q ≡ some a
    → modify f q m
      ≡ ok tt (record m {
        free_list = record (m.free_list) { cell = write m.free_list.cell q (some (f a)) };
      })
unfolding modify
modify_eq f q m a n e = ground arith

-- What a write through `q` leaves: the new object, and all else as it was.
abbrev pub Modified : (Member → Member) → Ptr → Member → List Ptr → MemberMgr → MemberMgr → Type 0
Modified f q a loose m m' =
    IsValid loose m'
    × (m'.free_list.cell q ≡ some (f a))
    × SameBut q m.free_list m'.free_list
    × (m'.online_member ≡ m.online_member)

module _ {m : MemberMgr} {loose : List Ptr} (v : IsValid loose m) where
  pub count_of_find :
      (pk : Text) {r : Ptr}
      → find pk m.online_member ≡ some r
      → count r (values m.online_member) ≢ 0
  count_of_find pk {r} e = ground (arith, count-values-erase r pk m.online_member e)

  keyed_modified :
      (f : Member → Member) (q : Ptr) {a : Member}
      → m.free_list.cell q ≡ some a
      → ((f a).pk ≡ a.pk) ⊎ (count q loose ≢ 0)
      → (pk : Text) (r : Ptr) → find pk m.online_member ≡ some r
      → (b : Member) × (write m.free_list.cell q (some (f a)) r ≡ some b) × (b.pk ≡ pk)
  keyed_modified f q {a} e h pk r g =
      let (b, c, same) = v.keyed pk r g in
      elim (Bool-cases (r == q)) [
        | inl at ↦
            let key_kept : (f a).pk ≡ a.pk = elim h [
              | inl k ↦ k
              | inr n ↦ absurd (
                  ground (
                    arith,
                    v.owned.one_owner r,
                    count_of_find pk g,
                    count-append r (values m.online_member) loose,
                  ))
            ] in
            (f a, rw at refl, ground arith)
        | inr off ↦ (b, rw off c, same)
      ]

  -- A setter keeps the invariant if it keeps the key, or if the object is not online.
  pub modify-IsValid :
      (f : Member → Member) (q : Ptr) {a : Member}
      → m.free_list.cell q ≡ some a
      → ((f a).pk ≡ a.pk) ⊎ (count q loose ≢ 0)
      → Returns (λ _. Modified f q a loose m) (modify f q m)
  modify-IsValid f q {a} e h = rw (modify_eq f q m a (λ z. ground (arith, v.owned.null_dead)) e) (
      returns (
        record {
          owned = record {
            one_owner = λ r. ground (arith, v.owned.one_owner r);
            null_dead = ground (arith, v.owned.null_dead);
            fresh = λ r l. ground (arith, v.owned.fresh r);
            started = v.owned.started;
            lock_free = v.owned.lock_free;
            bounded = v.owned.bounded;
          };
          sorted = v.sorted;
          keyed = keyed_modified f q e h;
        },
        ground arith,
        λ r n. ground arith,
        refl,
      ))

-- What `allocate` promises: a blank object that nobody else has, and all else as it was.
abbrev pub Fresh : MemberMgr → List Ptr → Ptr → MemberMgr → Type 0
Fresh m loose q m' =
    IsValid (q ∷ loose) m'
    × (m'.free_list.cell q ≡ some blank_member)
    × SameBut q m.free_list m'.free_list
    × (m'.online_member ≡ m.online_member)

module _ (k : Locking) {m : MemberMgr} {loose : List Ptr} (v : IsValid loose m) where
  allocated :
      {q : Ptr} (p : Pool Member)
      → Allocated m.free_list (values m.online_member ++ loose) q p
      → IsValid (q ∷ loose) (record m { free_list = p })
  allocated {q} p (o, unused, n, same) = record {
    owned =
        Owned-count
          (λ r. ground (
            arith,
            count-append r (values m.online_member) loose,
            count-append r (values m.online_member) (q ∷ loose),
          ))
          o;
    sorted = v.sorted;
    keyed = λ pk r g.
        let (b, c, key) = v.keyed pk r g in
        (
          b,
          same r (λ z.
                ground (arith, count_of_find v pk g, count-append q (values m.online_member) loose))
              ∙ c,
          key,
        );
  }

  pub allocate-Fresh : Returns (Fresh m loose) (allocate k m)
  unfolding allocate
  allocate-Fresh =
      let (q, p, ran, h) = returned (allocate-Owned k v.owned) in
      let (_, live) = held_live k h.0 in
      let some_object : (q == null) ≡ false = ground (arith, h.2) in
      let (_, x, cleared, w) =
        returned (modify-IsValid (allocated p h) clear_member q live.1 (inr (ground arith))) in
      rw (ran, some_object, cleared) (returns (w.0, w.1, λ r n. w.2 r n ∙ h.3 r n, w.3))
