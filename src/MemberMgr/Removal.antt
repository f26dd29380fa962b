-- ===== src/MemberMgr/Removal.antt =====
-- `del_member` and the destructor.
use find_friend_bot.Base.{
  ◌≡◌, ◌≢◌, refl, ◌∙◌, none, some, List, [], ◌∷◌, ◌++◌, Text, text_eq, text_eq_iff, text_eq_refl,
  if◌then◌else◌, false, arith, count-append, ok, Returns, returns, returned, Option-cases, inl, inr,
  ◌>>◌, ◌==◌,
}
use find_friend_bot.Map.{find, erase, values}
use find_friend_bot.Map.Laws.{find-erase, erase-IsSorted, count-values-erase}
use find_friend_bot.LockedQueue.{Ptr, null, Locking, Pool}
use find_friend_bot.LockedQueue.Ownership.{Owned, Owned-count, SameBut, Deallcated, deallcate-Owned}
use find_friend_bot.Member.{Member, max_pool_size, pooled_member}
use find_friend_bot.MemberMgr.{MemberMgr, del_member, deallcate, erase_entry, destroy_each, destroy}
use find_friend_bot.MemberMgr.Invariant.{IsValid}

-- What `del_member` promises: the entry is gone, the others and their objects are as they were.
abbrev pub Deleted : MemberMgr → List Ptr → Text → MemberMgr → Type 0
Deleted m loose key m' =
    IsValid loose m'
    × ((pk : Text)
        → find pk m'.online_member ≡ (if text_eq key pk then none else find pk m.online_member))
    × ((pk : Text) (q : Ptr)
        → find pk m'.online_member ≡ some q
        → m'.free_list.cell q ≡ m.free_list.cell q)

module _ {m : MemberMgr} {loose : List Ptr} (v : IsValid loose m) where
  pub online_ne_null : (key : Text) {q : Ptr} → find key m.online_member ≡ some q → q ≢ null
  online_ne_null key {q} e =
      let (a, c, _) = v.keyed key q e in λ z. ground (arith, v.owned.null_dead)

  -- Two keys have two objects.
  online_ne :
      (key pk : Text) {q r : Ptr}
      → find key m.online_member ≡ some q
      → find pk m.online_member ≡ some r
      → text_eq key pk ≡ false
      → r ≢ q
  online_ne key pk {q} {r} e f n =
      let (a, c, h) = v.keyed key q e in
      let (b, d, g) = v.keyed pk r f in λ z. ground (arith, text_eq_iff key pk)

  kept_object :
      (key pk : Text) {q r : Ptr} (p : Pool Member)
      → find key m.online_member ≡ some q
      → SameBut q m.free_list p
      → find pk (erase key m.online_member) ≡ some r
      → (find pk m.online_member ≡ some r) × (p.cell r ≡ m.free_list.cell r)
  kept_object key pk {q} {r} p e same f =
      let was : (find pk m.online_member ≡ some r) × (text_eq key pk ≡ false) = (
        ground (arith, find-erase pk key m.online_member v.sorted),
        ground (arith, find-erase pk key m.online_member v.sorted),
      ) in
      (was.0, same r (online_ne key pk e was.0 was.1))

  erased :
      (key : Text) {q : Ptr} (p : Pool Member)
      → find key m.online_member ≡ some q
      → Deallcated m.free_list q (values (erase key m.online_member) ++ loose) p
      → Deleted m loose key (record { online_member = erase key m.online_member; free_list = p })
  erased key {q} p e (o, same) = (
    record {
      owned = o;
      sorted = erase-IsSorted key m.online_member v.sorted;
      keyed = λ pk r f.
          let (was, c) = kept_object key pk p e same f in
          let (b, d, g) = v.keyed pk r was in (b, c ∙ d, g);
    },
    λ pk. find-erase pk key m.online_member v.sorted,
    λ pk r f. (kept_object key pk p e same f).1,
  )

module _ (k : Locking) {m : MemberMgr} {loose : List Ptr} (v : IsValid loose m) where
  Owned-first :
      (key : Text) {q : Ptr}
      → find key m.online_member ≡ some q
      → Owned max_pool_size m.free_list (q ∷ values (erase key m.online_member) ++ loose)
  Owned-first key {q} e =
      Owned-count
        (λ r. ground (
          arith,
          count-append r (values m.online_member) loose,
          count-append r (values (erase key m.online_member)) loose,
          count-values-erase r key m.online_member e,
        ))
        v.owned

  remove_entry :
      (key : Text) {q : Ptr}
      → find key m.online_member ≡ some q
      → (p : Pool Member) × ((deallcate k q >> erase_entry k key) m
          ≡ ok tt (record { online_member = erase key m.online_member; free_list = p }))
        × Deleted m loose key (record { online_member = erase key m.online_member; free_list = p })
  unfolding deallcate erase_entry
  remove_entry key {q} e =
      let (u, p, ran, h) = returned (deallcate-Owned k (Owned-first key e)) in
      (p, rw ran, erased v key p e h)

  -- In a valid manager `del_member` ends without a fault and keeps the manager valid, so that the
  -- object is back in the pool or deleted; the key is offline, and every other entry and its object
  -- are as they were.
  pub del_member-IsValid : (key : Text) → Returns (λ _. Deleted m loose key) (del_member k key m)
  unfolding del_member
  del_member-IsValid key = elim (Option-cases (find key m.online_member)) [
    | inl e ↦
        rw (e, del_member) (returns (v, λ pk. ground (arith, text_eq_iff key pk), λ pk q f. refl))
    | inr (q, e) ↦
        let some_object : (q == null) ≡ false = ground (arith, online_ne_null v key e) in
        let (p, ran, h) = remove_entry key e in rw (e, del_member, some_object, ran) (returns h)
  ]

-- The loop of the destructor, from a map whose entries are those that are left.
module _ (k : Locking) {loose : List Ptr} where
  destroy_each-IsValid :
      (rest : List (Text × Ptr)) (m : MemberMgr)
      → IsValid loose m
      → m.online_member ≡ rest
      → Returns (λ _ m'. IsValid loose m' × (m'.online_member ≡ [])) (destroy_each k rest m)
  unfolding destroy_each find erase
  destroy_each-IsValid [] m v e = returns (v, e)
  destroy_each-IsValid ((key, q) ∷ rest) m v e =
      let here : find key m.online_member ≡ some q = rw (e, find, text_eq_refl key) refl in
      let left : erase key m.online_member ≡ rest = rw (e, erase, text_eq_refl key) refl in
      let some_object : (q == null) ≡ false = ground (arith, online_ne_null v key here) in
      let (p, ran, h) = remove_entry k v key here in
      rw (some_object, ran) (destroy_each-IsValid rest _ h.0 left)

  -- From a valid manager the destructor ends without a fault, with no member online and the manager
  -- valid.
  pub destroy-IsValid :
      {m : MemberMgr}
      → IsValid loose m
      → Returns (λ _ m'. IsValid loose m' × (m'.online_member ≡ [])) (destroy k m)
  unfolding destroy
  destroy-IsValid {m} v = destroy_each-IsValid m.online_member m v refl
