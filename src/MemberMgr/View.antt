-- ===== src/MemberMgr/View.antt =====
-- What a client of the manager sees: a finite map from public keys to members, without pointers.
use find_friend_bot.Base.{
  ◌≡◌, ◌≢◌, refl, sym, ◌∙◌, ap, false, none, some, Option, List, Text, text_eq, text_eq_iff,
  if◌then◌else◌, arith, Returns, Returns-mono, Option-cases, Bool-cases, inl, inr,
}
use find_friend_bot.Map.{find}
use find_friend_bot.LockedQueue.{Ptr, Locking}
use find_friend_bot.Member.{Member}
use find_friend_bot.MemberMgr.{MemberMgr, del_member}
use find_friend_bot.MemberMgr.Invariant.{IsValid}
use find_friend_bot.MemberMgr.Filling.{Joined, Joined-taken, Joined-free}
use find_friend_bot.MemberMgr.Removal.{Deleted, del_member-IsValid}

abbrev pub deref : MemberMgr → Option Ptr → Option Member
deref m none = none
deref m (some q) = m.free_list.cell q

-- The member with a key, as its object is now.
abbrev pub view : MemberMgr → Text → Option Member
view m pk = deref m (find pk m.online_member)

abbrev pub or_else : Option Member → Option Member → Option Member
or_else none b = b
or_else (some a) b = some a

pub Deleted-view :
    (m m' : MemberMgr) (loose : List Ptr) (key : Text)
    → Deleted m loose key m'
    → (pk : Text) → view m' pk ≡ (if text_eq key pk then none else view m pk)
Deleted-view m m' loose key (v, entries, objects) pk =
    elim (Option-cases (find pk m'.online_member)) [
      | inl e ↦ elim (Bool-cases (text_eq key pk)) [
        | inl same ↦ rw (e, same) refl
        | inr other ↦
            let gone : find pk m.online_member ≡ none = ground (arith, entries pk, e, other) in
            rw (e, other, gone) refl
      ]
      | inr (q, e) ↦ elim (Bool-cases (text_eq key pk)) [
        | inl same ↦ absurd (ground (arith, entries pk, e, same))
        | inr other ↦
            let was : find pk m.online_member ≡ some q = ground (arith, entries pk, e, other) in
            rw (e, other, was) (objects pk q e)
      ]
    ]

-- In a valid manager, seen as a map from keys to members, `del_member` removes the key and nothing
-- else.
pub del_member-view :
    (k : Locking) {m : MemberMgr} {loose : List Ptr}
    → IsValid loose m
    → (key : Text)
    → Returns
        (λ _ m'. (pk : Text) → view m' pk ≡ (if text_eq key pk then none else view m pk))
        (del_member k key m)
del_member-view k {m} {loose} v key =
    Returns-mono (del_member-IsValid k v key) λ _ m' d. Deleted-view m m' loose key d

module _ {m m' : MemberMgr} {loose : List Ptr} {q : Ptr} {a : Member}
    (j : Joined m loose q a m') where
  other_object :
      (pk : Text) {r : Ptr} → find pk m'.online_member ≡ some r → text_eq a.pk pk ≡ false → r ≢ q
  other_object pk {r} e n =
      let (b, c, key) = j.valid.keyed pk r e in λ z. ground (arith, j.object, text_eq_iff a.pk pk)

  at_key : view m' a.pk ≡ or_else (view m a.pk) (some a)
  at_key = elim (Option-cases (find a.pk m.online_member)) [
    | inl free ↦ let (_, there, object) = Joined-free j free in rw (there, free) object
    | inr (old, taken) ↦
        let (there, same, _, _, _) = Joined-taken j taken in
        let (b, live, _) = j.valid.keyed a.pk old there in
        let before : m.free_list.cell old ≡ some b = sym same ∙ live in
        rw (there, taken, before, live) refl
  ]

  at_other : (pk : Text) → text_eq a.pk pk ≡ false → view m' pk ≡ view m pk
  at_other pk n = elim (Option-cases (find pk m.online_member)) [
    | inl e ↦
        let gone : find pk m'.online_member ≡ none = ground (arith, j.directory pk, n, e) in
        rw (e, gone) refl
    | inr (r, e) ↦
        let there : find pk m'.online_member ≡ some r = ground (arith, j.directory pk, n, e) in
        rw (e, there) (j.others r (other_object pk there n))
  ]

  -- The map behind `add_member`: the key keeps its member if it has one.
  pub Joined-view :
      (pk : Text)
      → view m' pk ≡ (if text_eq a.pk pk then or_else (view m a.pk) (some a) else view m pk)
  Joined-view pk = elim (Bool-cases (text_eq a.pk pk)) [
    | inl same ↦
        let key : a.pk ≡ pk = (text_eq_iff a.pk pk).0 same in
        rw same (ap (view m') (sym key) ∙ at_key)
    | inr n ↦ rw n (at_other pk n)
  ]
