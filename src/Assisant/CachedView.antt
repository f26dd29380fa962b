-- ===== src/Assisant/CachedView.antt =====
-- The cached objects as a directory: a map from keys to the members that are online.
use mathlib.Core.Option
use mathlib.Core.Option.{some-injective}
use find_friend_bot.Base.{
  ◌≡◌, ◌≢◌, refl, sym, ap, ◌∙◌, false, Option, some, List, Text, text_eq, text_eq_iff, arith,
  Option-cases, Bool-cases, inl, inr, if◌then◌else◌,
}
use find_friend_bot.Map.{find}
use find_friend_bot.LockedQueue.{Ptr}
use find_friend_bot.Member.{Member}
use find_friend_bot.MemberMgr.{MemberMgr}
use find_friend_bot.MemberMgr.Invariant.{IsValid}
use find_friend_bot.MemberMgr.View.{view}
use find_friend_bot.Assisant.Answers.{Cached}

abbrev pub Directory : Type 0
Directory = Text → Option Member

abbrev pub put : Text → Option Member → Directory → Directory
put key a d pk = if text_eq key pk then a else d pk

-- A change of the cached object, seen in the map.
module _ (key : Text) (change : Member → Member) {m m' : MemberMgr} {loose : List Ptr}
    (v : IsValid loose m) (c : Cached key change loose m m') where
  at_key : view m' key ≡ Option.map change (view m key)
  at_key = elim (Option-cases (find key m.online_member)) [
    | inl e ↦ rw (c.1, e) refl
    | inr (q, e) ↦ let (a, live, _) = v.keyed key q e in rw (c.1, e, c.2 q a e live, live) refl
  ]

  -- Two keys have two objects.
  elsewhere_found :
      (pk : Text) {r : Ptr}
      → find pk m.online_member ≡ some r
      → text_eq key pk ≡ false
      → find key m.online_member ≢ some r
  elsewhere_found pk {r} e n f =
      let (a, live, mine) = v.keyed pk r e in
      let (b, there, yours) = v.keyed key r f in
      let same : a ≡ b = some-injective a b (sym live ∙ there) in
      let keys : key ≡ pk = sym yours ∙ ap (λ x. x.pk) (sym same) ∙ mine in
      ground (arith, (text_eq_iff key pk).1 keys)

  at_other : (pk : Text) → text_eq key pk ≡ false → view m' pk ≡ view m pk
  at_other pk n = elim (Option-cases (find pk m.online_member)) [
    | inl e ↦ rw (c.1, e) refl
    | inr (r, e) ↦ rw (c.1, e) (c.3 r (elsewhere_found pk e n))
  ]

  pub Cached-view : (pk : Text) → view m' pk ≡ put key (Option.map change (view m key)) (view m) pk
  Cached-view pk = elim (Bool-cases (text_eq key pk)) [
    | inl e ↦
        let first : key ≡ pk = (text_eq_iff key pk).0 e in rw e (ap (view m') (sym first) ∙ at_key)
    | inr e ↦ rw e (at_other pk e)
  ]
