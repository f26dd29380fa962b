-- ===== src/Assisant/Answers.antt =====
-- `/stop`, `/set` and `/get` where the database is up.
use mathlib.Core.Option
use mathlib.Core.Option.{some-injective}
use find_friend_bot.Base.{
  length, Bool-cases, ◌==◌, ok, ℕ, ◌≡◌, ◌≢◌, refl, ap, sym, ◌∙◌, Bool, true, false, not, List, [],
  ◌∷◌, none, some, Option, Text, c_str, ◌==◌, arith, Returns, returns, Returns-mono, returned,
  Option-cases, inl, inr, ◌⊎◌, is_some, if◌then◌else◌, subst,
}
use find_friend_bot.Map.{find, erase}
use find_friend_bot.LockedQueue.{Ptr, null}
use find_friend_bot.Member.{Member, set_signature}
use find_friend_bot.MemberMgr.{MemberMgr, find_member, second_or_null}
use find_friend_bot.MemberMgr.Invariant.{IsValid}
use find_friend_bot.MemberMgr.Objects.{modify-IsValid}
use find_friend_bot.MemberMgr.Removal.{Deleted, online_ne_null, del_member-IsValid}
use find_friend_bot.MemberMgr.Lookup.{random_member-IsOther, IsOther}
use find_friend_bot.Sql.{Row, fits, set_signature_where}
use find_friend_bot.Sql.Healthy.{Healthy, signed}
use find_friend_bot.DbConn.Laws.{IsReady}
use find_friend_bot.MemberModel.Table.{del_friend-row, update_friend_signature-row}
use find_friend_bot.World.{Env, World, SameOutside}
use find_friend_bot.Assisant.Commands.{
  draw, cmd_stop, cmd_set, set_as, set_cached, cmd_get, formatted,
}
use find_friend_bot.Assisant.Start.{IsRunning, key_of}

-- The cached object of a user, if there is one, was changed; all else is as it was.
abbrev pub Cached : Text → (Member → Member) → List Ptr → MemberMgr → MemberMgr → Type 0
Cached pk change loose m m' =
    IsValid loose m'
    × (m'.online_member ≡ m.online_member)
    × ((q : Ptr) (a : Member)
        → find pk m.online_member ≡ some q
        → m.free_list.cell q ≡ some a
        → m'.free_list.cell q ≡ some (change a))
    × ((r : Ptr) → find pk m.online_member ≢ some r → m'.free_list.cell r ≡ m.free_list.cell r)

pub set_cached-Cached :
    (m : MemberMgr) (loose : List Ptr) (pk : Text) (change : Member → Member)
    → ((a : Member) → (change a).pk ≡ a.pk)
    → IsValid loose m
    → Returns
        (λ _. Cached pk change loose m)
        (set_cached (second_or_null (find pk m.online_member)) change m)
unfolding set_cached
set_cached-Cached m loose pk change key_kept v = elim (Option-cases (find pk m.online_member)) [
  | inl e ↦ rw e (returns (v, refl, (λ q a f c. absurd (cc)), λ r n. refl))
  | inr (q, e) ↦
      let (b, c, key) = v.keyed pk q e in
      let some_object : (q == null) ≡ false = ground (arith, online_ne_null v pk e) in
      rw (e, some_object)
        (Returns-mono (modify-IsValid v change q c (inl (key_kept b))) λ _ m' w. (
          w.0,
          w.3,
          (λ q' a f g.
              let same_place : q ≡ q' = ground (arith) in
              let same_object : b ≡ a =
                some-injective b a (sym c ∙ ap m.free_list.cell same_place ∙ g) in
              subst (λ x. m'.free_list.cell x ≡ some (change a)) same_place
                (rw (sym same_object) w.1)),
          λ r n. w.2 r (λ z. n (rw z e)),
        ))
]

cond_reply : (n : ℕ) (b : Bool) → n ≡ (if b then 1 else 0) → not (n == 0) ≡ b
cond_reply n b e = ground arith

module _ {T S : Type 0} (env : Env T S) {rows : S → Text → Option Row}
    (h : Healthy env.sql rows) where
  -- Where the database is up and the process is running, `/stop` takes the user offline and removes
  -- the row; it replies only if there was a row.
  pub cmd_stop-Deleted :
      (friend_number : ℕ) (w : World T S) {loose : List Ptr}
      → IsRunning env loose w
      → Returns
          (λ reply w'.
            (reply ≡ (
              is_some (rows w.store.db.server (c_str (key_of env friend_number w))),
              env.conf.desc_stop,
            ))
            × SameOutside w w'
            × IsReady w'.store.db.pool
            × Deleted w.store.member_mgr loose (key_of env friend_number w) w'.store.member_mgr
            × (rows w'.store.db.server (c_str (key_of env friend_number w)) ≡ none))
          (cmd_stop env friend_number w)
  unfolding cmd_stop
  cmd_stop-Deleted friend_number w v =
      let pk = key_of env friend_number w in
      let (u, m, ran, gone) = returned (del_member-IsValid env.locking v.valid pk) in
      let (n, d, ran', row) = returned (del_friend-row h env.locking pk w.store.db v.ready) in
      rw (ran, ran')
        (returns (
          cc (cond_reply n (is_some (rows w.store.db.server (c_str pk))) row.2),
          (refl, refl, refl, refl, refl),
          row.0,
          gone,
          row.1,
        ))

  -- Where the database is up and the process is running, `/set` with a text puts it, up to a NUL,
  -- and the time into the row of the user, if it fits, and the text into the cached object; it does not reply if
  -- there is no row.
  pub cmd_set-Signed :
      (friend_number c : ℕ) (cs : Text) (w : World T S) {loose : List Ptr}
      → IsRunning env loose w
      → Returns
          (λ reply w'.
            let pk = key_of env friend_number w in
            let row = rows w.store.db.server (c_str pk) in
            (reply.1 ≡ env.conf.desc_set)
            × SameOutside w w'
            × (row ≡ none → reply.0 ≡ false)
            × IsReady w'.store.db.pool
            × (fits (set_signature_where (c_str (c ∷ cs)) (env.tox.unixtime w.network) (c_str pk))
                  ≡ true
                → rows w'.store.db.server (c_str pk)
                  ≡ Option.map (signed (c_str (c ∷ cs)) (env.tox.unixtime w.network)) row)
            × Cached pk (set_signature (c ∷ cs)) loose w.store.member_mgr w'.store.member_mgr)
          (cmd_set env friend_number (c ∷ cs) w)
  unfolding cmd_set set_as find_member
  cmd_set-Signed friend_number c cs w {loose} v =
      let pk = key_of env friend_number w in
      let now = env.tox.unixtime w.network in
      let (u, m, ran, cached) = returned (
        set_cached-Cached w.store.member_mgr loose pk (set_signature (c ∷ cs)) (λ a. refl)
          v.valid) in
      let (n, d, ran', row) =
        returned (update_friend_signature-row h env.locking pk (c ∷ cs) now w.store.db v.ready) in
      rw (ran, ran')
        (returns (
          refl,
          (refl, refl, refl, refl, refl),
          λ none_there. rw (row.2 none_there) refl,
          row.0,
          row.1,
          cached,
        ))

module _ {T S : Type 0} (env : Env T S) where
  draw_lem :
      (pk : Text) (w : World T S)
      → (r : ℕ) × (t : T) × (draw env pk w ≡ ok r (record w { network = t }))
  unfolding draw
  draw_lem pk w = elim (Bool-cases (length (erase pk w.store.member_mgr.online_member) == 0)) [
    | inl e ↦ rw e (0, w.network, refl)
    | inr e ↦ rw e (_, _, refl)
  ]

  -- In a running process whose format for it fits, `/get` replies with the values of another online
  -- member than the one who asks, or with the text for nobody only if there is no other; it changes
  -- neither the store nor what is outside.
  pub cmd_get-IsOther :
      (friend_number : ℕ) (w : World T S) {loose : List Ptr}
      → ((a b c d : Text)
          → (msg : Text) × (env.boost.format env.conf.desc_get (a ∷ b ∷ c ∷ d ∷ []) ≡ some msg))
      → (v : IsRunning env loose w)
      → let pk = key_of env friend_number w in
        Returns
          (λ reply w'.
            (w'.store ≡ w.store)
            × SameOutside w w'
            × (reply.0 ≡ true)
            × (((reply.1 ≡ env.conf.desc_get_none)
                  × (erase pk w.store.member_mgr.online_member ≡ []))
                ⊎ ((q : Ptr) × (other : IsOther v.valid pk q) × (env.boost.format env.conf.desc_get
                        (other.1.nick_name ∷ other.1.bio ∷ other.1.signature ∷ other.1.tok_id ∷ [])
                      ≡ some reply.1))))
          (cmd_get env friend_number w)
  unfolding cmd_get formatted
  cmd_get-IsOther friend_number w shown v =
      let pk = key_of env friend_number w in
      let (r, t, drew) = draw_lem pk w in
      let (q, m, ran, z) = returned (random_member-IsOther v.valid pk r) in
      elim z.1 [
        | inl (empty_hand, alone) ↦
            rw (drew, ran, empty_hand)
              (returns (
                ap (λ x. record (w.store) { member_mgr = x }) z.0,
                (refl, refl, refl, refl, refl),
                refl,
                inl (refl, alone),
              ))
        | inr other ↦
            let (msg, e) = shown other.1.nick_name other.1.bio other.1.signature other.1.tok_id in
            let some_object : (q == null) ≡ false =
              ground (arith, v.valid.owned.null_dead, other.4) in
            rw (drew, ran, z.0, some_object, other.4, some_object, formatted, e)
              (returns (refl, (refl, refl, refl, refl, refl), refl, inr (q, other, e)))
      ]
