-- ===== src/Assisant/Presence.antt =====
-- A friend comes online or goes offline.
use find_friend_bot.Base.{
  ℕ, ◌≡◌, refl, sym, subst, false, List, Option, none, some, Text, c_str, ◌==◌, arith, Returns,
  returns, Returns-bind, Returns-mono, returned, Option-cases, inl, inr,
}
use find_friend_bot.LockedQueue.{Ptr, null}
use find_friend_bot.MemberMgr.{MemberMgr}
use find_friend_bot.MemberMgr.Filling.{Joined, add_member-Joined}
use find_friend_bot.MemberMgr.Removal.{Deleted, del_member-IsValid}
use find_friend_bot.Sql.{Row}
use find_friend_bot.Sql.Healthy.{Healthy}
use find_friend_bot.DbConn.Laws.{IsReady}
use find_friend_bot.MemberModel.{Store}
use find_friend_bot.MemberModel.Fetch.{Fetched, member_in, find_friend-Fetched}
use find_friend_bot.World.{Env, World}
use find_friend_bot.Assisant.Files.{send_avatar, offer_avatar}
use find_friend_bot.Assisant.Avatar.{AvatarFits, load_avatar-fits}
use find_friend_bot.Assisant.Callbacks.{
  welcome, Connection, connection_none, connection_tcp, connection_udp, came_online,
  tox_friend_connection_status_callback,
}
use find_friend_bot.Assisant.Start.{IsRunning, key_of}

module _ {T S : Type 0} (env : Env T S) where
  -- What the avatar's offer leaves alone.
  abbrev pub Offered : World T S → World T S → Type 0
  Offered w w' =
      (w'.store ≡ w.store)
      × (w'.writable ≡ w.writable)
      × (w'.files ≡ w.files)
      × (w'.sent ≡ w.sent)
      × AvatarFits w'.avatar_data w'.avatar_data_size

  offer_avatar-Offered :
      (friend_number : ℕ) (w : World T S)
      → AvatarFits w.avatar_data w.avatar_data_size
      → Returns (λ _. Offered w) (offer_avatar env friend_number w)
  unfolding offer_avatar
  offer_avatar-Offered friend_number w fits = elim (Option-cases w.avatar_data) [
    | inl e ↦ rw e (returns (refl, refl, refl, refl, rw e at fits))
    | inr (bytes, e) ↦ rw e (returns (refl, refl, refl, refl, rw e at fits))
  ]

  send_avatar-Offered :
      (friend_number : ℕ) (w : World T S)
      → AvatarFits w.avatar_data w.avatar_data_size
      → Returns (λ _. Offered w) (send_avatar env friend_number w)
  unfolding send_avatar
  send_avatar-Offered friend_number w fits =
      Returns-bind (load_avatar-fits env w fits) λ _ loaded (b, n, e, loaded_fits, _). rw e (
        offer_avatar-Offered friend_number (record w { avatar_data = b; avatar_data_size = n })
          loaded_fits)

  module _ {rows : S → Text → Option Row} (h : Healthy env.sql rows) where
    -- The member with the row of a user, offered to the cache; nothing where there is no row.
    abbrev pub Welcomed : Option Row → List Ptr → MemberMgr → MemberMgr → Type 0
    Welcomed none loose m m' = m' ≡ m
    Welcomed (some row) loose m m' = (q : Ptr) × Joined m loose q (member_in row) m'

    abbrev pub Present : Connection → Option Row → Text → List Ptr → MemberMgr → MemberMgr → Type 0
    Present connection_none row pk loose m m' = Deleted m loose pk m'
    Present connection_tcp row pk loose m m' = Welcomed row loose m m'
    Present connection_udp row pk loose m m' = Welcomed row loose m m'

    welcome-Welcomed :
        (o : Option Row) (m m' : MemberMgr) (loose : List Ptr) (q : Ptr)
        → Fetched m loose o q m'
        → Returns (λ _. Welcomed o loose m) (welcome q m')
    unfolding welcome
    welcome-Welcomed none m m' loose q (e, f) = rw e (returns f)
    welcome-Welcomed (some row) m m' loose q f =
        let some_object : (q == null) ≡ false = ground (arith, f.valid.owned.null_dead, f.object) in
        rw some_object (Returns-mono (add_member-Joined f) λ _ _ j. (q, j))

    -- Who comes online is put into the cache with the values of the row, if there is one.
    pub came_online-Welcomed :
        (friend_number : ℕ) (w : World T S) {loose : List Ptr}
        → IsRunning env loose w
        → AvatarFits w.avatar_data w.avatar_data_size
        → (pk : Text)
        → Returns
            (λ _ w'.
              IsReady w'.store.db.pool
              × (rows w'.store.db.server ≡ rows w.store.db.server)
              × Welcomed
                  (rows w.store.db.server (c_str pk))
                  loose
                  w.store.member_mgr
                  w'.store.member_mgr
              × (w'.writable ≡ w.writable)
              × AvatarFits w'.avatar_data w'.avatar_data_size)
            (came_online env friend_number pk w)
    unfolding came_online
    came_online-Welcomed friend_number w {loose} v fits pk =
        let (q, s, ran, z) =
          returned (find_friend-Fetched h env.locking pk w.store v.ready v.valid) in
        let (u, m, ran', joined) = returned (
          welcome-Welcomed (rows w.store.db.server (c_str pk)) w.store.member_mgr s.member_mgr loose
            q z.0) in
        let after : World T S = record w { store = record s { member_mgr = m } } in
        rw (ran, ran')
          (Returns-mono (send_avatar-Offered friend_number after fits)
            λ _ w' (same, wr, _, _, fits'). (
              subst (λ (x : Store S). IsReady x.db.pool) (sym same) z.1,
              subst (λ (x : Store S). rows x.db.server ≡ rows w.store.db.server) (sym same) z.2,
              subst
                  (λ (x : Store S).
                    Welcomed (rows w.store.db.server (c_str pk)) loose w.store.member_mgr
                      x.member_mgr)
                  (sym same) joined,
              wr,
              fits',
            ))

    -- Where the database is up, the process is running and the avatar has its size, a friend who
    -- comes online is offered to the cache with the values of the row, if there is one; one who
    -- goes offline is taken out of the cache; the table is left alone.
    pub tox_friend_connection_status_callback-Present :
        (friend_number : ℕ) (status : Connection) (w : World T S) {loose : List Ptr}
        → IsRunning env loose w
        → AvatarFits w.avatar_data w.avatar_data_size
        → let pk = key_of env friend_number w in
          Returns
            (λ _ w'.
              IsReady w'.store.db.pool
              × (rows w'.store.db.server ≡ rows w.store.db.server)
              × Present status
                  (rows w.store.db.server (c_str pk))
                  pk
                  loose
                  w.store.member_mgr
                  w'.store.member_mgr
              × (w'.writable ≡ w.writable)
              × AvatarFits w'.avatar_data w'.avatar_data_size)
            (tox_friend_connection_status_callback env friend_number status w)
    unfolding tox_friend_connection_status_callback
    tox_friend_connection_status_callback-Present friend_number connection_none w v fits =
        let pk = key_of env friend_number w in
        let (u, m, ran, gone) = returned (del_member-IsValid env.locking v.valid pk) in
        rw ran (returns (v.ready, refl, gone, refl, fits))
    tox_friend_connection_status_callback-Present friend_number connection_tcp w v fits =
        came_online-Welcomed friend_number w v fits (key_of env friend_number w)
    tox_friend_connection_status_callback-Present friend_number connection_udp w v fits =
        came_online-Welcomed friend_number w v fits (key_of env friend_number w)
