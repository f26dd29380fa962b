-- ===== src/Assisant/Profile.antt =====
-- A friend's new name or new status message.
use mathlib.Core.Option
use find_friend_bot.Base.{ℕ, ◌≡◌, refl, true, List, Option, Text, c_str, Returns, returns, returned}
use find_friend_bot.LockedQueue.{Ptr}
use find_friend_bot.Member.{Member, set_nick_name, set_bio}
use find_friend_bot.MemberMgr.{find_member}
use find_friend_bot.Sql.{Row, Statement, fits, set_bio_where, set_nick_name_where}
use find_friend_bot.Sql.Healthy.{Healthy, with_nick_name, with_bio}
use find_friend_bot.DbConn.Laws.{IsReady}
use find_friend_bot.MemberModel.Table.{update_friend_name-row, update_friend_bio-row}
use find_friend_bot.World.{Env, World}
use find_friend_bot.Assisant.Files.{update_savedata_file}
use find_friend_bot.Assisant.Callbacks.{friend_name_cb, friend_status_message_cb}
use find_friend_bot.Assisant.Start.{IsRunning, key_of}
use find_friend_bot.Assisant.Answers.{Cached, set_cached-Cached}

module _ {T S : Type 0} (env : Env T S) {rows : S → Text → Option Row}
    (h : Healthy env.sql rows) where
  -- The row, if the statement fits, and the cached object of the friend have the change, and the avatar is as it was.
  abbrev pub Profiled :
      ℕ → Statement → (Row → Row) → (Member → Member) → List Ptr → World T S → World T S → Type 0
  Profiled friend_number statement in_row in_object loose w w' =
      let pk = key_of env friend_number w in
      IsReady w'.store.db.pool
      × (fits statement ≡ true
          → rows w'.store.db.server (c_str pk)
            ≡ Option.map in_row (rows w.store.db.server (c_str pk)))
      × Cached pk in_object loose w.store.member_mgr w'.store.member_mgr
      × (w'.writable ≡ w.writable)
      × (w'.avatar_data ≡ w.avatar_data)
      × (w'.avatar_data_size ≡ w.avatar_data_size)

  -- Where the database is up, the process is running and the temporary file can be opened, a new
  -- name, up to a NUL, and the time go into the row of the friend, if they fit, and the name into the
  -- cached object.
  pub friend_name_cb-Profiled :
      (friend_number : ℕ) (name : Text) (w : World T S) {loose : List Ptr}
      → w.writable env.conf.save_data_tmp_file ≡ true
      → IsRunning env loose w
      → Returns
          (λ _.
            Profiled friend_number
              (set_nick_name_where
                (c_str (c_str name))
                (env.tox.unixtime w.network)
                (c_str (key_of env friend_number w)))
              (with_nick_name (c_str (c_str name)) (env.tox.unixtime w.network))
              (set_nick_name (c_str name))
              loose
              w)
          (friend_name_cb env friend_number name w)
  unfolding friend_name_cb find_member update_savedata_file
  friend_name_cb-Profiled friend_number name w {loose} opens v =
      let pk = key_of env friend_number w in
      let (n, d, ran, row) = returned (
        update_friend_name-row h env.locking pk (c_str name) (env.tox.unixtime w.network) w.store.db
          v.ready) in
      let (u, m, ran', cached) = returned (
        set_cached-Cached w.store.member_mgr loose pk (set_nick_name (c_str name)) (λ a. refl)
          v.valid) in
      rw (ran, ran', opens) (returns (row.0, row.1, cached, refl, refl, refl))

  -- A new status message reaches the bio of the row, if it fits, and of the cached object, up to a
  -- NUL.
  pub friend_status_message_cb-Profiled :
      (friend_number : ℕ) (message : Text) (w : World T S) {loose : List Ptr}
      → w.writable env.conf.save_data_tmp_file ≡ true
      → IsRunning env loose w
      → Returns
          (λ _.
            Profiled friend_number
              (set_bio_where
                (c_str (c_str message))
                (env.tox.unixtime w.network)
                (c_str (key_of env friend_number w)))
              (with_bio (c_str (c_str message)) (env.tox.unixtime w.network))
              (set_bio (c_str message))
              loose
              w)
          (friend_status_message_cb env friend_number message w)
  unfolding friend_status_message_cb find_member update_savedata_file
  friend_status_message_cb-Profiled friend_number message w {loose} opens v =
      let pk = key_of env friend_number w in
      let (n, d, ran, row) = returned (
        update_friend_bio-row h env.locking pk (c_str message) (env.tox.unixtime w.network)
          w.store.db v.ready) in
      let (u, m, ran', cached) = returned (
        set_cached-Cached w.store.member_mgr loose pk (set_bio (c_str message)) (λ a. refl)
          v.valid) in
      rw (ran, ran', opens) (returns (row.0, row.1, cached, refl, refl, refl))
