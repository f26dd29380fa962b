-- ===== src/Assisant/Reconnect.antt =====
-- A friend who comes online and is in the cache already, as after a change from TCP to UDP.
use find_friend_bot.Base.{◌≡◌, ℕ, List, Option, some, Text, c_str, count, Returns, Returns-mono}
use find_friend_bot.LockedQueue.{Ptr}
use find_friend_bot.Map.{find, values}
use find_friend_bot.MemberMgr.Filling.{Joined-taken}
use find_friend_bot.MemberModel.Fetch.{member_in}
use find_friend_bot.Sql.{Row}
use find_friend_bot.Sql.Healthy.{Healthy}
use find_friend_bot.World.{Env, World}
use find_friend_bot.Assisant.Avatar.{AvatarFits}
use find_friend_bot.Assisant.Callbacks.{came_online}
use find_friend_bot.Assisant.Presence.{Welcomed, came_online-Welcomed}
use find_friend_bot.Assisant.Start.{IsRunning}

module _ {T S : Type 0} (env : Env T S) {rows : S → Text → Option Row}
    (h : Healthy env.sql rows) where
  -- Where the database is up, the process is running and the avatar has its size: if a friend comes
  -- online whose row has a key that is in the cache, the cache keeps the old object as it was, and
  -- there is a live object with the values of the row that is neither in the cache nor in the pool.
  pub came_online_again :
      (friend_number : ℕ) (w : World T S) {loose : List Ptr} {old : Ptr} (row : Row) (pk : Text)
      → IsRunning env loose w
      → AvatarFits w.avatar_data w.avatar_data_size
      → rows w.store.db.server (c_str pk) ≡ some row
      → find row.pk w.store.member_mgr.online_member ≡ some old
      → Returns
          (λ _ w'.
            let m' = w'.store.member_mgr in
            (find row.pk m'.online_member ≡ some old)
            × (m'.free_list.cell old ≡ w.store.member_mgr.free_list.cell old)
            × ((lost : Ptr) × (m'.free_list.cell lost ≡ some (member_in row))
                × (count lost (values m'.online_member) ≡ 0)
                × (count lost m'.free_list.free_list ≡ 0)))
          (came_online env friend_number pk w)
  came_online_again friend_number w {loose} row pk v fits found on =
      Returns-mono (came_online-Welcomed env h friend_number w v fits pk) λ _ w' z.
        let (q, j) : Welcomed env h (some row) loose w.store.member_mgr w'.store.member_mgr =
          rw found at z.2 in
        let (there, same, live, c0, c1) = Joined-taken j on in (there, same, (q, live, c0, c1))
