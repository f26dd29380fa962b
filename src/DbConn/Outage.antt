-- ===== src/DbConn/Outage.antt =====
-- The pool of connections where the database cannot be reached.
use find_friend_bot.Base.{◌≡◌, refl, none, [], Returns, returns, Returns-bind}
use find_friend_bot.Lock.{locked_by}
use find_friend_bot.LockedQueue.{Locking}
use find_friend_bot.Sql.{Sql}
use find_friend_bot.DbConn.{Db, dial, connected, set_lock, allocate}
use find_friend_bot.DbConn.Laws.{IsReady, create_connection_eq, take_nil, acquire_eq}

-- No connection is left, and `connect` throws.
pub record IsOut {S : Type 0} (sql : Sql S) (d : Db S) : Type 0 where
  pub ready : IsReady d.pool
  pub empty : d.pool.free_list ≡ []
  pub throws :
      (sql.connect d.pool.db_host d.pool.db_user d.pool.db_passwd d.pool.db_name d.server).0 ≡ none

module _ {S : Type 0} (sql : Sql S) (k : Locking) where
  dial_out :
      (d : Db S)
      → (sql.connect d.pool.db_host d.pool.db_user d.pool.db_passwd d.pool.db_name d.server).0
        ≡ none
      → Returns (λ c _. c ≡ 0) (dial sql d)
  unfolding dial connected
  dial_out d e = rw e (returns refl)

  -- `allocate` gives a null pointer.
  pub allocate_out : {d : Db S} → IsOut sql d → Returns (λ c _. c ≡ 0) (allocate sql k d)
  unfolding allocate
  allocate_out {d} out =
      let d' = set_lock (locked_by k.threads k.self) d in
      rw
        (
          acquire_eq k d out.ready.lock_free,
          take_nil sql d' out.empty,
          create_connection_eq sql d' out.ready.set_up,
        )
        (Returns-bind (dial_out d' out.throws) λ c _ null. returns null)
