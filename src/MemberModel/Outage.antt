-- ===== src/MemberModel/Outage.antt =====
-- The queries where the database cannot be reached: each uses the null pointer that it gets.
use find_friend_bot.Base.{◌≡◌, refl, Text, fault, null_pointer, returned}
use find_friend_bot.LockedQueue.{Locking}
use find_friend_bot.Sql.{Sql, Statement}
use find_friend_bot.DbConn.{Db}
use find_friend_bot.DbConn.Outage.{IsOut, allocate_out}
use find_friend_bot.MemberModel.{Store, run_update, find_friend}

module _ {S : Type 0} (sql : Sql S) (k : Locking) where
  pub run_update_out :
      (statement : Statement) {d : Db S}
      → IsOut sql d
      → run_update sql k statement d ≡ fault null_pointer
  unfolding run_update
  run_update_out statement out =
      let (c, d', ran, null) = returned (allocate_out sql k out) in rw (run_update, ran, null) refl

  pub find_friend_out :
      (pk : Text) (s : Store S) → IsOut sql s.db → find_friend sql k pk s ≡ fault null_pointer
  unfolding find_friend
  find_friend_out pk s out =
      let (c, d', ran, null) = returned (allocate_out sql k out) in rw (find_friend, ran, null) refl
