-- ===== src/MemberModel.antt =====
-- src/MemberModel.h and src/MemberModel.cpp: the members in the database.
pub mod Fetch
pub mod Outage
pub mod Table
pub mod Writes
use find_friend_bot.Base.{
  ℕ, Bool, not, Option, none, some, Text, c_str, ◌==◌, if◌then◌else◌, Run, ok, fault, Cmd, fail,
  null_pointer, uninitialised, on_part, pure, ◌>>=◌, ◌>>◌,
}
use find_friend_bot.LockedQueue.{Ptr, null, Locking}
use find_friend_bot.Member.{Member, set_pk, set_tok_id, set_nick_name, set_bio, set_signature}
use find_friend_bot.MemberMgr
use find_friend_bot.MemberMgr.{MemberMgr, modify}
use find_friend_bot.Sql.{
  Sql, Row, Statement, replace_into, delete_where, set_signature_where, set_bio_where,
  set_nick_name_where, select_where,
}
use find_friend_bot.DbConn
use find_friend_bot.DbConn.{Db, call}

-- `ret`: 0 if `executeUpdate` threw.
abbrev pub changed_rows : Option ℕ → ℕ
changed_rows none = 0
changed_rows (some n) = n

-- The two globals that a query touches, `db_conn` and `member_mgr`.
pub record Store (S : Type 0) : Type 0 where
  pub db : Db S
  pub member_mgr : MemberMgr

-- A row as a member object.
unfoldable pub member_of_row : Locking → Row → Cmd MemberMgr Ptr
unfolding MemberMgr.allocate modify
member_of_row k row = do
  member ← MemberMgr.allocate k
  modify (set_pk row.pk) member
  modify (set_tok_id row.tok_id) member
  modify (set_bio row.bio) member
  modify (set_signature row.signature) member
  modify (set_nick_name row.nick_name) member
  pure member

fetch : Locking → Option Row → Cmd MemberMgr Ptr
unfolding member_of_row
fetch k none = pure null
fetch k (some row) = member_of_row k row

module _ {S : Type 0} where
  abbrev pub on_db : {A : Type 0} → Cmd (Db S) A → Cmd (Store S) A
  on_db = on_part (λ s. s.db) (λ d s. record s { db = d })

  abbrev pub on_mgr : {A : Type 0} → Cmd MemberMgr A → Cmd (Store S) A
  on_mgr = on_part (λ s. s.member_mgr) (λ m s. record s { member_mgr = m })

  module _ (sql : Sql S) (k : Locking) where
    -- The body that the five updates share. If `prepareStatement` throws, the handler deletes a
    -- pointer that was never set.
    unfoldable pub run_update : Statement → Cmd (Db S) ℕ
    unfolding DbConn.allocate DbConn.release
    run_update statement = do
      connection ← DbConn.allocate sql k
      if connection == 0 then fail null_pointer else do
        prepared ← call (sql.prepare connection statement)
        if not prepared then fail uninitialised else do
          changed ← call (sql.execute_update connection statement)
          DbConn.release sql k connection
          pure (changed_rows changed)

    unfoldable pub add_friend :
        (tok_id pk nick_name bio : Text) (create_time update_time : ℕ) → Cmd (Db S) ℕ
    add_friend tok_id pk nick_name bio create_time update_time = run_update (
        replace_into (c_str tok_id) (c_str pk) (c_str nick_name) (c_str bio) create_time
          update_time)

    unfoldable pub del_friend : Text → Cmd (Db S) ℕ
    del_friend pk = run_update (delete_where (c_str pk))

    unfoldable pub update_friend_signature : Text → Text → ℕ → Cmd (Db S) ℕ
    update_friend_signature pk signature update_time =
        run_update (set_signature_where (c_str signature) update_time (c_str pk))

    unfoldable pub update_friend_bio : Text → Text → ℕ → Cmd (Db S) ℕ
    update_friend_bio pk bio update_time =
        run_update (set_bio_where (c_str bio) update_time (c_str pk))

    unfoldable pub update_friend_name : Text → Text → ℕ → Cmd (Db S) ℕ
    update_friend_name pk name update_time =
        run_update (set_nick_name_where (c_str name) update_time (c_str pk))

    -- If a call throws, the handler deletes a pointer that was never set.
    unfoldable pub find_friend : Text → Cmd (Store S) Ptr
    unfolding DbConn.allocate DbConn.release fetch
    find_friend pk = do
      connection ← on_db (DbConn.allocate sql k)
      if connection == 0 then fail null_pointer else do
        prepared ← on_db (call (sql.prepare connection (select_where (c_str pk))))
        if not prepared then fail uninitialised else do
          res ← on_db (call (sql.execute_query connection (select_where (c_str pk))))
          elim res [
            | none ↦ fail uninitialised
            | some row ↦ do
              member ← on_mgr (fetch k row)
              on_db (DbConn.release sql k connection)
              pure member
          ]
