-- ===== src/MemberModel/Fetch.antt =====
-- `find_friend`: a row of the table as a member object.
use find_friend_bot.Base.{
  ◌≡◌, refl, ap, ◌∙◌, false, List, Option, none, some, Text, c_str, returned, ◌==◌, arith, Returns,
  returns, Returns-bind,
}
use find_friend_bot.LockedQueue.{Ptr, null, Locking}
use find_friend_bot.Member.{
  Member, member, set_pk, set_tok_id, set_nick_name, set_bio, set_signature,
}
use find_friend_bot.MemberMgr.{MemberMgr}
use find_friend_bot.MemberMgr.Invariant.{IsValid}
use find_friend_bot.MemberMgr.Filling.{Filled, allocate-Filled, modify-Filled}
use find_friend_bot.Sql.{Sql, Row, select_where}
use find_friend_bot.Sql.Healthy.{Healthy}
use find_friend_bot.DbConn.{Db}
use find_friend_bot.DbConn.Laws.{IsReady, allocate-Taken, release-IsReady}
use find_friend_bot.MemberModel.{Store, member_of_row, fetch, find_friend}

abbrev pub member_in : Row → Member
member_in row = member row.pk row.tok_id row.nick_name row.bio row.signature

-- No row gives null; a row gives a new object with its values.
abbrev pub Fetched : MemberMgr → List Ptr → Option Row → Ptr → MemberMgr → Type 0
Fetched m loose none q m' = (q ≡ null) × (m' ≡ m)
Fetched m loose (some row) q m' = Filled m loose q (member_in row) m'

member_of_row-Filled :
    (k : Locking) (row : Row) {m : MemberMgr} {loose : List Ptr}
    → IsValid loose m
    → Returns (λ q. Filled m loose q (member_in row)) (member_of_row k row m)
unfolding member_of_row
member_of_row-Filled k row v = Returns-bind (allocate-Filled k v) λ q _ f0.
    Returns-bind (modify-Filled (set_pk row.pk) f0) λ _ _ f1.
      Returns-bind (modify-Filled (set_tok_id row.tok_id) f1) λ _ _ f2.
        Returns-bind (modify-Filled (set_bio row.bio) f2) λ _ _ f3.
          Returns-bind (modify-Filled (set_signature row.signature) f3) λ _ _ f4.
            Returns-bind (modify-Filled (set_nick_name row.nick_name) f4) λ _ _ f5. returns f5

fetch-Fetched :
    (k : Locking) (row : Option Row) {m : MemberMgr} {loose : List Ptr}
    → IsValid loose m
    → Returns (Fetched m loose row) (fetch k row m)
unfolding fetch
fetch-Fetched k none v = returns (refl, refl)
fetch-Fetched k (some row) v = member_of_row-Filled k row v

module _ {S : Type 0} {sql : Sql S} {rows : S → Text → Option Row} (h : Healthy sql rows)
    (k : Locking) where
  -- Where the database is up and both pools are in order, `find_friend` gives null if there is no
  -- row for the key, and else a new object with the values of the row; it leaves the table alone
  -- and puts its connection back.
  pub find_friend-Fetched :
      (pk : Text) (s : Store S) {loose : List Ptr}
      → IsReady s.db.pool
      → IsValid loose s.member_mgr
      → Returns
          (λ q s'.
            Fetched s.member_mgr loose (rows s.db.server (c_str pk)) q s'.member_mgr
            × IsReady s'.db.pool
            × (rows s'.db.server ≡ rows s.db.server))
          (find_friend sql k pk s)
  unfolding find_friend
  find_friend-Fetched pk s {loose} ready v =
      let (c, d, ran, w) = returned (allocate-Taken h k ready) in
      let some_conn : (c == 0) ≡ false = ground (arith, w.0) in
      let (prepared, same) = h.prepares c (select_where (c_str pk)) d.server in
      let (got, same') =
        h.selects c (c_str pk) (sql.prepare c (select_where (c_str pk)) d.server).1 in
      let row : rows (sql.prepare c (select_where (c_str pk)) d.server).1 (c_str pk)
          ≡ rows s.db.server (c_str pk) =
        ap (λ f. f (c_str pk)) (same ∙ w.3) in
      let (q, m, ran', f) = returned (fetch-Fetched k (rows s.db.server (c_str pk)) v) in
      let after : Db S = record d {
        server =
            (sql.execute_query c (select_where (c_str pk))
              (sql.prepare c (select_where (c_str pk)) d.server).1).1;
      } in
      let (u, d', ran'', z) = returned (release-IsReady sql k {d = after} w.1 w.2 w.0) in
      rw (ran, some_conn, prepared, got, row, ran', ran'')
        (returns (f, z.0, ap rows z.1 ∙ same' ∙ same ∙ w.3))
