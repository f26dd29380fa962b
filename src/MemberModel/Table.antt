-- ===== src/MemberModel/Table.antt =====
-- What the queries do to the table where the database is up.
use mathlib.Core.Option
use find_friend_bot.Base.{
  ℕ, ◌≡◌, refl, ap, ◌∙◌, true, false, Option, none, some, [], Text, c_str, is_some, if◌then◌else◌,
  ◌==◌, arith, Returns, returns, Returns-bind, Returns-mono,
}
use find_friend_bot.LockedQueue.{Locking}
use find_friend_bot.Sql.{
  Sql, Row, Statement, fits, replace_into, set_signature_where, set_bio_where, set_nick_name_where,
}
use find_friend_bot.Sql.Healthy.{Healthy, Updates, signed, with_bio, with_nick_name}
use find_friend_bot.DbConn.{Db}
use find_friend_bot.DbConn.Laws.{IsReady, allocate-Taken, release-IsReady}
use find_friend_bot.MemberModel.{
  changed_rows, run_update, add_friend, del_friend, update_friend_signature, update_friend_bio,
  update_friend_name,
}

module _ {S : Type 0} {sql : Sql S} {rows : S → Text → Option Row} (h : Healthy sql rows)
    (k : Locking) where
  -- The statement was executed once, on a server with the table as it was.
  abbrev pub Executed : Statement → Db S → ℕ → Db S → Type 0
  Executed statement d n d' =
      IsReady d'.pool
      × ((c : ℕ) × (s : S) × (rows s ≡ rows d.server)
          × (n ≡ changed_rows (sql.execute_update c statement s).0)
          × (d'.server ≡ (sql.execute_update c statement s).1))

  pub run_update-Executed :
      (statement : Statement) {d : Db S}
      → IsReady d.pool
      → Returns (Executed statement d) (run_update sql k statement d)
  unfolding run_update
  run_update-Executed statement {d} v = Returns-bind (allocate-Taken h k v) λ c d' w.
      let some_conn : (c == 0) ≡ false = ground (arith, w.0) in
      let (prepared, same) = h.prepares c statement d'.server in
      rw (some_conn, prepared)
        (Returns-bind (release-IsReady sql k w.1 w.2 w.0)
          λ _ d'' (ready, e). returns (ready, (c, _, same ∙ w.3, refl, e)))

  -- Where the database is up and the pool of connections in order, `add_friend` leaves the row of
  -- the key with the values that were given, each up to a NUL, and no signature, if they fit, and the
  -- pool in order.
  pub add_friend-row :
      (tok_id pk nick_name bio : Text) (created updated : ℕ) (d : Db S)
      → IsReady d.pool
      → Returns
          (λ n d'.
            IsReady d'.pool
            × (fits (
                    replace_into
                      (c_str tok_id)
                      (c_str pk)
                      (c_str nick_name)
                      (c_str bio)
                      created
                      updated)
                  ≡ true
                → rows d'.server (c_str pk)
                  ≡ some (record {
                    tok_id = c_str tok_id;
                    pk = c_str pk;
                    nick_name = c_str nick_name;
                    bio = c_str bio;
                    signature = [];
                    create_time = created;
                    update_time = updated;
                  })))
          (add_friend sql k tok_id pk nick_name bio created updated d)
  unfolding add_friend
  add_friend-row tok_id pk nick_name bio created updated d v =
      Returns-mono (run_update-Executed _ v) λ n d' (ready, (c, s, same, _, e)). (
        ready,
        λ fit. rw e (
            h.replaces c (c_str tok_id) (c_str pk) (c_str nick_name) (c_str bio) created updated s
              fit),
      )

  -- Where the database is up and the pool of connections in order, `del_friend` removes the row of
  -- the key, says whether there was one, and leaves the pool in order.
  pub del_friend-row :
      (pk : Text) (d : Db S)
      → IsReady d.pool
      → Returns
          (λ n d'.
            IsReady d'.pool
            × (rows d'.server (c_str pk) ≡ none)
            × (n ≡ (if is_some (rows d.server (c_str pk)) then 1 else 0)))
          (del_friend sql k pk d)
  unfolding del_friend
  del_friend-row pk d v = Returns-mono (run_update-Executed _ v) λ n d' (ready, (c, s, same, m, e)).
      let (gone, row) = h.deletes c (c_str pk) s in (ready, rw e row, m ∙ rw gone (rw same refl))

  counted : (r : Option ℕ) → ((k : ℕ) → r ≡ some k → k ≡ 0) → changed_rows r ≡ 0
  counted none z = refl
  counted (some k) z = z k refl

  -- What an update promises: the row is changed if there is one and the value fits, and if there is
  -- none no row is said to be.
  abbrev pub Changed :
      (Text → ℕ → Text → Statement)
      → (Text → ℕ → Row → Row)
      → Text
      → Text
      → ℕ
      → Db S
      → ℕ
      → Db S
      → Type 0
  Changed statement change pk value now d n d' =
      IsReady d'.pool
      × (fits (statement (c_str value) now (c_str pk)) ≡ true
          → rows d'.server (c_str pk)
            ≡ Option.map (change (c_str value) now) (rows d.server (c_str pk)))
      × (rows d.server (c_str pk) ≡ none → n ≡ 0)

  update-Changed :
      (statement : Text → ℕ → Text → Statement) (change : Text → ℕ → Row → Row)
      → Updates sql rows statement change
      → (pk value : Text) (now : ℕ) (d : Db S) → IsReady d.pool
      → Returns
          (Changed statement change pk value now d)
          (run_update sql k (statement (c_str value) now (c_str pk)) d)
  update-Changed statement change u pk value now d v =
      Returns-mono (run_update-Executed _ v) λ n d' (ready, (c, s, same, m, e)).
        let (zero_if, row) = u c (c_str value) now (c_str pk) s in
        (
          ready,
          λ fit.
              rw e (row fit ∙ ap (λ f. Option.map (change (c_str value) now) (f (c_str pk))) same),
          λ none_there. m ∙ counted _ (zero_if (ap (λ f. f (c_str pk)) same ∙ none_there)),
        )

  pub update_friend_signature-row :
      (pk signature : Text) (now : ℕ) (d : Db S)
      → IsReady d.pool
      → Returns
          (Changed set_signature_where signed pk signature now d)
          (update_friend_signature sql k pk signature now d)
  unfolding update_friend_signature
  update_friend_signature-row = update-Changed set_signature_where signed h.signs

  pub update_friend_bio-row :
      (pk bio : Text) (now : ℕ) (d : Db S)
      → IsReady d.pool
      → Returns (Changed set_bio_where with_bio pk bio now d) (update_friend_bio sql k pk bio now d)
  unfolding update_friend_bio
  update_friend_bio-row = update-Changed set_bio_where with_bio h.bios

  pub update_friend_name-row :
      (pk name : Text) (now : ℕ) (d : Db S)
      → IsReady d.pool
      → Returns
          (Changed set_nick_name_where with_nick_name pk name now d)
          (update_friend_name sql k pk name now d)
  unfolding update_friend_name
  update_friend_name-row = update-Changed set_nick_name_where with_nick_name h.nick_names
