-- ===== src/Assisant/Start.antt =====
-- `/start` where the database is up.
use find_friend_bot.Base.{
  ℕ, ◌≡◌, refl, Bool, true, false, List, [], ◌∷◌, Option, none, some, Text, c_str, arith, count,
  Returns, returns, Returns-bind, Returns-mono, returned, ok, inl, inr, ◌⊎◌, if◌then◌else◌, text_eq,
  Option-cases, fault, null_pointer,
}
use find_friend_bot.Conf.{Conf}
use find_friend_bot.Map.{find, values}
use find_friend_bot.LockedQueue.{Ptr, Locking}
use find_friend_bot.Member.{member, set_pk, set_tok_id, set_nick_name, set_bio}
use find_friend_bot.MemberMgr.{MemberMgr}
use find_friend_bot.MemberMgr.Invariant.{IsValid}
use find_friend_bot.MemberMgr.Filling.{
  Joined, allocate-Filled, modify-Filled, add_member-Joined, Joined-taken,
}
use find_friend_bot.MemberMgr.View.{view, or_else, Joined-view}
use find_friend_bot.Sql.{Row, fits, replace_into}
use find_friend_bot.Sql.Healthy.{Healthy}
use find_friend_bot.DbConn.Laws.{IsReady}
use find_friend_bot.MemberModel.Table.{add_friend-row}
use find_friend_bot.World.{Env, World, SameOutside}
use find_friend_bot.Assisant.Commands.{
  logs_debug, log_text, log_bytes, put_online, start_as, cmd_start, get_name, get_status_message,
  text_of_buffer,
}

-- Where the filter of the log is above `debug`, nothing is read for the log.
pub log_text_quiet :
    {S : Type 0} (conf : Conf) (text : Option Text) (w : S)
    → logs_debug conf ≡ false
    → log_text conf text w ≡ ok tt w
unfolding log_text
log_text_quiet conf none w quiet = rw quiet refl
log_text_quiet conf (some text) w quiet = refl

pub log_bytes_quiet :
    {S : Type 0} (conf : Conf) (bytes : Option Text) (w : S)
    → logs_debug conf ≡ false
    → log_bytes conf bytes w ≡ ok tt w
unfolding log_bytes
log_bytes_quiet conf none w quiet = rw quiet refl
log_bytes_quiet conf (some bytes) w quiet = rw quiet refl

put_online-Joined :
    (k : Locking) (pk tok_id nick_name bio : Text) {m : MemberMgr} {loose : List Ptr}
    → IsValid loose m
    → Returns
        (λ _ m'. (q : Ptr) × Joined m loose q (member pk tok_id nick_name bio []) m')
        (put_online k pk tok_id nick_name bio m)
unfolding put_online
put_online-Joined k pk tok_id nick_name bio v = Returns-bind (allocate-Filled k v) λ q _ f0.
    Returns-bind (modify-Filled (set_pk pk) f0) λ _ _ f1.
      Returns-bind (modify-Filled (set_tok_id tok_id) f1) λ _ _ f2.
        Returns-bind (modify-Filled (set_nick_name nick_name) f2) λ _ _ f3.
          Returns-bind (modify-Filled (set_bio bio) f3)
            λ _ _ f4. Returns-mono (add_member-Joined f4) λ _ _ j. (q, j)

-- In a valid manager, seen as a map from keys to members, what `/start` does to it adds the new
-- member under its key if the key is free, and changes nothing if it is not.
pub put_online-view :
    (k : Locking) (pk tok_id nick_name bio : Text) {m : MemberMgr} {loose : List Ptr}
    → IsValid loose m
    → Returns
        (λ _ m'.
          (key : Text)
          → view m' key ≡ (
              if text_eq pk key
              then or_else (view m pk) (some (member pk tok_id nick_name bio []))
              else view m key))
        (put_online k pk tok_id nick_name bio m)
put_online-view k pk tok_id nick_name bio v =
    Returns-mono (put_online-Joined k pk tok_id nick_name bio v) λ _ _ (q, j). Joined-view j

module _ {T S : Type 0} (env : Env T S) where
  -- The public key of a friend, as the bot writes it.
  abbrev pub key_of : ℕ → World T S → Text
  key_of friend_number w =
      env.boost.to_upper
        (env.sodium.bin2hex (env.tox.friend_get_public_key friend_number w.network).1)

  -- The process between two callbacks: both pools in order.
  pub record IsRunning (loose : List Ptr) (w : World T S) : Type 0 where
    pub ready : IsReady w.store.db.pool
    pub valid : IsValid loose w.store.member_mgr

  -- The row that `/start` writes.
  abbrev pub started_row : Text → Text → Text → Text → ℕ → Row
  started_row tok_id pk nick_name bio now = record {
    tok_id = c_str tok_id;
    pk = c_str pk;
    nick_name = c_str nick_name;
    bio = c_str bio;
    signature = [];
    create_time = now;
    update_time = now;
  }

  -- Where toxcore does not know the name or the status of the user and the filter of the log is
  -- above `debug`, `/start` with an id changes nothing and does not reply.
  pub cmd_start_unknown :
      (friend_number c : ℕ) (cs msg_res : Text) (w : World T S)
      → (env.tox.friend_get_name_size friend_number w.network ≡ none)
        ⊎ (env.tox.friend_get_status_message_size friend_number w.network ≡ none)
      → logs_debug env.conf ≡ false
      → cmd_start env friend_number (c ∷ cs) msg_res w ≡ ok (false, msg_res) w
  unfolding cmd_start get_name get_status_message
  cmd_start_unknown friend_number c cs msg_res w (inl e) quiet =
      elim (Option-cases (env.tox.friend_get_status_message_size friend_number w.network)) [
        | inl f ↦ ground arith
        | inr (l, f) ↦ ground arith
      ]
  cmd_start_unknown friend_number c cs msg_res w (inr f) quiet =
      elim (Option-cases (env.tox.friend_get_name_size friend_number w.network)) [
        | inl e ↦ ground arith
        | inr (l, e) ↦ ground arith
      ]

  -- Where toxcore does not know the name or the status of the user and the log takes what is said
  -- at `debug`, `/start` with an id reads through a null pointer, for the log.
  pub cmd_start_logged :
      (friend_number c : ℕ) (cs msg_res : Text) (w : World T S)
      → (env.tox.friend_get_name_size friend_number w.network ≡ none)
        ⊎ (env.tox.friend_get_status_message_size friend_number w.network ≡ none)
      → logs_debug env.conf ≡ true
      → cmd_start env friend_number (c ∷ cs) msg_res w ≡ fault null_pointer
  unfolding cmd_start get_name get_status_message log_text
  cmd_start_logged friend_number c cs msg_res w (inl e) loud = rw (e, loud) refl
  cmd_start_logged friend_number c cs msg_res w (inr f) loud =
      elim (Option-cases (env.tox.friend_get_name_size friend_number w.network)) [
        | inl e ↦ rw (e, loud) refl
        | inr (l, e) ↦ rw (e, f, loud) refl
      ]

  module _ {rows : S → Text → Option Row} (h : Healthy env.sql rows) where
    -- What `/start` does: the row, if it fits, and an object that is offered to the cache.
    abbrev pub Started :
        ℕ → (tok_id nick_name bio : Text) → List Ptr → World T S → Bool × Text → World T S → Type 0
    Started friend_number tok_id nick_name bio loose w reply w' =
        (reply ≡ (true, env.conf.desc_start))
        × SameOutside w w'
        × IsReady w'.store.db.pool
        × (fits (
                replace_into (c_str tok_id) (c_str (key_of friend_number w)) (c_str nick_name)
                  (c_str bio) (env.tox.unixtime w.network) (env.tox.unixtime w.network))
              ≡ true
            → rows w'.store.db.server (c_str (key_of friend_number w))
              ≡ some (
                  started_row tok_id (key_of friend_number w) nick_name bio
                    (env.tox.unixtime w.network)))
        × ((q : Ptr) × Joined w.store.member_mgr loose q
              (member (key_of friend_number w) tok_id nick_name bio []) w'.store.member_mgr)

    start_as-Started :
        (friend_number : ℕ) (tok_id nick_name bio : Text) (w : World T S) {loose : List Ptr}
        → IsRunning loose w
        → Returns
            (Started friend_number tok_id nick_name bio loose w)
            (start_as env friend_number tok_id nick_name bio w)
    unfolding start_as
    start_as-Started friend_number tok_id nick_name bio w v =
        let pk = key_of friend_number w in
        let now = env.tox.unixtime w.network in
        let (n, d, ran, row) =
          returned
            (add_friend-row h env.locking tok_id pk nick_name bio now now w.store.db v.ready) in
        let (u, m, ran', j) =
          returned (put_online-Joined env.locking pk tok_id nick_name bio v.valid) in
        rw (ran, ran') (returns (refl, (refl, refl, refl, refl, refl), row.0, row.1, j))

    module _ (friend_number : ℕ) (c : ℕ) (cs msg_res : Text) (w : World T S) where
      -- The nickname and the bio as toxcore has them.
      abbrev pub name_of : ℕ → Text
      name_of n = text_of_buffer n (env.tox.friend_get_name friend_number w.network)

      abbrev pub status_of : ℕ → Text
      status_of n = text_of_buffer n (env.tox.friend_get_status_message friend_number w.network)

      -- Where the database is up, the process is running and toxcore knows the name and the status
      -- of the user, `/start` with an id writes the row of the user, if it fits, offers a new object with the
      -- same values to the cache, and gives the reply for a start.
      pub cmd_start-Started :
          (n l : ℕ) {loose : List Ptr}
          → env.tox.friend_get_name_size friend_number w.network ≡ some n
          → env.tox.friend_get_status_message_size friend_number w.network ≡ some l
          → IsRunning loose w
          → Returns
              (Started friend_number (c ∷ cs) (name_of n) (status_of l) loose w)
              (cmd_start env friend_number (c ∷ cs) msg_res w)
      unfolding cmd_start get_name get_status_message log_text
      cmd_start-Started n l e f v =
          rw (e, f) (start_as-Started friend_number (c ∷ cs) (name_of n) (status_of l) w v)

      -- Under the conditions of a first `/start`, but with the key online, the cache keeps the old
      -- object as it was, and there is a live object with the new values that is neither in the
      -- cache nor in the pool.
      pub cmd_start_again :
          (n l : ℕ) {loose : List Ptr} {old : Ptr}
          → env.tox.friend_get_name_size friend_number w.network ≡ some n
          → env.tox.friend_get_status_message_size friend_number w.network ≡ some l
          → IsRunning loose w
          → find (key_of friend_number w) w.store.member_mgr.online_member ≡ some old
          → Returns
              (λ _ w'.
                let m = w.store.member_mgr in
                let m' = w'.store.member_mgr in
                (find (key_of friend_number w) m'.online_member ≡ some old)
                × (m'.free_list.cell old ≡ m.free_list.cell old)
                × ((lost : Ptr) × (m'.free_list.cell lost
                      ≡ some
                          (member (key_of friend_number w) (c ∷ cs) (name_of n) (status_of l) []))
                    × (count lost (values m'.online_member) ≡ 0)
                    × (count lost m'.free_list.free_list ≡ 0)))
              (cmd_start env friend_number (c ∷ cs) msg_res w)
      cmd_start_again n l {loose} {old} e f v on =
          Returns-mono (cmd_start-Started n l e f v) λ reply w' (_, _, _, _, (q, j)).
            let (there, same, live, c0, c1) = Joined-taken j on in (there, same, (q, live, c0, c1))
