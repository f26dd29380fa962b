-- ===== src/Assisant/Records/Writes.antt =====
-- The callbacks change the table as Assisant.Records says.
use find_friend_bot.Base.{
  ℕ, ◌≡◌, refl, ap, if◌then◌else◌, none, [], Text, c_str, Returns, Returns-mono, Returns-bind,
  returns, returned, Run,
}
use find_friend_bot.MemberMgr.{find_member}
use find_friend_bot.Member.{set_nick_name, set_bio}
use find_friend_bot.Sql.{is_key}
use find_friend_bot.Sql.Healthy.{Healthy}
use find_friend_bot.MemberModel.{Store}
use find_friend_bot.MemberModel.Writes.{
  Table, registered, Confined, update_friend_bio-Puts, update_friend_name-Puts,
}
use find_friend_bot.World.{Env, World}
use find_friend_bot.Assisant.Parser.{parse_msg_total}
use find_friend_bot.Assisant.Files.{update_savedata_file}
use find_friend_bot.Assisant.Callbacks.{
  file_recv_cb, friend_message_cb, friend_name_cb, friend_status_message_cb,
}
use find_friend_bot.Assisant.Start.{key_of, log_bytes_quiet}
use find_friend_bot.Assisant.Answers.{set_cached-Cached}
use find_friend_bot.Assisant.Presence.{tox_friend_connection_status_callback-Present}
use find_friend_bot.Assisant.Upkeep.{IsUp, Formats}
use find_friend_bot.Assisant.Events.{request-Untouched, timer-Untouched, chunk-Untouched}
use find_friend_bot.Assisant.Observe.{Does}
use find_friend_bot.Assisant.Running.{
  Event, connection, request, message, name, status_message, chunk, recv, recv_chunk, timer,
  InBounds, handle,
}
use find_friend_bot.Assisant.Records.{table, written, Storable, HexKeys, c_key}
use find_friend_bot.Assisant.Records.Commands.{process_cmd-table}

module _ {T S : Type 0} (env : Env T S) where
  module _ {rows : S → Table} (h : Healthy env.sql rows) (confined : Confined env.sql rows)
      (shows : Formats env) (keys : HexKeys env) where
    module _ (friend_number : ℕ) (w : World T S) (up : IsUp env w) where
      friend_message_cb-Does :
          (text : Text)
          → Storable env w (message friend_number text)
          → Does
              (table rows)
              (written env w (message friend_number text))
              w
              (friend_message_cb env friend_number text)
      unfolding friend_message_cb
      friend_message_cb-Does text fit =
          let (parts, parsed) = parse_msg_total text ([], []) in
          rw (friend_message_cb, parsed)
            (process_cmd-table env h confined shows keys friend_number w up parts.0 parts.1
              (rw parsed at fit))

      friend_name_cb-Does :
          (text : Text)
          → Storable env w (name friend_number text)
          → Does
              (table rows)
              (written env w (name friend_number text))
              w
              (friend_name_cb env friend_number text)
      unfolding friend_name_cb find_member update_savedata_file
      friend_name_cb-Does text fit =
          let pk = key_of env friend_number w in
          let (n, d, ran, puts) = returned (
            update_friend_name-Puts h confined env.locking pk (c_str text)
              (env.tox.unixtime w.network) w.store.db up.running.ready
              (c_key env keys friend_number w) fit) in
          let (u, m, ran', _) = returned (
            set_cached-Cached w.store.member_mgr up.loose pk (set_nick_name (c_str text))
              (λ a. refl) up.running.valid) in
          rw (ran, ran', up.tmp_opens) (returns puts)

      friend_status_message_cb-Does :
          (text : Text)
          → Storable env w (status_message friend_number text)
          → Does
              (table rows)
              (written env w (status_message friend_number text))
              w
              (friend_status_message_cb env friend_number text)
      unfolding friend_status_message_cb find_member update_savedata_file
      friend_status_message_cb-Does text fit =
          let pk = key_of env friend_number w in
          let (n, d, ran, puts) = returned (
            update_friend_bio-Puts h confined env.locking pk (c_str text)
              (env.tox.unixtime w.network) w.store.db up.running.ready
              (c_key env keys friend_number w) fit) in
          let (u, m, ran', _) = returned (
            set_cached-Cached w.store.member_mgr up.loose pk (set_bio (c_str text)) (λ a. refl)
              up.running.valid) in
          rw (ran, ran', up.tmp_opens) (returns puts)

    unwritten :
        {A : Type 0} (w : World T S) {r : Run (World T S) A}
        → Returns (λ _ w'. w'.store ≡ w.store) r
        → Returns (λ _ w'. (key : Text) → table rows w' key ≡ table rows w key) r
    unwritten w u =
        Returns-mono u λ _ w' same key. ap (λ (s : Store S). registered rows s.db.server key) same

    pub handle-Writes :
        (e : Event) (w : World T S)
        → InBounds e
        → Storable env w e
        → IsUp env w
        → Returns
            (λ _ w'. (key : Text) → table rows w' key ≡ written env w e (table rows w) key)
            (handle env e w)
    unfolding handle file_recv_cb
    handle-Writes (connection friend_number status) w b fit up =
        Returns-mono
          (tox_friend_connection_status_callback-Present env h friend_number status w up.running
            up.avatar)
          λ _ w' (_, same, _, _, _) key. ap (λ (t : Table). if is_key key then t key else none) same
    handle-Writes (request public_key) w b fit up =
        unwritten w (request-Untouched env public_key w shows.quiet up.tmp_opens)
    handle-Writes (message friend_number text) w b fit up =
        friend_message_cb-Does friend_number w up text fit
    handle-Writes (name friend_number text) w b fit up =
        friend_name_cb-Does friend_number w up text fit
    handle-Writes (status_message friend_number text) w b fit up =
        friend_status_message_cb-Does friend_number w up text fit
    handle-Writes (chunk friend_number file_number position size) w b fit up =
        unwritten w (chunk-Untouched env friend_number file_number position size w b up)
    handle-Writes (recv friend_number file_number kind file_size filename) w b fit up =
        rw (log_bytes_quiet env.conf filename w shows.quiet) (returns λ key. refl)
    handle-Writes (recv_chunk friend_number file_number position bytes) w b fit up =
        returns λ key. refl
    handle-Writes (timer friend_number event_type user_data) w b fit up =
        Returns-bind (unwritten w (timer-Untouched env friend_number event_type user_data w))
          λ _ w' same. returns same
