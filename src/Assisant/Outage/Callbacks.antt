-- ===== src/Assisant/Outage/Callbacks.antt =====
-- The callbacks where the database cannot be reached.
use find_friend_bot.Base.{
  ℕ, ◌≡◌, refl, ap, [], Text, fault, null_pointer, returns, Returns-mono, Returns-bind,
  Returns-both, returned,
}
use find_friend_bot.DbConn.Outage.{IsOut}
use find_friend_bot.MemberModel.{Store, update_friend_name, update_friend_bio}
use find_friend_bot.MemberModel.Outage.{run_update_out, find_friend_out}
use find_friend_bot.MemberMgr.Removal.{del_member-IsValid}
use find_friend_bot.World.{Env, World}
use find_friend_bot.Assisant.Parser.{parse_msg_total}
use find_friend_bot.Assisant.Callbacks.{
  file_recv_cb, Connection, connection_none, connection_tcp, connection_udp, came_online,
  tox_friend_connection_status_callback, friend_message_cb, friend_name_cb,
  friend_status_message_cb,
}
use find_friend_bot.Assisant.Start.{key_of, log_bytes_quiet}
use find_friend_bot.Assisant.Upkeep.{IsUp, Formats, still-IsUp}
use find_friend_bot.Assisant.Events.{request-Untouched, timer-Untouched, chunk-Untouched}
use find_friend_bot.Assisant.Running.{
  Event, connection, request, message, name, status_message, chunk, recv, recv_chunk, timer,
  InBounds, handle,
}
use find_friend_bot.Assisant.Running.Steps.{friend_request_cb-IsUp, timer-IsUp, chunk-IsUp}
use find_friend_bot.Assisant.Outage.{Outcome, queries}
use find_friend_bot.Assisant.Outage.Commands.{process_cmd_out}

module _ {T S : Type 0} (env : Env T S) where
  module _ (shows : Formats env) (w : World T S) (up : IsUp env w)
      (out : IsOut env.sql w.store.db) where
    module _ (friend_number : ℕ) where
      message_out :
          (text : Text)
          → Outcome env w
              (queries env w (message friend_number text))
              (friend_message_cb env friend_number text w)
      unfolding friend_message_cb
      message_out text =
          let (parts, parsed) = parse_msg_total text ([], []) in
          rw (friend_message_cb, parsed)
            (process_cmd_out env shows w up out friend_number parts.0 parts.1)

      came_online_out : (pk : Text) → came_online env friend_number pk w ≡ fault null_pointer
      unfolding came_online
      came_online_out pk = rw (find_friend_out env.sql env.locking pk w.store out) refl

      connection_out :
          (status : Connection)
          → Outcome env w
              (queries env w (connection friend_number status))
              (tox_friend_connection_status_callback env friend_number status w)
      unfolding tox_friend_connection_status_callback
      connection_out connection_none =
          let (u, m, ran, gone) =
            returned
              (del_member-IsValid env.locking up.running.valid (key_of env friend_number w)) in
          rw ran (
            returns (
              still-IsUp env up (refl, refl, refl, refl, refl)
                  (record { ready = up.running.ready; valid = gone.0 }),
              refl,
            ))
      connection_out connection_tcp = came_online_out (key_of env friend_number w)
      connection_out connection_udp = came_online_out (key_of env friend_number w)

      name_out : (text : Text) → friend_name_cb env friend_number text w ≡ fault null_pointer
      unfolding friend_name_cb update_friend_name
      name_out text = rw (run_update_out env.sql env.locking _ out) refl

      status_message_out :
          (text : Text) → friend_status_message_cb env friend_number text w ≡ fault null_pointer
      unfolding friend_status_message_cb update_friend_bio
      status_message_out text = rw (run_update_out env.sql env.locking _ out) refl

    -- From a state that is up, with formats that fit and the filter of the log above `debug`, but
    -- with no connection left in the pool and a server that throws at `connect`, a callback that
    -- has a query, as `queries` says, ends in a null pointer; any other ends without a fault in a
    -- state that is up and leaves the database alone, if a request for a chunk ends in 64 bits.
    pub handle_out : (e : Event) → InBounds e → Outcome env w (queries env w e) (handle env e w)
    unfolding handle file_recv_cb
    handle_out (connection friend_number status) b = connection_out friend_number status
    handle_out (request public_key) b =
        Returns-mono
          (Returns-both (friend_request_cb-IsUp env public_key w shows.quiet up)
            (request-Untouched env public_key w shows.quiet up.tmp_opens))
          λ _ w' (up', same). (up', ap (λ (s : Store S). s.db) same)
    handle_out (message friend_number text) b = message_out friend_number text
    handle_out (name friend_number text) b = name_out friend_number text
    handle_out (status_message friend_number text) b = status_message_out friend_number text
    handle_out (chunk friend_number file_number position size) b =
        Returns-mono
          (Returns-both (chunk-IsUp env friend_number file_number position size w b up)
            (chunk-Untouched env friend_number file_number position size w b up))
          λ _ w' (up', same). (up', ap (λ (s : Store S). s.db) same)
    handle_out (recv friend_number file_number kind file_size filename) b =
        rw (log_bytes_quiet env.conf filename w shows.quiet) (returns (up, refl))
    handle_out (recv_chunk friend_number file_number position bytes) b = returns (up, refl)
    handle_out (timer friend_number event_type user_data) b =
        Returns-bind
          (Returns-both (timer-IsUp env friend_number event_type user_data w up)
            (timer-Untouched env friend_number event_type user_data w))
          λ _ w' (up', same). returns (up', ap (λ (s : Store S). s.db) same)
