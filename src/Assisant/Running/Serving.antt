-- ===== src/Assisant/Running/Serving.antt =====
-- Every callback keeps the bot up, and so does any sequence of them.
use find_friend_bot.Base.{
  ℕ, sym, subst, List, [], ◌∷◌, Option, none, some, Text, returns, Returns-bind, Returns-mono,
}
use find_friend_bot.LockedQueue.{Ptr}
use find_friend_bot.Member.{Member}
use find_friend_bot.MemberMgr.{MemberMgr}
use find_friend_bot.MemberMgr.Invariant.{IsValid}
use find_friend_bot.Sql.{Row, Statement}
use find_friend_bot.Sql.Healthy.{Healthy}
use find_friend_bot.World.{Env, World}
use find_friend_bot.Assisant.Parser.{parse_msg_total}
use find_friend_bot.Assisant.Callbacks.{
  Connection, connection_none, connection_tcp, connection_udp, friend_message_cb, file_recv_cb,
}
use find_friend_bot.Assisant.Start.{log_bytes_quiet}
use find_friend_bot.Assisant.Profile.{
  Profiled, friend_name_cb-Profiled, friend_status_message_cb-Profiled,
}
use find_friend_bot.Assisant.Presence.{
  Welcomed, Present, tox_friend_connection_status_callback-Present,
}
use find_friend_bot.Assisant.Upkeep.{IsUp, Formats, StaysUp, process_cmd-IsUp, elsewhere}
use find_friend_bot.Assisant.Running.{
  Event, connection, request, message, name, status_message, chunk, recv, recv_chunk, timer,
  InBounds, Moment, AllInBounds, handle, run,
}
use find_friend_bot.Assisant.Running.Steps.{timer-IsUp, friend_request_cb-IsUp, chunk-IsUp}

module _ {T S : Type 0} (env : Env T S) where
  module _ {rows : S → Text → Option Row} (h : Healthy env.sql rows) (shows : Formats env) where
    welcomed_loose :
        (row : Option Row) (m m' : MemberMgr) (loose : List Ptr)
        → IsValid loose m
        → Welcomed env h row loose m m'
        → (l : List Ptr) × IsValid l m'
    welcomed_loose none m m' loose v e = (loose, subst (IsValid loose) (sym e) v)
    welcomed_loose (some row) m m' loose v (q, j) = (_, j.valid)

    present_loose :
        (status : Connection) (row : Option Row) (pk : Text) (m m' : MemberMgr) (loose : List Ptr)
        → IsValid loose m
        → Present env h status row pk loose m m'
        → (l : List Ptr) × IsValid l m'
    present_loose connection_none row pk m m' loose v gone = (loose, gone.0)
    present_loose connection_tcp row pk m m' loose v j = welcomed_loose row m m' loose v j
    present_loose connection_udp row pk m m' loose v j = welcomed_loose row m m' loose v j

    Profiled-IsUp :
        {w w' : World T S} (up : IsUp env w) (friend_number : ℕ) (statement : Statement)
        (in_row : Row → Row) (in_object : Member → Member)
        → Profiled env h friend_number statement in_row in_object up.loose w w'
        → IsUp env w'
    Profiled-IsUp {w} {w'} up friend_number statement in_row in_object
          (ready, _, cached, opens, data_same, size_same) =
        record {
          loose = up.loose;
          running = record { ready = ready; valid = cached.0 };
          tmp_opens = rw opens up.tmp_opens;
          avatar = rw (data_same, size_same) up.avatar;
        }

    message-IsUp :
        (friend_number : ℕ) (text : Text) (w : World T S)
        → IsUp env w
        → StaysUp env (friend_message_cb env friend_number text w)
    unfolding friend_message_cb
    message-IsUp friend_number text w up =
        let (parts, parsed) = parse_msg_total text ([], []) in
        rw (friend_message_cb, parsed)
          (process_cmd-IsUp env h shows friend_number parts.0 parts.1 w up)

    pub handle-IsUp :
        (e : Event) (w : World T S) → InBounds e → IsUp env w → StaysUp env (handle env e w)
    unfolding handle file_recv_cb
    handle-IsUp (connection friend_number status) w b up =
        Returns-mono
          (tox_friend_connection_status_callback-Present env h friend_number status w up.running
            up.avatar)
          λ _ w' (ready, _, there, opens, fits).
            let (l, v) = present_loose status _ _ _ _ up.loose up.running.valid there in
            record {
              loose = l;
              running = record { ready = ready; valid = v };
              tmp_opens = rw opens up.tmp_opens;
              avatar = fits;
            }
    handle-IsUp (request public_key) w b up = friend_request_cb-IsUp env public_key w shows.quiet up
    handle-IsUp (message friend_number text) w b up = message-IsUp friend_number text w up
    handle-IsUp (name friend_number text) w b up =
        Returns-mono (friend_name_cb-Profiled env h friend_number text w up.tmp_opens up.running)
          λ _ w' z. Profiled-IsUp up friend_number _ _ _ z
    handle-IsUp (status_message friend_number text) w b up =
        Returns-mono
          (friend_status_message_cb-Profiled env h friend_number text w up.tmp_opens up.running)
          λ _ w' z. Profiled-IsUp up friend_number _ _ _ z
    handle-IsUp (chunk friend_number file_number position size) w b up =
        chunk-IsUp env friend_number file_number position size w b up
    handle-IsUp (recv friend_number file_number kind file_size filename) w b up =
        rw (log_bytes_quiet env.conf filename w shows.quiet) (returns up)
    handle-IsUp (recv_chunk friend_number file_number position bytes) w b up = returns up
    handle-IsUp (timer friend_number event_type user_data) w b up =
        Returns-bind (timer-IsUp env friend_number event_type user_data w up)
          λ _ w' up'. returns up'

    -- From a state that is up, any sequence of callbacks ends without a fault in a state that is
    -- up, whatever toxcore and the disk do in between: if the database is up, the two formats fit,
    -- the filter of the log is above `debug`, and no request for a chunk ends beyond 64 bits.
    pub run-IsUp :
        (moments : List (Moment T)) (w : World T S)
        → AllInBounds moments
        → IsUp env w
        → StaysUp env (run env moments w)
    unfolding run
    run-IsUp [] w b up = returns up
    run-IsUp (e ∷ es) w (b, bs) up =
        Returns-bind (handle-IsUp e.event _ b (elsewhere env up _ _ _))
          λ _ w' up'. run-IsUp es w' bs up'
