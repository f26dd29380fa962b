-- ===== src/Assisant/Events.antt =====
-- What the callbacks mean for the directory of the members that are online.
use mathlib.Core.Option
use find_friend_bot.Base.{
  ℕ, ◌+◌, ◌<◌, ◌^◌, ◌≡◌, ◌≢◌, refl, ap, ◌∙◌, Bool, true, false, List, [], Option, none, some, Text,
  c_str, ◌==◌, ltb, arith, Returns, Returns-mono, Returns-bind, returns, Bool-cases, inl, inr, Run,
}
use find_friend_bot.LockedQueue.{Ptr}
use find_friend_bot.Member.{Member, set_nick_name, set_bio}
use find_friend_bot.MemberMgr.{MemberMgr}
use find_friend_bot.MemberMgr.View.{view, or_else, Deleted-view, Joined-view}
use find_friend_bot.MemberModel.Fetch.{member_in}
use find_friend_bot.Sql.{Row}
use find_friend_bot.Sql.Healthy.{Healthy}
use find_friend_bot.World.{Env, World}
use find_friend_bot.Assisant.Parser.{parse_msg, parse_msg_total}
use find_friend_bot.Assisant.Commands.{logs_debug, send_friend_message_req}
use find_friend_bot.Assisant.Files.{update_savedata_file, file_chunk_request_cb}
use find_friend_bot.Assisant.Avatar.{file_chunk_request_cb-Answered}
use find_friend_bot.Assisant.Callbacks.{
  Connection, connection_none, connection_tcp, connection_udp, friend_request_cb, event_timeout_cb,
  file_recv_cb, resend_later, tips_later, friend_message_cb, event_friend_add_tips, resend_time_max,
}
use find_friend_bot.Assisant.Start.{key_of, log_bytes_quiet}
use find_friend_bot.Assisant.Profile.{friend_name_cb-Profiled, friend_status_message_cb-Profiled}
use find_friend_bot.Assisant.Presence.{Present, tox_friend_connection_status_callback-Present}
use find_friend_bot.Assisant.Upkeep.{IsUp, Formats}
use find_friend_bot.Assisant.CachedView.{Directory, put, Cached-view}
use find_friend_bot.Assisant.Directory.{directory, followed, card, process_cmd-directory}
use find_friend_bot.Assisant.Running.{
  Event, connection, request, message, name, status_message, chunk, recv, recv_chunk, timer,
  InBounds, handle,
}

-- The member with a row comes online, unless the key is there.
abbrev pub entered : Option Row → Directory → Directory
entered none d = d
entered (some row) d = put row.pk (or_else (d row.pk) (some (member_in row))) d

abbrev pub connected : Connection → Text → Option Row → Directory → Directory
connected connection_none key row d = put key none d
connected connection_tcp key row d = entered row d
connected connection_udp key row d = entered row d

-- A change of the member with a key, if there is one.
abbrev pub changed : Text → (Member → Member) → Directory → Directory
changed key change d = put key (Option.map change (d key)) d

module _ {T S : Type 0} (env : Env T S) where
  abbrev commanded : ℕ → World T S → Option (Text × Text) → Directory → Directory
  commanded friend_number w none d = d
  commanded friend_number w (some (cmd, param)) d =
      followed (env.boost.to_lower cmd) (env.boost.to_upper param) param
        (key_of env friend_number w) (card env friend_number w) d

  -- What a callback does to the directory, by the state that it finds.
  abbrev pub effect : (Text → Option Row) → World T S → Event → Directory → Directory
  effect table w (connection friend_number status) d =
      let key = key_of env friend_number w in connected status key (table (c_str key)) d
  effect table w (message friend_number text) d =
      commanded friend_number w (parse_msg text ([], [])) d
  effect table w (name friend_number text) d =
      changed (key_of env friend_number w) (set_nick_name (c_str text)) d
  effect table w (status_message friend_number text) d =
      changed (key_of env friend_number w) (set_bio (c_str text)) d
  effect table w _ d = d

  -- The run leaves the store alone.
  abbrev Untouched : {A : Type 0} → World T S → Run (World T S) A → Type 0
  Untouched w = Returns (λ _ w'. w'.store ≡ w.store)

  tips_later-Untouched :
      (friend_number : ℕ) (ret : Bool) (w : World T S)
      → Untouched w (tips_later env friend_number ret w)
  unfolding tips_later
  tips_later-Untouched friend_number true w = returns refl
  tips_later-Untouched friend_number false w = returns refl

  pub request-Untouched :
      (public_key : Text) (w : World T S)
      → logs_debug env.conf ≡ false
      → w.writable env.conf.save_data_tmp_file ≡ true
      → Untouched w (friend_request_cb env public_key w)
  unfolding friend_request_cb update_savedata_file send_friend_message_req
  request-Untouched public_key w quiet opens =
      rw (log_bytes_quiet env.conf (some public_key) w quiet, opens) (tips_later-Untouched _ _ _)

  resend_later-Untouched :
      (friend_number : ℕ) (ret : Bool) (user_data : Option ℕ) (w : World T S)
      → Untouched w (resend_later env friend_number ret user_data w)
  unfolding resend_later
  resend_later-Untouched friend_number true user_data w = returns refl
  resend_later-Untouched friend_number false none w = returns refl
  resend_later-Untouched friend_number false (some interval) w =
      elim (Bool-cases (ltb resend_time_max interval)) [
        | inl e ↦ rw e (returns refl)
        | inr e ↦ rw e (returns refl)
      ]

  pub timer-Untouched :
      (friend_number event_type : ℕ) (user_data : Option ℕ) (w : World T S)
      → Untouched w (event_timeout_cb env friend_number event_type user_data w)
  unfolding event_timeout_cb send_friend_message_req
  timer-Untouched friend_number event_type user_data w =
      elim (Bool-cases (event_type == event_friend_add_tips)) [
        | inr e ↦ rw e (returns refl)
        | inl e ↦ rw e (resend_later-Untouched friend_number _ user_data _)
      ]

  pub chunk-Untouched :
      (friend_number file_number position size : ℕ) (w : World T S)
      → position + size < 2 ^ 64
      → IsUp env w
      → Untouched w (file_chunk_request_cb env friend_number file_number position size w)
  unfolding file_chunk_request_cb
  chunk-Untouched friend_number file_number position size w l up = elim (Bool-cases (size == 0)) [
    | inl e ↦ rw (file_chunk_request_cb, e) (returns refl)
    | inr e ↦
        let some_size : size ≢ 0 = λ z. ground (arith, e, z) in
        Returns-mono
          (file_chunk_request_cb-Answered env friend_number file_number position size l some_size w
            up.avatar)
          λ _ w' (loaded, (b, n, same, fits, _), a). elim a [
            | inl (_, kept) ↦ ap (λ (x : World T S). x.store) (kept ∙ same)
            | inr (_, _, _, sent) ↦
                ap (λ (x : World T S). x.store) sent ∙ ap (λ (x : World T S). x.store) same
          ]
  ]

  module _ {rows : S → Text → Option Row} (h : Healthy env.sql rows) (shows : Formats env) where
    abbrev pub Follows : World T S → Event → Run (World T S) (Unit {0}) → Type 0
    Follows w e = Returns (λ _ w'.
        (pk : Text)
        → directory env w' pk ≡ effect (rows w.store.db.server) w e (directory env w) pk)

    Untouched-Follows :
        {A : Type 0} (w : World T S) {r : Run (World T S) A}
        → Untouched w r
        → Returns (λ _ w'. (pk : Text) → directory env w' pk ≡ directory env w pk) r
    Untouched-Follows w u = Returns-mono u λ _ w' same pk. ap (λ s. view s.member_mgr pk) same

    Present-view :
        (status : Connection) (row : Option Row) (key : Text) (m m' : MemberMgr) (loose : List Ptr)
        → Present env h status row key loose m m'
        → (pk : Text) → view m' pk ≡ connected status key row (view m) pk
    Present-view connection_none row key m m' loose gone pk = Deleted-view m m' loose key gone pk
    Present-view connection_tcp none key m m' loose same pk = ap (λ x. view x pk) same
    Present-view connection_tcp (some row) key m m' loose (q, j) pk = Joined-view j pk
    Present-view connection_udp none key m m' loose same pk = ap (λ x. view x pk) same
    Present-view connection_udp (some row) key m m' loose (q, j) pk = Joined-view j pk

    message-Follows :
        (friend_number : ℕ) (text : Text) (w : World T S)
        → IsUp env w
        → Follows w (message friend_number text) (friend_message_cb env friend_number text w)
    unfolding friend_message_cb
    message-Follows friend_number text w up =
        let (parts, parsed) = parse_msg_total text ([], []) in
        rw (friend_message_cb, parsed)
          (process_cmd-directory env h shows friend_number parts.0 parts.1 w up)

    -- From a state that is up, each callback ends without a fault and changes the directory of the
    -- members online as `effect` says: if the database is up, the two formats fit, the filter of
    -- the log is above `debug`, and a request for a chunk ends in 64 bits.
    pub handle-Follows :
        (e : Event) (w : World T S) → InBounds e → IsUp env w → Follows w e (handle env e w)
    unfolding handle file_recv_cb
    handle-Follows (connection friend_number status) w b up =
        Returns-mono
          (tox_friend_connection_status_callback-Present env h friend_number status w up.running
            up.avatar)
          λ _ w' (_, _, there, _, _) pk. Present-view status _ _ _ _ up.loose there pk
    handle-Follows (request public_key) w b up =
        Untouched-Follows w (request-Untouched public_key w shows.quiet up.tmp_opens)
    handle-Follows (message friend_number text) w b up = message-Follows friend_number text w up
    handle-Follows (name friend_number text) w b up =
        Returns-mono (friend_name_cb-Profiled env h friend_number text w up.tmp_opens up.running)
          λ _ w' (_, _, cached, _, _, _) pk.
            Cached-view (key_of env friend_number w) (set_nick_name (c_str text)) up.running.valid
              cached pk
    handle-Follows (status_message friend_number text) w b up =
        Returns-mono
          (friend_status_message_cb-Profiled env h friend_number text w up.tmp_opens up.running)
          λ _ w' (_, _, cached, _, _, _) pk.
            Cached-view (key_of env friend_number w) (set_bio (c_str text)) up.running.valid cached
              pk
    handle-Follows (chunk friend_number file_number position size) w b up =
        Untouched-Follows w (chunk-Untouched friend_number file_number position size w b up)
    handle-Follows (recv friend_number file_number kind file_size filename) w b up =
        Untouched-Follows w (rw (log_bytes_quiet env.conf filename w shows.quiet) (returns refl))
    handle-Follows (recv_chunk friend_number file_number position bytes) w b up =
        Untouched-Follows w (returns refl)
    handle-Follows (timer friend_number event_type user_data) w b up =
        Returns-bind (Untouched-Follows w (timer-Untouched friend_number event_type user_data w))
          λ _ w' same. returns same
