-- ===== src/Assisant/Callbacks.antt =====
-- The callbacks that toxcore makes, and the timer of the first message to a new friend.
use find_friend_bot.Base.{
  ℕ, ◌*◌, ◌-◌, ◌%◌, ◌^◌, Bool, true, false, Option, none, some, [], Text, c_str, ltb, ◌==◌,
  if◌then◌else◌, Cmd, fail, out_of_range, pure, ◌>>=◌, ◌>>◌,
}
use find_friend_bot.LockedQueue.{Ptr, null}
use find_friend_bot.Member.{set_nick_name, set_bio}
use find_friend_bot.MemberMgr
use find_friend_bot.MemberMgr.{MemberMgr}
use find_friend_bot.MemberModel
use find_friend_bot.MemberModel.{on_db, on_mgr}
use find_friend_bot.World.{Env, World, on_store, ask_tox, tell_tox}
use find_friend_bot.Util.{get_pk_by_id}
use find_friend_bot.Assisant.Parser.{parse_msg}
use find_friend_bot.Assisant.Commands.{
  send_friend_message_req, log_bytes, process_cmd, set_cached, lines,
}
use find_friend_bot.Assisant.Files.{update_savedata_file, send_avatar}

-- `RESEND_TIME_BASE`, `RESEND_TIME_MAX` and `EVENT_FRIEND_ADD_TIPS`
abbrev pub resend_time_base : ℕ
resend_time_base = 1

abbrev pub resend_time_max : ℕ
resend_time_max = 128

abbrev pub event_friend_add_tips : ℕ
event_friend_add_tips = 1

-- `TOX_CONNECTION`
pub data Connection : Type 0 where
  connection_none connection_tcp connection_udp : Connection

-- `if (member) { member_mgr.add_member(member); }`
unfoldable pub welcome : Ptr → Cmd MemberMgr (Unit {0})
welcome member = if member == null then pure tt else MemberMgr.add_member member

-- What is behind the pointer of a timer: it is null, or the cell holds an interval, or was freed.
pub data Cell : Type 0 where
  absent freed : Cell
  holding : ℕ → Cell

abbrev pub held : Option ℕ → Cell
held none = absent
held (some interval) = holding interval

-- `free(user_data)`
abbrev pub free : Option ℕ → Cell
free none = absent
free (some interval) = freed

module _ {T S : Type 0} (env : Env T S) where
  open env use {conf, boost, tox, locking, sql}

  unfoldable pub came_online : ℕ → Text → Cmd (World T S) (Unit {0})
  unfolding MemberModel.find_friend welcome send_avatar
  came_online friend_number pk = do
    member ← on_store (MemberModel.find_friend sql locking pk)
    on_store (on_mgr (welcome member))
    send_avatar env friend_number

  unfoldable pub tox_friend_connection_status_callback : ℕ → Connection → Cmd (World T S) (Unit {0})
  unfolding get_pk_by_id came_online MemberMgr.del_member
  tox_friend_connection_status_callback friend_number connection_status = do
    pk ← get_pk_by_id env friend_number
    elim connection_status [
      | connection_none ↦ on_store (on_mgr (MemberMgr.del_member locking pk))
      | connection_tcp ↦ came_online friend_number pk
      | connection_udp ↦ came_online friend_number pk
    ]

  unfoldable pub tips_later : ℕ → Bool → Cmd (World T S) (Unit {0})
  tips_later friend_number ret =
      if ret
      then pure tt
      else tell_tox (tox.add_timer_event friend_number resend_time_base resend_time_base)

  -- A new friend, whom the bot sends its help; if that fails, a timer is set.
  unfoldable pub friend_request_cb : Text → Cmd (World T S) (Unit {0})
  unfolding update_savedata_file send_friend_message_req tips_later log_bytes
  friend_request_cb public_key = do
    log_bytes conf (some public_key)
    tell_tox (tox.friend_add_norequest public_key)
    update_savedata_file env
    found ← ask_tox (tox.friend_by_public_key public_key)
    let friend_number : ℕ = elim found [ none ↦ 2 ^ 32 - 1 | some n ↦ n ]
    ret ← send_friend_message_req env friend_number (lines env conf.desc_help)
    tips_later friend_number ret

  -- A file that a friend offers is only logged, with its name up to a NUL; so are the numbers of a
  -- piece.
  unfoldable pub file_recv_cb :
      (friend_number file_number kind file_size : ℕ) → Option Text → Cmd (World T S) (Unit {0})
  unfolding log_bytes
  file_recv_cb friend_number file_number kind file_size filename = log_bytes conf filename

  unfoldable pub file_recv_chunk_cb :
      (friend_number file_number position : ℕ) → Text → Cmd (World T S) (Unit {0})
  file_recv_chunk_cb friend_number file_number position bytes = pure tt

  -- What `event_timeout_cb` does after the attempt.
  unfoldable pub resend_later : ℕ → Bool → Option ℕ → Cmd (World T S) (Cell × Bool)
  resend_later friend_number ret user_data =
      if ret then pure (free user_data, false) else elim user_data [
        | none ↦ pure (absent, false)
        | some interval ↦
            if ltb resend_time_max interval then pure (free (some interval), false) else do
              let time_interval = (interval * 2) % 2 ^ 32
              tell_tox (tox.add_timer_event friend_number time_interval time_interval)
              pure (holding time_interval, true)
      ]

  -- `user_data` with the value behind it, null if `none`. The result is the cell as it is left, and
  -- whether the timer was set again.
  unfoldable pub event_timeout_cb : ℕ → ℕ → Option ℕ → Cmd (World T S) (Cell × Bool)
  unfolding send_friend_message_req resend_later
  event_timeout_cb friend_number event_type user_data =
      if event_type == event_friend_add_tips
      then (do
        ret ← send_friend_message_req env friend_number (lines env conf.desc_help)
        resend_later friend_number ret user_data)
      else pure (held user_data, false)

  unfoldable pub friend_message_cb : ℕ → Text → Cmd (World T S) (Unit {0})
  unfolding process_cmd
  friend_message_cb friend_number message = elim (parse_msg message ([], [])) [
    | none ↦ fail out_of_range
    | some (cmd, param) ↦ process_cmd env friend_number cmd param
  ]

  -- The name is read up to a NUL, whatever the length that toxcore gives.
  unfoldable pub friend_name_cb : ℕ → Text → Cmd (World T S) (Unit {0})
  unfolding get_pk_by_id set_cached update_savedata_file MemberMgr.find_member
  friend_name_cb friend_number name = do
    pk ← get_pk_by_id env friend_number
    now ← ask_tox tox.unixtime
    updated ← on_store (on_db (MemberModel.update_friend_name sql locking pk (c_str name) now))
    member ← on_store (on_mgr (MemberMgr.find_member pk))
    on_store (on_mgr (set_cached member (set_nick_name (c_str name))))
    update_savedata_file env

  unfoldable pub friend_status_message_cb : ℕ → Text → Cmd (World T S) (Unit {0})
  unfolding get_pk_by_id set_cached update_savedata_file MemberMgr.find_member
  friend_status_message_cb friend_number message = do
    pk ← get_pk_by_id env friend_number
    now ← ask_tox tox.unixtime
    updated ← on_store (on_db (MemberModel.update_friend_bio sql locking pk (c_str message) now))
    member ← on_store (on_mgr (MemberMgr.find_member pk))
    on_store (on_mgr (set_cached member (set_bio (c_str message))))
    update_savedata_file env
