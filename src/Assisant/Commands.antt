-- ===== src/Assisant/Commands.antt =====
-- The commands of the users: `process_cmd` and what it calls. A command gives whether to reply, and
-- the reply. Of a buffer that toxcore fills, the text is what stands before the first NUL.
use find_friend_bot.Base.{
  length, ℕ, Bool, true, false, not, ◌&&◌, has_byte, null_pointer, out_of_range, Option, none, some,
  List, [], ◌∷◌, Text, codes, text_eq, c_str, take, ◌==◌, if◌then◌else◌, ok, Cmd, fail, uncaught,
  pure, ◌>>=◌, ◌>>◌,
}
use find_friend_bot.LockedQueue.{Ptr, null, Locking}
use find_friend_bot.LockedQueue
use find_friend_bot.Member.{Member, set_pk, set_tok_id, set_nick_name, set_bio, set_signature}
use find_friend_bot.MemberMgr
use find_friend_bot.MemberMgr.{MemberMgr, modify, on_pool}
use find_friend_bot.MemberModel
use find_friend_bot.MemberModel.{on_db, on_mgr}
use find_friend_bot.Conf.{Conf}
use find_friend_bot.Map.{erase}
use find_friend_bot.Logger.{trace, debug, info, warning, error, fatal, severity_of}
use find_friend_bot.World.{Env, World, on_store, ask_tox, call_tox}
use find_friend_bot.Util.{get_pk_by_id}

-- `(char*)buf`, for a buffer of `size + 1` bytes that was cleared first.
abbrev pub text_of_buffer : ℕ → Option Text → Text
text_of_buffer size none = []
text_of_buffer size (some bytes) = c_str (take size bytes)

-- Whether the filter of the log lets through what is said at `debug`.
unfoldable pub logs_debug : Conf → Bool
unfolding severity_of
logs_debug conf = elim (severity_of conf.log_level) [
  | trace ↦ true
  | debug ↦ true
  | info ↦ false
  | warning ↦ false
  | error ↦ false
  | fatal ↦ false
]

-- `GLOBAL_LOGGER(debug) << (char*)pointer`, for a text that ends in a NUL: the record is only made if
-- the filter lets it through, and then a null pointer is read.
unfoldable pub log_text : {S : Type 0} → Conf → Option Text → Cmd S (Unit {0})
unfolding logs_debug
log_text conf none = if logs_debug conf then fail null_pointer else pure tt
log_text conf (some text) = pure tt

-- The same for bytes that come without a NUL behind them: they are read up to the first one.
unfoldable pub log_bytes : {S : Type 0} → Conf → Option Text → Cmd S (Unit {0})
unfolding logs_debug
log_bytes conf none = if logs_debug conf then fail null_pointer else pure tt
log_bytes conf (some bytes) =
    if logs_debug conf && not (has_byte 0 bytes) then fail out_of_range else pure tt

-- A friend asks for a reply: its text, if there is one.
abbrev pub Reply : Type 0
Reply = Bool × Text

-- `if (member) { member->set_…(…); }`
unfoldable pub set_cached : Ptr → (Member → Member) → Cmd MemberMgr (Unit {0})
unfolding modify
set_cached member f = if member == null then pure tt else modify f member

-- The new object of `cmd_start`, put online.
unfoldable pub put_online : Locking → (pk tok_id nick_name bio : Text) → Cmd MemberMgr (Unit {0})
unfolding MemberMgr.allocate MemberMgr.add_member modify
put_online locking pk tok_id nick_name bio = do
  member ← MemberMgr.allocate locking
  modify (set_pk pk) member
  modify (set_tok_id tok_id) member
  modify (set_nick_name nick_name) member
  modify (set_bio bio) member
  MemberMgr.add_member member

module _ {T S : Type 0} (env : Env T S) where
  open env use {conf, boost, tox, locking, sql}

  -- The null pointer is `none`.
  unfoldable pub get_name : ℕ → Cmd (World T S) (Option Text)
  get_name friend_number = do
    size ← ask_tox (tox.friend_get_name_size friend_number)
    elim size [
      | none ↦ pure none
      | some n ↦ do
        bytes ← ask_tox (tox.friend_get_name friend_number)
        pure (some (text_of_buffer n bytes))
    ]

  unfoldable pub get_status_message : ℕ → Cmd (World T S) (Option Text)
  get_status_message friend_number = do
    size ← ask_tox (tox.friend_get_status_message_size friend_number)
    elim size [
      | none ↦ pure none
      | some n ↦ do
        bytes ← ask_tox (tox.friend_get_status_message friend_number)
        pure (some (text_of_buffer n bytes))
    ]

  unfoldable pub send_friend_message_req : ℕ → Text → Cmd (World T S) Bool
  send_friend_message_req friend_number msg w =
      let r = tox.friend_send_message friend_number msg w.network in
      ok r.0
        (record w { network = r.1; sent = if r.0 then (friend_number, msg) ∷ w.sent else w.sent })

  unfoldable pub start_as : ℕ → (tok_id nick_name bio : Text) → Cmd (World T S) Reply
  unfolding get_pk_by_id put_online
  start_as friend_number tok_id nick_name bio = do
    create_time ← ask_tox tox.unixtime
    pk ← get_pk_by_id env friend_number
    on_store
        (on_db (MemberModel.add_friend sql locking tok_id pk nick_name bio create_time create_time))
    on_store (on_mgr (put_online locking pk tok_id nick_name bio))
    pure (true, conf.desc_start)

  unfoldable pub cmd_start : ℕ → Text → Text → Cmd (World T S) Reply
  unfolding start_as get_name get_status_message log_text
  cmd_start friend_number tok_id msg_res = elim tok_id [
    | [] ↦ pure (true, conf.desc_start_non_tok)
    | c ∷ cs ↦ do
      name ← get_name friend_number
      log_text conf name
      status_message ← get_status_message friend_number
      log_text conf status_message
      elim name [
        | none ↦ pure (false, msg_res)
        | some nick_name ↦ elim status_message [
          | none ↦ pure (false, msg_res)
          | some bio ↦ start_as friend_number (c ∷ cs) nick_name bio
        ]
      ]
  ]

  unfoldable pub cmd_stop : ℕ → Cmd (World T S) Reply
  unfolding get_pk_by_id
  cmd_stop friend_number = do
    pk ← get_pk_by_id env friend_number
    on_store (on_mgr (MemberMgr.del_member locking pk))
    deleted ← on_store (on_db (MemberModel.del_friend sql locking pk))
    pure (not (deleted == 0), conf.desc_stop)

  unfoldable pub set_as : ℕ → Text → Cmd (World T S) Reply
  unfolding get_pk_by_id set_cached MemberMgr.find_member
  set_as friend_number signature = do
    update_time ← ask_tox tox.unixtime
    pk ← get_pk_by_id env friend_number
    member ← on_store (on_mgr (MemberMgr.find_member pk))
    on_store (on_mgr (set_cached member (set_signature signature)))
    changed ←
        on_store (on_db (MemberModel.update_friend_signature sql locking pk signature update_time))
    pure (not (changed == 0), conf.desc_set)

  unfoldable pub cmd_set : ℕ → Text → Cmd (World T S) Reply
  unfolding set_as
  cmd_set friend_number signature = elim signature [
    | [] ↦ pure (true, conf.desc_set_non_tok)
    | c ∷ cs ↦ set_as friend_number (c ∷ cs)
  ]

  -- `(boost::format(…) % … ).str()`; nothing catches what it throws.
  unfoldable pub formatted : Text → List Text → Cmd (World T S) Reply
  formatted pattern args = elim (boost.format pattern args) [
    | none ↦ fail uncaught
    | some msg ↦ pure (true, msg)
  ]

  -- `rand()`, which is only called where another member is online.
  unfoldable pub draw : Text → Cmd (World T S) ℕ
  draw pk w =
      if length (erase pk w.store.member_mgr.online_member) == 0
      then ok 0 w
      else call_tox tox.rand w

  unfoldable pub cmd_get : ℕ → Cmd (World T S) Reply
  unfolding draw get_pk_by_id formatted LockedQueue.load
  cmd_get friend_number = do
    pk ← get_pk_by_id env friend_number
    r ← draw pk
    member ← on_store (on_mgr (MemberMgr.random_member pk r))
    if member == null then pure (true, conf.desc_get_none) else do
      a ← on_store (on_mgr (on_pool (LockedQueue.load member)))
      formatted conf.desc_get (a.nick_name ∷ a.bio ∷ a.signature ∷ a.tok_id ∷ [])

  unfoldable pub cmd_info : ℕ → Text → Cmd (World T S) Reply
  unfolding get_pk_by_id formatted get_name get_status_message MemberMgr.find_member
      LockedQueue.load
  cmd_info friend_number msg_res = do
    pk ← get_pk_by_id env friend_number
    member ← on_store (on_mgr (MemberMgr.find_member pk))
    if not (member == null)
        then (do
          a ← on_store (on_mgr (on_pool (LockedQueue.load member)))
          formatted conf.desc_info (a.nick_name ∷ a.bio ∷ a.signature ∷ []))
        else do
          name ← get_name friend_number
          status_message ← get_status_message friend_number
          elim name [
            | none ↦ pure (true, msg_res)
            | some nick_name ↦ elim status_message [
              | none ↦ pure (true, msg_res)
              | some bio ↦ formatted conf.desc_info (nick_name ∷ bio ∷ [] ∷ [])
            ]
          ]

  unfoldable pub cmd_help : Cmd (World T S) Reply
  cmd_help = pure (true, conf.desc_help)

  unfoldable pub cmd_readme : Cmd (World T S) Reply
  cmd_readme = pure (true, conf.desc_readme)

  -- The chain of tests on the command, which is in lower case.
  unfoldable pub dispatch : ℕ → Text → Text → Text → Cmd (World T S) Reply
  dispatch friend_number cmd param msg_res =
      if text_eq (codes "start") cmd
      then cmd_start friend_number (boost.to_upper param) msg_res
      else if text_eq (codes "stop") cmd
      then cmd_stop friend_number
      else if text_eq (codes "set") cmd
      then cmd_set friend_number param
      else if text_eq (codes "get") cmd
      then cmd_get friend_number
      else if text_eq (codes "info") cmd
      then cmd_info friend_number msg_res
      else if text_eq (codes "help") cmd
      then cmd_help
      else if text_eq (codes "readme") cmd
      then cmd_readme
      else pure (true, msg_res)

  -- The two characters `\n` of a setting become a line feed.
  abbrev pub lines : Text → Text
  lines msg = boost.replace_all msg (codes "\\n") (10 ∷ [])

  unfoldable pub answer : ℕ → Reply → Cmd (World T S) (Unit {0})
  unfolding send_friend_message_req
  answer friend_number (false, msg_res) = pure tt
  answer friend_number (true, msg_res) = do
    queued ← send_friend_message_req friend_number (lines msg_res)
    pure tt

  unfoldable pub process_cmd : ℕ → Text → Text → Cmd (World T S) (Unit {0})
  unfolding dispatch answer
  process_cmd friend_number cmd param = do
    reply ← dispatch friend_number (boost.to_lower cmd) param conf.desc_unknown_cmd
    answer friend_number reply
