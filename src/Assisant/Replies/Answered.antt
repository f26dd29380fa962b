-- ===== src/Assisant/Replies/Answered.antt =====
-- The bot answers to a message as the account says: `friend_message_cb` and the commands behind it.
use find_friend_bot.Base.{
  ℕ, ◌≡◌, refl, sym, true, false, List, [], ◌∷◌, Option, none, some, Text, codes, text_eq, c_str,
  is_some, Run, Returns, returns, Returns-bind, Returns-mono, Option-cases, Bool-cases, inl, inr,
}
use find_friend_bot.Map.{find, erase}
use find_friend_bot.Map.Laws.{find-erase}
use find_friend_bot.MemberMgr.{MemberMgr}
use find_friend_bot.MemberMgr.Invariant.{IsValid}
use find_friend_bot.MemberMgr.View.{view}
use find_friend_bot.Sql.{Row}
use find_friend_bot.Sql.Healthy.{Healthy}
use find_friend_bot.LockedQueue.{Ptr}
use find_friend_bot.World.{Env, World}
use find_friend_bot.Assisant.Commands.{
  Reply, cmd_start, cmd_stop, cmd_set, cmd_get, cmd_info, cmd_help, cmd_readme, dispatch, answer,
  process_cmd, send_friend_message_req,
}
use find_friend_bot.Assisant.Parser.{parse_msg, parse_msg_total}
use find_friend_bot.Assisant.Callbacks.{friend_message_cb}
use find_friend_bot.Assisant.Start.{key_of, cmd_start-Started, cmd_start_unknown}
use find_friend_bot.Assisant.Answers.{cmd_stop-Deleted, cmd_set-Signed, cmd_get-IsOther}
use find_friend_bot.Assisant.Info.{cmd_info-Shows}
use find_friend_bot.Assisant.Directory.{card}
use find_friend_bot.Assisant.Upkeep.{IsUp, Formats}
use find_friend_bot.Assisant.Replies.{
  command_of, info, Alone, StartReply, SetReply, GetReply, Replied, Delivered,
}

-- Where all entries but one are gone, the directory shows nobody else.
erase-Alone :
    (m : MemberMgr) {loose : List Ptr} (key : Text)
    → IsValid loose m
    → erase key m.online_member ≡ []
    → Alone key (view m)
unfolding find
erase-Alone m key v e pk n =
    let gone : find pk m.online_member ≡ none =
      sym (rw (n, e) at (find-erase pk key m.online_member v.sorted)) in
    rw gone refl

module _ {T S : Type 0} (env : Env T S) {rows : S → Text → Option Row} (h : Healthy env.sql rows)
    (shows : Formats env) (friend_number : ℕ) (w : World T S) (up : IsUp env w) where
  -- The reply is one of these, and nothing was sent yet.
  abbrev Gives : (Reply → Type 0) → Run (World T S) Reply → Type 0
  Gives P = Returns (λ reply w'. P reply × (w'.sent ≡ w.sent))

  with_id :
      (c : ℕ) (cs msg_res : Text)
      → Gives
          (StartReply env (c ∷ cs) (card env friend_number w))
          (cmd_start env friend_number (c ∷ cs) msg_res w)
  with_id c cs msg_res =
      elim (Option-cases (env.tox.friend_get_name_size friend_number w.network)) [
        | inl e ↦
            rw (cmd_start_unknown env friend_number c cs msg_res w (inl e) shows.quiet, card, e)
              (returns (refl, refl))
        | inr (n, e) ↦
            elim (Option-cases (env.tox.friend_get_status_message_size friend_number w.network)) [
              | inl f ↦
                  rw
                    (
                      cmd_start_unknown env friend_number c cs msg_res w (inr f) shows.quiet,
                      card,
                      e,
                      f,
                    )
                    (returns (refl, refl))
              | inr (l, f) ↦
                  rw (card, e, f)
                    (Returns-mono
                      (cmd_start-Started env h friend_number c cs msg_res w n l e f up.running)
                      λ _ w' (reply, same, _, _, _). (reply, same.4))
            ]
      ]

  cmd_start-Replied :
      (tok_id msg_res : Text)
      → Gives
          (StartReply env tok_id (card env friend_number w))
          (cmd_start env friend_number tok_id msg_res w)
  unfolding cmd_start
  cmd_start-Replied [] msg_res = returns (refl, refl)
  cmd_start-Replied (c ∷ cs) msg_res = with_id c cs msg_res

  cmd_stop-Replied :
      Gives
        (λ reply. reply ≡ (
          is_some (rows w.store.db.server (c_str (key_of env friend_number w))),
          env.conf.desc_stop,
        ))
        (cmd_stop env friend_number w)
  cmd_stop-Replied =
      Returns-mono (cmd_stop-Deleted env h friend_number w up.running)
        λ _ w' (reply, same, _, _, _). (reply, same.4)

  cmd_set-Replied :
      (param : Text)
      → Gives
          (SetReply env param (rows w.store.db.server (c_str (key_of env friend_number w))))
          (cmd_set env friend_number param w)
  unfolding cmd_set
  cmd_set-Replied [] = returns (refl, refl)
  cmd_set-Replied (c ∷ cs) =
      Returns-mono (cmd_set-Signed env h friend_number c cs w up.running)
        λ _ w' (text, same, unseen, _, _, _). ((text, unseen), same.4)

  cmd_get-Replied :
      Gives
        (GetReply env (key_of env friend_number w) (view w.store.member_mgr))
        (cmd_get env friend_number w)
  cmd_get-Replied =
      Returns-mono (cmd_get-IsOther env friend_number w shows.get_shows up.running)
        λ reply w' (_, same, sure, shown). (
          (
            sure,
            elim shown [
              | inl (text, alone) ↦ inl (
                text,
                erase-Alone w.store.member_mgr (key_of env friend_number w) up.running.valid alone,
              )
              | inr (q, (key, a, apart, there, live, _), text) ↦
                  inr (a, (key, apart, rw there live), text)
            ],
          ),
          same.4,
        )

  cmd_info-Replied :
      Gives
        (Replied env rows friend_number info [] [] w)
        (cmd_info env friend_number env.conf.desc_unknown_cmd w)
  cmd_info-Replied =
      let (reply, ran, shown) =
        cmd_info-Shows env friend_number env.conf.desc_unknown_cmd w up.running shows.info_shows in
      rw ran (returns ((refl, shown), refl))

  dispatch-Replied :
      (cmd param : Text)
      → Gives
          (Replied env rows friend_number (command_of cmd) (env.boost.to_upper param) param w)
          (dispatch env friend_number cmd param env.conf.desc_unknown_cmd w)
  unfolding dispatch cmd_help cmd_readme
  dispatch-Replied cmd param = elim (Bool-cases (text_eq (codes "start") cmd)) [
    | inl e ↦ rw e (cmd_start-Replied (env.boost.to_upper param) env.conf.desc_unknown_cmd)
    | inr e ↦ rw e (elim (Bool-cases (text_eq (codes "stop") cmd)) [
      | inl f ↦ rw f cmd_stop-Replied
      | inr f ↦ rw f (elim (Bool-cases (text_eq (codes "set") cmd)) [
        | inl g ↦ rw g (cmd_set-Replied param)
        | inr g ↦ rw g (elim (Bool-cases (text_eq (codes "get") cmd)) [
          | inl i ↦ rw i cmd_get-Replied
          | inr i ↦ rw i (elim (Bool-cases (text_eq (codes "info") cmd)) [
            | inl j ↦ rw j cmd_info-Replied
            | inr j ↦ rw j (elim (Bool-cases (text_eq (codes "help") cmd)) [
              | inl k ↦ rw k (returns (refl, refl))
              | inr k ↦ rw k (elim (Bool-cases (text_eq (codes "readme") cmd)) [
                | inl l ↦ rw l (returns (refl, refl))
                | inr l ↦ rw l (returns (refl, refl))
              ])
            ])
          ])
        ])
      ])
    ])
  ]

  answer-Delivered :
      (reply : Reply) (w1 : World T S)
      → w1.sent ≡ w.sent
      → Returns (λ _ w'. Delivered env friend_number w w' reply) (answer env friend_number reply w1)
  unfolding answer send_friend_message_req
  answer-Delivered (false, msg) w1 same = returns same
  answer-Delivered (true, msg) w1 same = returns (w1.network, rw same refl)

  process_cmd-Replied :
      (cmd param : Text)
      → Returns
          (λ _ w'.
            (reply : Reply) × Replied env rows friend_number
              (command_of (env.boost.to_lower cmd))
              (env.boost.to_upper param)
              param
              w
              reply
            × Delivered env friend_number w w' reply)
          (process_cmd env friend_number cmd param w)
  unfolding process_cmd
  process_cmd-Replied cmd param =
      Returns-bind (dispatch-Replied (env.boost.to_lower cmd) param) λ reply w1 (good, same).
        Returns-mono (answer-Delivered reply w1 same) λ _ w' sent. (reply, good, sent)

  -- From a state that is up, with the database up, the two formats fitting and the filter of the
  -- log above `debug`, a message from a friend is taken apart into a command and a parameter, and
  -- handled without a fault; whatever the command is, there is a reply that `Replied` admits for
  -- it, which says by command what it may be, from who is online, the row of the friend and what
  -- toxcore knows of the friend, and the messages that were queued stay as they were or, if the
  -- reply is one to send and toxcore takes it, grow by this reply to this friend.
  pub friend_message_cb-Replied :
      (message : Text)
      → Returns
          (λ _ w'.
            (words : Text × Text) × (parse_msg message ([], []) ≡ some words)
            × ((reply : Reply) × Replied env rows friend_number
                  (command_of (env.boost.to_lower words.0))
                  (env.boost.to_upper words.1)
                  words.1
                  w
                  reply
                × Delivered env friend_number w w' reply))
          (friend_message_cb env friend_number message w)
  unfolding friend_message_cb
  friend_message_cb-Replied message =
      let ((cmd, param), parsed) = parse_msg_total message ([], []) in
      rw (parsed, friend_message_cb)
        (Returns-mono (process_cmd-Replied cmd param) λ _ w' done. ((cmd, param), refl, done))
