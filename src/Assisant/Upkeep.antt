-- ===== src/Assisant/Upkeep.antt =====
-- The state of the bot between two callbacks, and the commands, which keep it.
use find_friend_bot.Base.{
  Bool-cases, refl, ◌⊎◌, ℕ, ◌≡◌, sym, subst, Bool, true, false, List, [], ◌∷◌, Option, some, Text,
  codes, text_eq, Returns, Cmd, Run, returns, Returns-bind, Returns-mono, Option-cases, inl, inr,
  if◌then◌else◌, pure,
}
use find_friend_bot.Assisant.Commands.{
  logs_debug, lines, Reply, cmd_start, cmd_stop, cmd_set, cmd_get, cmd_info, cmd_help, cmd_readme,
  dispatch, answer, process_cmd, send_friend_message_req,
}
use find_friend_bot.LockedQueue.{Ptr}
use find_friend_bot.Map.{find}
use find_friend_bot.MemberMgr.Invariant.{IsValid}
use find_friend_bot.Sql.{Row}
use find_friend_bot.Sql.Healthy.{Healthy}
use find_friend_bot.DbConn.Laws.{IsReady}
use find_friend_bot.MemberModel.{Store}
use find_friend_bot.World.{Env, World, SameOutside}
use find_friend_bot.Assisant.Start.{IsRunning, key_of, cmd_start-Started, cmd_start_unknown}
use find_friend_bot.Assisant.Answers.{cmd_stop-Deleted, cmd_set-Signed, cmd_get-IsOther}
use find_friend_bot.Assisant.Info.{cmd_info_unknown, cmd_info_online, cmd_info_offline}
use find_friend_bot.Assisant.Avatar.{AvatarFits}

module _ {T S : Type 0} (env : Env T S) where
  -- Both pools are in order, the temporary file can be opened, and the avatar has the size that goes
  -- with it.
  pub record IsUp (w : World T S) : Type 0 where
    pub loose : List Ptr
    pub running : IsRunning env loose w
    pub tmp_opens : w.writable env.conf.save_data_tmp_file ≡ true
    pub avatar : AvatarFits w.avatar_data w.avatar_data_size

  -- The formats of the settings have the places that the code fills, and the filter of the log is above
  -- `debug`.
  pub record Formats : Type 0 where
    pub quiet : logs_debug env.conf ≡ false
    pub get_shows :
        (a b c d : Text)
        → (msg : Text) × (env.boost.format env.conf.desc_get (a ∷ b ∷ c ∷ d ∷ []) ≡ some msg)
    pub info_shows :
        (a b c : Text)
        → (msg : Text) × (env.boost.format env.conf.desc_info (a ∷ b ∷ c ∷ []) ≡ some msg)

  abbrev pub StaysUp : {A : Type 0} → Run (World T S) A → Type 0
  StaysUp = Returns (λ _ w'. IsUp w')

  pub still-IsUp :
      {w w' : World T S} {loose : List Ptr}
      → IsUp w
      → SameOutside w w'
      → IsRunning env loose w'
      → IsUp w'
  still-IsUp {w} {w'} {loose} up (f, wr, b, n, s) v = record {
    loose = loose;
    running = v;
    tmp_opens = rw wr up.tmp_opens;
    avatar = rw (b, n) up.avatar;
  }

  -- What toxcore and the disk do is no matter.
  pub elsewhere :
      {w : World T S}
      → IsUp w
      → (t : T) (files : Text → Option Text) (sent : List (ℕ × Text))
      → IsUp (record w { network = t; files = files; sent = sent })
  elsewhere up t files sent = record {
    loose = up.loose;
    running = record { ready = up.running.ready; valid = up.running.valid };
    tmp_opens = up.tmp_opens;
    avatar = up.avatar;
  }

  pub send-IsUp :
      (friend_number : ℕ) (msg : Text) (w : World T S)
      → IsUp w
      → StaysUp (send_friend_message_req env friend_number msg w)
  unfolding send_friend_message_req
  send-IsUp friend_number msg w up = returns (elsewhere up _ _ _)

  -- The run ends without a fault, the bot is up, and no message was sent.
  abbrev SilentUp : {A : Type 0} → World T S → Run (World T S) A → Type 0
  SilentUp w = Returns (λ _ w'. IsUp w' × (w'.sent ≡ w.sent))

  -- A command that does so whenever the bot is up.
  pub record Stays {A : Type 0} (x : Cmd (World T S) A) : Type 0 where
    pub stays : (w : World T S) → IsUp w → SilentUp w (x w)

  Stays-if :
      {A : Type 0} (b : Bool) {x y : Cmd (World T S) A}
      → Stays x
      → Stays y
      → Stays (if b then x else y)
  Stays-if true h g = h
  Stays-if false h g = g

  Stays-pure : {A : Type 0} (a : A) → Stays (pure a)
  Stays-pure a = record { stays = λ w up. returns (up, refl) }

  module _ {rows : S → Text → Option Row} (h : Healthy env.sql rows) (shows : Formats)
      (friend_number : ℕ) where
    cmd_start-IsUp :
        (tok_id msg_res : Text) (w : World T S)
        → IsUp w
        → SilentUp w (cmd_start env friend_number tok_id msg_res w)
    unfolding cmd_start
    cmd_start-IsUp [] msg_res w up = returns (up, refl)
    cmd_start-IsUp (c ∷ cs) msg_res w up =
        elim (Option-cases (env.tox.friend_get_name_size friend_number w.network)) [
          | inl e ↦
              rw (cmd_start_unknown env friend_number c cs msg_res w (inl e) shows.quiet)
                (returns (up, refl))
          | inr (n, e) ↦
              elim (Option-cases (env.tox.friend_get_status_message_size friend_number w.network)) [
                | inl f ↦
                    rw (cmd_start_unknown env friend_number c cs msg_res w (inr f) shows.quiet)
                      (returns (up, refl))
                | inr (l, f) ↦
                    Returns-mono
                      (cmd_start-Started env h friend_number c cs msg_res w n l e f up.running)
                      λ _ w' (_, same, ready, _, (q, j)).
                        (still-IsUp up same (record { ready = ready; valid = j.valid }), same.4)
              ]
        ]

    cmd_stop-IsUp : (w : World T S) → IsUp w → SilentUp w (cmd_stop env friend_number w)
    cmd_stop-IsUp w up =
        Returns-mono (cmd_stop-Deleted env h friend_number w up.running)
          λ _ w' (_, same, ready, gone, _).
            (still-IsUp up same (record { ready = ready; valid = gone.0 }), same.4)

    cmd_set-IsUp :
        (signature : Text) (w : World T S)
        → IsUp w
        → SilentUp w (cmd_set env friend_number signature w)
    unfolding cmd_set
    cmd_set-IsUp [] w up = returns (up, refl)
    cmd_set-IsUp (c ∷ cs) w up =
        Returns-mono (cmd_set-Signed env h friend_number c cs w up.running)
          λ _ w' (_, same, _, ready, _, z).
            (still-IsUp up same (record { ready = ready; valid = z.0 }), same.4)

    cmd_get-IsUp : (w : World T S) → IsUp w → SilentUp w (cmd_get env friend_number w)
    cmd_get-IsUp w up =
        Returns-mono (cmd_get-IsOther env friend_number w shows.get_shows up.running) λ _ w' z. (
          still-IsUp up z.1 (record {
            ready = subst (λ (s : Store S). IsReady s.db.pool) (sym z.0) up.running.ready;
            valid =
                subst (λ (s : Store S). IsValid up.loose s.member_mgr) (sym z.0) up.running.valid;
          }),
          z.1.4,
        )

    cmd_info-IsUp :
        (msg_res : Text) (w : World T S)
        → IsUp w
        → SilentUp w (cmd_info env friend_number msg_res w)
    cmd_info-IsUp msg_res w up =
        elim (Option-cases (find (key_of env friend_number w) w.store.member_mgr.online_member)) [
          | inr (q, e) ↦
              let (a, c, _) = up.running.valid.keyed (key_of env friend_number w) q e in
              let (msg, shown) = shows.info_shows a.nick_name a.bio a.signature in
              rw (cmd_info_online env friend_number msg_res w up.running e c shown)
                (returns (up, refl))
          | inl e ↦ elim (Option-cases (env.tox.friend_get_name_size friend_number w.network)) [
            | inl f ↦
                rw (cmd_info_unknown env friend_number msg_res w e (inl f)) (returns (up, refl))
            | inr (n, f) ↦
                elim (Option-cases
                  (env.tox.friend_get_status_message_size friend_number w.network)) [
                    | inl g ↦
                        rw (cmd_info_unknown env friend_number msg_res w e (inr g))
                          (returns (up, refl))
                    | inr (l, g) ↦
                        let (msg, shown) = shows.info_shows _ _ _ in
                        rw (cmd_info_offline env friend_number msg_res w n l e f g shown)
                          (returns (up, refl))
                  ]
          ]
        ]

    dispatch-Stays :
        (cmd param msg_res : Text) → Stays (dispatch env friend_number cmd param msg_res)
    unfolding dispatch cmd_help cmd_readme
    dispatch-Stays cmd param msg_res =
        Stays-if (text_eq (codes "start") cmd)
          (record { stays = cmd_start-IsUp (env.boost.to_upper param) msg_res })
          (Stays-if (text_eq (codes "stop") cmd) (record { stays = cmd_stop-IsUp })
            (Stays-if (text_eq (codes "set") cmd) (record { stays = cmd_set-IsUp param })
              (Stays-if (text_eq (codes "get") cmd) (record { stays = cmd_get-IsUp })
                (Stays-if (text_eq (codes "info") cmd) (record { stays = cmd_info-IsUp msg_res })
                  (Stays-if (text_eq (codes "help") cmd) (Stays-pure (true, env.conf.desc_help)) (
                    Stays-if (text_eq (codes "readme") cmd)
                      (Stays-pure (true, env.conf.desc_readme)) (Stays-pure (true, msg_res))))))))

    -- At most one message was sent, and that to the friend.
    abbrev pub AtMostOne : World T S → World T S → Type 0
    AtMostOne w w' = (w'.sent ≡ w.sent) ⊎ ((msg : Text) × (w'.sent ≡ (friend_number, msg) ∷ w.sent))

    answer-AtMostOne :
        (reply : Reply) (w : World T S)
        → IsUp w
        → Returns (λ _ w'. IsUp w' × AtMostOne w w') (answer env friend_number reply w)
    unfolding answer send_friend_message_req
    answer-AtMostOne (false, msg) w up = returns (up, inl refl)
    answer-AtMostOne (true, msg) w up =
        elim (Bool-cases (env.tox.friend_send_message friend_number (lines env msg) w.network).0) [
          | inl e ↦ rw e (returns (elsewhere up _ _ _, inr (lines env msg, refl)))
          | inr e ↦ rw e (returns (elsewhere up _ _ _, inl refl))
        ]

    -- From a state that is up, with the database up, the two formats
    -- fitting and the filter of the log above `debug`, any command of a
    -- friend ends without a fault in a state that is up, and at most one message was sent, to that
    -- friend.
    pub process_cmd-AtMostOne :
        (cmd param : Text) (w : World T S)
        → IsUp w
        → Returns (λ _ w'. IsUp w' × AtMostOne w w') (process_cmd env friend_number cmd param w)
    unfolding process_cmd
    process_cmd-AtMostOne cmd param w up =
        Returns-bind
          ((dispatch-Stays (env.boost.to_lower cmd) param env.conf.desc_unknown_cmd).stays w up)
          λ reply w1 (up1, same). Returns-mono (answer-AtMostOne reply w1 up1) λ _ w' (up', sent). (
            up',
            subst (λ s. (w'.sent ≡ s) ⊎ ((msg : Text) × (w'.sent ≡ (friend_number, msg) ∷ s))) same
                sent,
          )

    pub process_cmd-IsUp :
        (cmd param : Text) (w : World T S)
        → IsUp w
        → StaysUp (process_cmd env friend_number cmd param w)
    process_cmd-IsUp cmd param w up =
        Returns-mono (process_cmd-AtMostOne cmd param w up) λ _ w' z. z.0
