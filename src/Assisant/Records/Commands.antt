-- ===== src/Assisant/Records/Commands.antt =====
-- What the commands of a friend do to the table of the database.
use find_friend_bot.Base.{
  ℕ, ◌≡◌, refl, ap, [], ◌∷◌, none, some, Text, c_str, Returns-mono, returns, returned, Option-cases,
  inl, inr,
}
use find_friend_bot.MemberMgr.{find_member}
use find_friend_bot.MemberMgr.Removal.{del_member-IsValid}
use find_friend_bot.Member.{set_signature}
use find_friend_bot.Sql.Healthy.{Healthy}
use find_friend_bot.MemberModel.{Store}
use find_friend_bot.MemberModel.Writes.{
  Table, put_row, registered, Confined, add_friend-Puts, del_friend-Puts,
  update_friend_signature-Puts,
}
use find_friend_bot.World.{Env, World}
use find_friend_bot.Assisant.Commands.{
  start_as, cmd_start, cmd_stop, cmd_set, set_as, cmd_get, cmd_info, process_cmd, get_name,
  get_status_message, text_of_buffer, log_text,
}
use find_friend_bot.Assisant.Start.{key_of, put_online-view, cmd_start_unknown}
use find_friend_bot.Assisant.Answers.{set_cached-Cached, cmd_get-IsOther}
use find_friend_bot.Assisant.Info.{cmd_info-Shows}
use find_friend_bot.Assisant.Upkeep.{IsUp, Formats}
use find_friend_bot.Assisant.Directory.{card}
use find_friend_bot.Assisant.Observe.{Does}
use find_friend_bot.Assisant.Observe.Dispatch.{process_cmd-Does}
use find_friend_bot.Assisant.Records.{
  table, enrolled, resigned, noted, HexKeys, c_key, StartFits, SetFits, CommandFits,
}

module _ {T S : Type 0} (env : Env T S) where
  module _ {rows : S → Table} (h : Healthy env.sql rows) (confined : Confined env.sql rows)
      (shows : Formats env) (keys : HexKeys env) where
    module _ (friend_number : ℕ) (w : World T S) (up : IsUp env w) where
      start_known :
          (c : ℕ) (cs msg_res : Text) (n l : ℕ)
          → env.tox.friend_get_name_size friend_number w.network ≡ some n
          → env.tox.friend_get_status_message_size friend_number w.network ≡ some l
          → StartFits env
              (key_of env friend_number w)
              (c ∷ cs)
              (some (
                text_of_buffer n (env.tox.friend_get_name friend_number w.network),
                text_of_buffer l (env.tox.friend_get_status_message friend_number w.network),
              ))
              (env.tox.unixtime w.network)
          → Does
              (table rows)
              (enrolled env
                (key_of env friend_number w)
                (c ∷ cs)
                (some (
                  text_of_buffer n (env.tox.friend_get_name friend_number w.network),
                  text_of_buffer l (env.tox.friend_get_status_message friend_number w.network),
                ))
                (env.tox.unixtime w.network))
              w
              (cmd_start env friend_number (c ∷ cs) msg_res)
      unfolding cmd_start start_as get_name get_status_message log_text
      start_known c cs msg_res n l e f fit =
          let pk = key_of env friend_number w in
          let now = env.tox.unixtime w.network in
          let nick_name = text_of_buffer n (env.tox.friend_get_name friend_number w.network) in
          let bio = text_of_buffer l (env.tox.friend_get_status_message friend_number w.network) in
          let (r, d, ran, puts) = returned (
            add_friend-Puts h confined env.locking (c ∷ cs) pk nick_name bio now now w.store.db
              up.running.ready (c_key env keys friend_number w) fit) in
          let (u, m, ran', j) =
            returned (put_online-view env.locking pk (c ∷ cs) nick_name bio up.running.valid) in
          rw (e, f, ran, ran') (returns puts)

      with_id :
          (c : ℕ) (cs msg_res : Text)
          → StartFits env
              (key_of env friend_number w)
              (c ∷ cs)
              (card env friend_number w)
              (env.tox.unixtime w.network)
          → Does
              (table rows)
              (enrolled env
                (key_of env friend_number w)
                (c ∷ cs)
                (card env friend_number w)
                (env.tox.unixtime w.network))
              w
              (cmd_start env friend_number (c ∷ cs) msg_res)
      with_id c cs msg_res fit =
          elim (Option-cases (env.tox.friend_get_name_size friend_number w.network)) [
            | inl e ↦
                rw (cmd_start_unknown env friend_number c cs msg_res w (inl e) shows.quiet, card, e)
                  (returns (λ key. refl))
            | inr (n, e) ↦
                elim (Option-cases
                  (env.tox.friend_get_status_message_size friend_number w.network)) [
                    | inl f ↦
                        rw
                          (
                            cmd_start_unknown env friend_number c cs msg_res w (inr f) shows.quiet,
                            card,
                            e,
                            f,
                          )
                          (returns (λ key. refl))
                    | inr (l, f) ↦
                        rw (card, e, f) (start_known c cs msg_res n l e f (rw (card, e, f) at fit))
                  ]
          ]

      cmd_start-Does :
          (tok_id msg_res : Text)
          → StartFits env
              (key_of env friend_number w)
              tok_id
              (card env friend_number w)
              (env.tox.unixtime w.network)
          → Does
              (table rows)
              (enrolled env
                (key_of env friend_number w)
                tok_id
                (card env friend_number w)
                (env.tox.unixtime w.network))
              w
              (cmd_start env friend_number tok_id msg_res)
      unfolding cmd_start
      cmd_start-Does [] msg_res fit = returns (λ key. refl)
      cmd_start-Does (c ∷ cs) msg_res fit = with_id c cs msg_res fit

      cmd_stop-Does :
          Does
            (table rows)
            (put_row (c_str (key_of env friend_number w)) none)
            w
            (cmd_stop env friend_number)
      unfolding cmd_stop
      cmd_stop-Does =
          let pk = key_of env friend_number w in
          let (u, m, ran, _) = returned (del_member-IsValid env.locking up.running.valid pk) in
          let (n, d, ran', puts) = returned (
            del_friend-Puts h confined env.locking pk w.store.db up.running.ready
              (c_key env keys friend_number w)) in
          rw (ran, ran') (returns puts)

      cmd_set-Does :
          (param : Text)
          → SetFits env (key_of env friend_number w) param (env.tox.unixtime w.network)
          → Does
              (table rows)
              (resigned env (key_of env friend_number w) param (env.tox.unixtime w.network))
              w
              (cmd_set env friend_number param)
      unfolding cmd_set set_as find_member
      cmd_set-Does [] fit = returns (λ key. refl)
      cmd_set-Does (c ∷ cs) fit =
          let pk = key_of env friend_number w in
          let (u, m, ran, _) = returned (
            set_cached-Cached w.store.member_mgr up.loose pk (set_signature (c ∷ cs)) (λ a. refl)
              up.running.valid) in
          let (n, d, ran', puts) = returned (
            update_friend_signature-Puts h confined env.locking pk (c ∷ cs)
              (env.tox.unixtime w.network) w.store.db up.running.ready
              (c_key env keys friend_number w) fit) in
          rw (ran, ran') (returns puts)

      cmd_get-Does : Does (table rows) (λ t. t) w (cmd_get env friend_number)
      cmd_get-Does =
          Returns-mono (cmd_get-IsOther env friend_number w shows.get_shows up.running)
            λ _ w' z key. ap (λ (s : Store S). registered rows s.db.server key) z.0

      cmd_info-Does :
          (msg_res : Text) → Does (table rows) (λ t. t) w (cmd_info env friend_number msg_res)
      cmd_info-Does msg_res =
          let (reply, ran, _) =
            cmd_info-Shows env friend_number msg_res w up.running shows.info_shows in
          rw ran (returns (λ key. refl))

      pub process_cmd-table :
          (cmd param : Text)
          → CommandFits env friend_number w (some (cmd, param))
          → Does
              (table rows)
              (noted env
                (env.boost.to_lower cmd)
                (env.boost.to_upper param)
                param
                (key_of env friend_number w)
                (card env friend_number w)
                (env.tox.unixtime w.network))
              w
              (process_cmd env friend_number cmd param)
      process_cmd-table cmd param fit =
          let key = key_of env friend_number w in
          let now = env.tox.unixtime w.network in
          process_cmd-Does env (table rows) friend_number
            (enrolled env key (env.boost.to_upper param) (card env friend_number w) now)
            (put_row (c_str key) none) (resigned env key param now) cmd param w
            (λ t sent w1 pk. refl)
            (λ e. cmd_start-Does (env.boost.to_upper param) env.conf.desc_unknown_cmd (fit.0 e))
            cmd_stop-Does (λ e. cmd_set-Does param (fit.1 e)) cmd_get-Does
            (cmd_info-Does env.conf.desc_unknown_cmd)
