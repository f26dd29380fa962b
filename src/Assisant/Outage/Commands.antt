-- ===== src/Assisant/Outage/Commands.antt =====
-- The commands where the database cannot be reached.
use find_friend_bot.Base.{
  ℕ, ◌≡◌, refl, ap, subst, sym, true, false, ◌&&◌, [], ◌∷◌, some, is_some, Text, codes, text_eq,
  fault, null_pointer, returns, Returns-mono, returned, Option-cases, inl, inr,
}
use find_friend_bot.DbConn.Laws.{IsReady}
use find_friend_bot.DbConn.Outage.{IsOut}
use find_friend_bot.MemberModel.{Store, add_friend, del_friend, update_friend_signature}
use find_friend_bot.MemberModel.Outage.{run_update_out}
use find_friend_bot.MemberMgr.{find_member}
use find_friend_bot.MemberMgr.Invariant.{IsValid}
use find_friend_bot.MemberMgr.Removal.{del_member-IsValid}
use find_friend_bot.Member.{set_signature}
use find_friend_bot.World.{Env, World}
use find_friend_bot.Assisant.Commands.{
  log_text, Reply, start_as, cmd_start, cmd_stop, set_as, cmd_set, cmd_get, cmd_info, cmd_help,
  cmd_readme, dispatch, answer, process_cmd, send_friend_message_req, get_name, get_status_message,
}
use find_friend_bot.Assisant.Start.{key_of, cmd_start_unknown}
use find_friend_bot.Assisant.Answers.{set_cached-Cached, cmd_get-IsOther}
use find_friend_bot.Assisant.Info.{cmd_info-Shows}
use find_friend_bot.Assisant.Upkeep.{IsUp, Formats, still-IsUp, elsewhere}
use find_friend_bot.Assisant.Directory.{card}
use find_friend_bot.Assisant.Outage.{given, writes, Outcome, Outcome-if, Outcome-same, Outcome-bind}

module _ {T S : Type 0} (env : Env T S) where
  module _ (shows : Formats env) (w : World T S) (up : IsUp env w)
      (out : IsOut env.sql w.store.db) where
    module _ (friend_number : ℕ) where
      -- With a name and a status, `/start` writes the row first.
      start_known_out :
          (c : ℕ) (cs msg_res : Text) (n l : ℕ)
          → env.tox.friend_get_name_size friend_number w.network ≡ some n
          → env.tox.friend_get_status_message_size friend_number w.network ≡ some l
          → cmd_start env friend_number (c ∷ cs) msg_res w ≡ fault null_pointer
      unfolding cmd_start start_as get_name get_status_message add_friend log_text
      start_known_out c cs msg_res n l e f =
          rw (e, f, run_update_out env.sql env.locking _ out) refl

      with_id_out :
          (c : ℕ) (cs msg_res : Text)
          → Outcome env w
              (is_some (card env friend_number w))
              (cmd_start env friend_number (c ∷ cs) msg_res w)
      with_id_out c cs msg_res =
          elim (Option-cases (env.tox.friend_get_name_size friend_number w.network)) [
            | inl e ↦
                rw (cmd_start_unknown env friend_number c cs msg_res w (inl e) shows.quiet, card, e)
                  (returns (up, refl))
            | inr (n, e) ↦
                elim (Option-cases
                  (env.tox.friend_get_status_message_size friend_number w.network)) [
                    | inl f ↦
                        rw
                          (
                            cmd_start_unknown env friend_number c cs msg_res w (inr f) shows.quiet,
                            card,
                            e,
                            f,
                          )
                          (returns (up, refl))
                    | inr (l, f) ↦ rw (card, e, f) (start_known_out c cs msg_res n l e f)
                  ]
          ]

      start_out :
          (tok_id msg_res : Text)
          → Outcome env w
              (given tok_id && is_some (card env friend_number w))
              (cmd_start env friend_number tok_id msg_res w)
      unfolding cmd_start
      start_out [] msg_res = returns (up, refl)
      start_out (c ∷ cs) msg_res = with_id_out c cs msg_res

      stop_out : cmd_stop env friend_number w ≡ fault null_pointer
      unfolding cmd_stop del_friend
      stop_out =
          let (u, m, ran, _) =
            returned
              (del_member-IsValid env.locking up.running.valid (key_of env friend_number w)) in
          rw (ran, run_update_out env.sql env.locking _ out) refl

      set_out : (param : Text) → Outcome env w (given param) (cmd_set env friend_number param w)
      unfolding cmd_set set_as find_member update_friend_signature
      set_out [] = returns (up, refl)
      set_out (c ∷ cs) =
          let (u, m, ran, _) = returned (
            set_cached-Cached w.store.member_mgr up.loose (key_of env friend_number w)
              (set_signature (c ∷ cs)) (λ a. refl) up.running.valid) in
          rw (ran, run_update_out env.sql env.locking _ out) refl

      get_out : Outcome env w false (cmd_get env friend_number w)
      get_out =
          Returns-mono (cmd_get-IsOther env friend_number w shows.get_shows up.running) λ _ w' z. (
            still-IsUp env up z.1 (record {
              ready = subst (λ (s : Store S). IsReady s.db.pool) (sym z.0) up.running.ready;
              valid =
                  subst (λ (s : Store S). IsValid up.loose s.member_mgr) (sym z.0) up.running.valid;
            }),
            ap (λ (s : Store S). s.db) z.0,
          )

      info_out : (msg_res : Text) → Outcome env w false (cmd_info env friend_number msg_res w)
      info_out msg_res =
          let (reply, ran, _) =
            cmd_info-Shows env friend_number msg_res w up.running shows.info_shows in
          rw ran (returns (up, refl))

      dispatch_out :
          (cmd param msg_res : Text)
          → Outcome env w
              (writes cmd (env.boost.to_upper param) param (is_some (card env friend_number w)))
              (dispatch env friend_number cmd param msg_res w)
      unfolding dispatch cmd_help cmd_readme
      dispatch_out cmd param msg_res =
          Outcome-if env (text_eq (codes "start") cmd) _ _ w _ _
            (start_out (env.boost.to_upper param) msg_res)
            (Outcome-if env (text_eq (codes "stop") cmd) true _ w _ _ stop_out (
              Outcome-if env (text_eq (codes "set") cmd) _ false w _ _ (set_out param) (
                Outcome-same env (text_eq (codes "get") cmd) w _ _ get_out (
                  Outcome-same env (text_eq (codes "info") cmd) w _ _ (info_out msg_res) (
                    Outcome-same env (text_eq (codes "help") cmd) w _ _ (returns (up, refl)) (
                      Outcome-same env (text_eq (codes "readme") cmd) w _ _ (returns (up, refl))
                        (returns (up, refl))))))))

      answer_out :
          (reply : Reply) (w1 : World T S)
          → IsUp env w1
          → w1.store.db ≡ w.store.db
          → Outcome env w false (answer env friend_number reply w1)
      unfolding answer send_friend_message_req
      answer_out (false, msg) w1 up1 same = returns (up1, same)
      answer_out (true, msg) w1 up1 same = returns (elsewhere env up1 _ _ _, same)

      pub process_cmd_out :
          (cmd param : Text)
          → Outcome env w
              (writes
                (env.boost.to_lower cmd)
                (env.boost.to_upper param)
                param
                (is_some (card env friend_number w)))
              (process_cmd env friend_number cmd param w)
      unfolding process_cmd
      process_cmd_out cmd param =
          Outcome-bind env _ w
            (dispatch env friend_number (env.boost.to_lower cmd) param env.conf.desc_unknown_cmd w)
            (answer env friend_number)
            (dispatch_out (env.boost.to_lower cmd) param env.conf.desc_unknown_cmd) answer_out
