-- ===== src/Assisant/Observe/Dispatch.antt =====
-- A view of the state under the commands: what each command does to it, and so `process_cmd`.
use find_friend_bot.Base.{
  ℕ, ◌≡◌, refl, List, true, false, Text, codes, text_eq, returns, if◌then◌else◌,
}
use find_friend_bot.World.{Env, World}
use find_friend_bot.Assisant.Commands.{
  Reply, cmd_start, cmd_stop, cmd_set, cmd_get, cmd_info, cmd_help, cmd_readme, dispatch, answer,
  process_cmd, send_friend_message_req,
}
use find_friend_bot.Assisant.Observe.{Does, Does-if, Does-same, Does-then}

module _ {T S V : Type 0} (env : Env T S) (view : World T S → Text → V) (friend_number : ℕ) where
  abbrev pub Change : Type 0
  Change = (Text → V) → Text → V

  -- `start`, `stop` and `set` change the view.
  abbrev pub chosen : (start stop set : Change) → Text → Change
  chosen start stop set cmd d =
      if text_eq (codes "start") cmd
      then start d
      else if text_eq (codes "stop") cmd
      then stop d
      else if text_eq (codes "set") cmd
      then set d
      else d

  dispatch-Does :
      (start stop set : Change) (cmd param msg_res : Text) (w : World T S)
      → (text_eq (codes "start") cmd ≡ true
          → Does view start w (cmd_start env friend_number (env.boost.to_upper param) msg_res))
      → Does view stop w (cmd_stop env friend_number)
      → (text_eq (codes "set") cmd ≡ true → Does view set w (cmd_set env friend_number param))
      → Does view (λ d. d) w (cmd_get env friend_number)
      → Does view (λ d. d) w (cmd_info env friend_number msg_res)
      → Does view (chosen start stop set cmd) w (dispatch env friend_number cmd param msg_res)
  unfolding dispatch cmd_help cmd_readme
  dispatch-Does start stop set cmd param msg_res w starts stops sets gets infos =
      let same = λ (d : Text → V). d in
      let set_or = λ (d : Text → V). if text_eq (codes "set") cmd then set d else d in
      let stop_or = λ (d : Text → V). if text_eq (codes "stop") cmd then stop d else set_or d in
      Does-if view (text_eq (codes "start") cmd) start stop_or w _ _ starts (
        Does-if view (text_eq (codes "stop") cmd) stop set_or w _ _ (λ _. stops)
          (Does-if view (text_eq (codes "set") cmd) set same w _ _ sets (
            Does-same view (text_eq (codes "get") cmd) same w _ _ gets (
              Does-same view (text_eq (codes "info") cmd) same w _ _ infos (
                Does-same view (text_eq (codes "help") cmd) same w _ _ (returns (λ key. refl)) (
                  Does-same view (text_eq (codes "readme") cmd) same w _ _ (returns (λ key. refl))
                    (returns (λ key. refl))))))))

  -- The reply is sent by toxcore, which the view does not see.
  pub process_cmd-Does :
      (start stop set : Change) (cmd param : Text) (w : World T S)
      → ((t : T) (sent : List (ℕ × Text)) (w1 : World T S) (key : Text)
          → view (record w1 { network = t; sent = sent }) key ≡ view w1 key)
      → (text_eq (codes "start") (env.boost.to_lower cmd) ≡ true
          → Does view start w
              (cmd_start env friend_number (env.boost.to_upper param) env.conf.desc_unknown_cmd))
      → Does view stop w (cmd_stop env friend_number)
      → (text_eq (codes "set") (env.boost.to_lower cmd) ≡ true
          → Does view set w (cmd_set env friend_number param))
      → Does view (λ d. d) w (cmd_get env friend_number)
      → Does view (λ d. d) w (cmd_info env friend_number env.conf.desc_unknown_cmd)
      → Does view
          (chosen start stop set (env.boost.to_lower cmd))
          w
          (process_cmd env friend_number cmd param)
  unfolding process_cmd answer send_friend_message_req
  process_cmd-Does start stop set cmd param w unseen starts stops sets gets infos =
      let lower = env.boost.to_lower cmd in
      let unknown = env.conf.desc_unknown_cmd in
      Does-then view (chosen start stop set lower) w
        (dispatch env friend_number lower param unknown) (answer env friend_number)
        (dispatch-Does start stop set lower param unknown w starts stops sets gets infos) sent
    where
      sent :
          (reply : Reply) (w1 : World T S) → Does view (λ d. d) w1 (answer env friend_number reply)
      sent (false, msg) w1 = returns (λ key. refl)
      sent (true, msg) w1 = returns (unseen _ _ w1)
