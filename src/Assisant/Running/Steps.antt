-- ===== src/Assisant/Running/Steps.antt =====
-- The callbacks that need no database keep the bot up.
use find_friend_bot.Base.{
  ℕ, ◌+◌, ◌-◌, ◌^◌, ◌<◌, ◌≢◌, ◌≡◌, sym, subst, Bool, true, false, Option, none, some, Text, ◌==◌,
  ltb, arith, returns, Returns-bind, Returns-mono, Bool-cases, inl, inr,
}
use find_friend_bot.World.{Env, World}
use find_friend_bot.Assisant.Commands.{logs_debug, lines}
use find_friend_bot.Assisant.Start.{log_bytes_quiet}
use find_friend_bot.Assisant.Files.{update_savedata_file, file_chunk_request_cb}
use find_friend_bot.Assisant.Avatar.{WithAvatar, Answered, file_chunk_request_cb-Answered}
use find_friend_bot.Assisant.Callbacks.{
  friend_request_cb, event_timeout_cb, resend_later, tips_later, event_friend_add_tips,
  resend_time_max,
}
use find_friend_bot.Assisant.Upkeep.{IsUp, StaysUp, send-IsUp, elsewhere}

module _ {T S : Type 0} (env : Env T S) where
  pub update_savedata_file-IsUp :
      (w : World T S) → IsUp env w → StaysUp env (update_savedata_file env w)
  unfolding update_savedata_file
  update_savedata_file-IsUp w up = rw up.tmp_opens (returns (elsewhere env up _ _ _))

  resend_later-IsUp :
      (friend_number : ℕ) (ret : Bool) (user_data : Option ℕ) (w : World T S)
      → IsUp env w
      → StaysUp env (resend_later env friend_number ret user_data w)
  unfolding resend_later
  resend_later-IsUp friend_number true user_data w up = returns up
  resend_later-IsUp friend_number false none w up = returns up
  resend_later-IsUp friend_number false (some interval) w up =
      elim (Bool-cases (ltb resend_time_max interval)) [
        | inl e ↦ rw e (returns up)
        | inr e ↦ rw e (returns (elsewhere env up _ _ _))
      ]

  pub timer-IsUp :
      (friend_number event_type : ℕ) (user_data : Option ℕ) (w : World T S)
      → IsUp env w
      → StaysUp env (event_timeout_cb env friend_number event_type user_data w)
  unfolding event_timeout_cb
  timer-IsUp friend_number event_type user_data w up =
      elim (Bool-cases (event_type == event_friend_add_tips)) [
        | inr e ↦ rw e (returns up)
        | inl e ↦ rw e (
            Returns-bind (send-IsUp env friend_number _ w up)
              λ ret w' up'. resend_later-IsUp friend_number ret user_data w' up')
      ]

  tips_later-IsUp :
      (friend_number : ℕ) (ret : Bool) (w : World T S)
      → IsUp env w
      → StaysUp env (tips_later env friend_number ret w)
  unfolding tips_later
  tips_later-IsUp friend_number true w up = returns up
  tips_later-IsUp friend_number false w up = returns (elsewhere env up _ _ _)

  pub friend_request_cb-IsUp :
      (public_key : Text) (w : World T S)
      → logs_debug env.conf ≡ false
      → IsUp env w
      → StaysUp env (friend_request_cb env public_key w)
  unfolding friend_request_cb
  friend_request_cb-IsUp public_key w quiet up =
      rw (log_bytes_quiet env.conf (some public_key) w quiet) (
        Returns-bind (update_savedata_file-IsUp _ (elsewhere env up _ _ _)) λ _ w1 up1.
          let friend_number : ℕ = elim (env.tox.friend_by_public_key public_key w1.network) [
            | none ↦ 2 ^ 32 - 1
            | some n ↦ n
          ] in
          Returns-bind (send-IsUp env friend_number (lines env env.conf.desc_help) w1 up1)
            λ ret w2 up2. tips_later-IsUp friend_number ret w2 up2)

  Answered-IsUp :
      (friend_number file_number position size : ℕ) (l : position + size < 2 ^ 64)
      (some_size : size ≢ 0) (w loaded w' : World T S)
      → IsUp env w
      → WithAvatar env w loaded
      → Answered env friend_number file_number position size l some_size loaded w'
      → IsUp env w'
  Answered-IsUp friend_number file_number position size l some_size w loaded w' up
        (b, n, e, fits, _) a =
      let up_loaded : IsUp env loaded = subst (IsUp env) (sym e) (record {
        loose = up.loose;
        running = record { ready = up.running.ready; valid = up.running.valid };
        tmp_opens = up.tmp_opens;
        avatar = fits;
      }) in
      elim a [
        | inl (_, same) ↦ subst (IsUp env) (sym same) up_loaded
        | inr (_, _, _, sent) ↦ subst (IsUp env) (sym sent) (elsewhere env up_loaded _ _ _)
      ]

  pub chunk-IsUp :
      (friend_number file_number position size : ℕ) (w : World T S)
      → position + size < 2 ^ 64
      → IsUp env w
      → StaysUp env (file_chunk_request_cb env friend_number file_number position size w)
  unfolding file_chunk_request_cb
  chunk-IsUp friend_number file_number position size w l up = elim (Bool-cases (size == 0)) [
    | inl e ↦ rw (file_chunk_request_cb, e) (returns up)
    | inr e ↦
        let some_size : size ≢ 0 = λ z. ground (arith, e, z) in
        Returns-mono
          (file_chunk_request_cb-Answered env friend_number file_number position size l some_size w
            up.avatar)
          λ _ w' (loaded, z, a).
            Answered-IsUp friend_number file_number position size l some_size w loaded w' up z a
  ]
