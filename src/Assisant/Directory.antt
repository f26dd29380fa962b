-- ===== src/Assisant/Directory.antt =====
-- What the commands of a friend mean for the directory: a map from keys to the members that are
-- online, without pointers, pools or locks.
use mathlib.Core.Option
use mathlib.Core.Option.{some-injective}
use find_friend_bot.Base.{
  ℕ, refl, ap, [], ◌∷◌, Option, none, some, Text, codes, text_eq, Returns-mono, returns,
  Option-cases, inl, inr, if◌then◌else◌,
}
use find_friend_bot.Member.{member, set_signature}
use find_friend_bot.MemberMgr.View.{view, or_else, Deleted-view, Joined-view}
use find_friend_bot.Sql.{Row}
use find_friend_bot.Sql.Healthy.{Healthy}
use find_friend_bot.World.{Env, World}
use find_friend_bot.Assisant.Commands.{
  text_of_buffer, cmd_start, cmd_stop, cmd_set, cmd_get, cmd_info, process_cmd,
}
use find_friend_bot.Assisant.Start.{key_of, cmd_start-Started, cmd_start_unknown}
use find_friend_bot.Assisant.Answers.{cmd_stop-Deleted, cmd_set-Signed, cmd_get-IsOther}
use find_friend_bot.Assisant.CachedView.{Directory, put, Cached-view}
use find_friend_bot.Assisant.Info.{cmd_info-Shows}
use find_friend_bot.Assisant.Observe.{Does}
use find_friend_bot.Assisant.Observe.Dispatch.{process_cmd-Does}
use find_friend_bot.Assisant.Upkeep.{IsUp, Formats}

-- `/start`: the first one counts, if there is an id and toxcore knows the name and the status.
abbrev pub started : Text → Text → Option (Text × Text) → Directory → Directory
started key [] card d = d
started key (c ∷ cs) none d = d
started key (c ∷ cs) (some (name, bio)) d =
    put key (or_else (d key) (some (member key (c ∷ cs) name bio []))) d

-- `/set`: it signs who is there.
abbrev pub signed_as : Text → Text → Directory → Directory
signed_as key [] d = d
signed_as key (c ∷ cs) d = put key (Option.map (set_signature (c ∷ cs)) (d key)) d

-- A user's command, in lower case, with the id in upper case.
abbrev pub followed :
    Text → (tok_id param key : Text) → Option (Text × Text) → Directory → Directory
followed cmd tok_id param key card d =
    if text_eq (codes "start") cmd
    then started key tok_id card d
    else if text_eq (codes "stop") cmd
    then put key none d
    else if text_eq (codes "set") cmd
    then signed_as key param d
    else d

module _ {T S : Type 0} (env : Env T S) where
  abbrev pub directory : World T S → Directory
  directory w = view w.store.member_mgr

  -- The name and the status, where toxcore knows both.
  abbrev pub card : ℕ → World T S → Option (Text × Text)
  card friend_number w = elim (env.tox.friend_get_name_size friend_number w.network) [
    | none ↦ none
    | some n ↦ elim (env.tox.friend_get_status_message_size friend_number w.network) [
      | none ↦ none
      | some l ↦ some (
        text_of_buffer n (env.tox.friend_get_name friend_number w.network),
        text_of_buffer l (env.tox.friend_get_status_message friend_number w.network),
      )
    ]
  ]

  module _ {rows : S → Text → Option Row} (h : Healthy env.sql rows) (shows : Formats env)
      (friend_number : ℕ) where
    with_id :
        (c : ℕ) (cs msg_res : Text) (w : World T S)
        → IsUp env w
        → Does directory
            (started (key_of env friend_number w) (c ∷ cs) (card friend_number w))
            w
            (cmd_start env friend_number (c ∷ cs) msg_res)
    with_id c cs msg_res w up =
        elim (Option-cases (env.tox.friend_get_name_size friend_number w.network)) [
          | inl e ↦
              rw (cmd_start_unknown env friend_number c cs msg_res w (inl e) shows.quiet, card, e)
                (returns (λ pk. refl))
          | inr (n, e) ↦
              elim (Option-cases (env.tox.friend_get_status_message_size friend_number w.network)) [
                | inl f ↦
                    rw
                      (
                        cmd_start_unknown env friend_number c cs msg_res w (inr f) shows.quiet,
                        card,
                        e,
                        f,
                      )
                      (returns (λ pk. refl))
                | inr (l, f) ↦
                    rw (card, e, f)
                      (Returns-mono
                        (cmd_start-Started env h friend_number c cs msg_res w n l e f up.running)
                        λ _ w' (_, _, _, _, (q, j)) pk. Joined-view j pk)
              ]
        ]

    cmd_start-Does :
        (tok_id msg_res : Text) (w : World T S)
        → IsUp env w
        → Does directory
            (started (key_of env friend_number w) tok_id (card friend_number w))
            w
            (cmd_start env friend_number tok_id msg_res)
    unfolding cmd_start
    cmd_start-Does [] msg_res w up = returns (λ pk. refl)
    cmd_start-Does (c ∷ cs) msg_res w up = with_id c cs msg_res w up

    cmd_stop-Does :
        (w : World T S)
        → IsUp env w
        → Does directory (put (key_of env friend_number w) none) w (cmd_stop env friend_number)
    cmd_stop-Does w up =
        Returns-mono (cmd_stop-Deleted env h friend_number w up.running)
          λ _ w' (_, _, _, gone, _) pk.
            Deleted-view w.store.member_mgr w'.store.member_mgr up.loose
              (key_of env friend_number w) gone pk

    cmd_set-Does :
        (param : Text) (w : World T S)
        → IsUp env w
        → Does directory
            (signed_as (key_of env friend_number w) param)
            w
            (cmd_set env friend_number param)
    unfolding cmd_set
    cmd_set-Does [] w up = returns (λ pk. refl)
    cmd_set-Does (c ∷ cs) w up =
        Returns-mono (cmd_set-Signed env h friend_number c cs w up.running)
          λ _ w' (_, _, _, _, _, cached) pk.
            Cached-view (key_of env friend_number w) (set_signature (c ∷ cs)) up.running.valid
              cached pk

    cmd_get-Does :
        (w : World T S) → IsUp env w → Does directory (λ d. d) w (cmd_get env friend_number)
    cmd_get-Does w up =
        Returns-mono (cmd_get-IsOther env friend_number w shows.get_shows up.running)
          λ _ w' z pk. ap (λ s. view s.member_mgr pk) z.0

    cmd_info-Does :
        (msg_res : Text) (w : World T S)
        → IsUp env w
        → Does directory (λ d. d) w (cmd_info env friend_number msg_res)
    cmd_info-Does msg_res w up =
        let (reply, ran, _) =
          cmd_info-Shows env friend_number msg_res w up.running shows.info_shows in
        rw ran (returns (λ pk. refl))

    -- From a state that is up, any command of a friend changes the directory as `followed` says.
    pub process_cmd-directory :
        (cmd param : Text) (w : World T S)
        → IsUp env w
        → Does directory
            (followed
              (env.boost.to_lower cmd)
              (env.boost.to_upper param)
              param
              (key_of env friend_number w)
              (card friend_number w))
            w
            (process_cmd env friend_number cmd param)
    process_cmd-directory cmd param w up =
        let key = key_of env friend_number w in
        process_cmd-Does env directory friend_number
          (started key (env.boost.to_upper param) (card friend_number w)) (put key none)
          (signed_as key param) cmd param w (λ t sent w1 pk. refl)
          (λ _. cmd_start-Does (env.boost.to_upper param) env.conf.desc_unknown_cmd w up)
          (cmd_stop-Does w up) (λ _. cmd_set-Does param w up) (cmd_get-Does w up)
          (cmd_info-Does env.conf.desc_unknown_cmd w up)
