-- ===== src/Tests/Commands.antt =====
-- The commands of a friend at concrete inputs.
use find_friend_bot.Base.{
  inl, true, text_lt, fault, null_pointer, ◌≡◌, refl, false, some, Text, codes, text_eq, c_str,
  Returns, count, [],
}
use find_friend_bot.LockedQueue.{Ptr}
use find_friend_bot.Map.{find, values, assign}
use find_friend_bot.World.{Env}
use find_friend_bot.Logger.{severity_of, fill_map_severity}
use find_friend_bot.Member.{member, set_signature}
use find_friend_bot.Assisant.Commands.{logs_debug, Reply, cmd_start, cmd_stop, cmd_set}
use find_friend_bot.Assisant.Start.{cmd_start_again, cmd_start_logged}
use find_friend_bot.Assisant.Parser.{parse_msg}
use find_friend_bot.Assisant.Callbacks.{friend_message_cb}
use find_friend_bot.Assisant.Replies.{Replied, Delivered, command_of}
use find_friend_bot.Assisant.Replies.Answered.{friend_message_cb-Replied}
use find_friend_bot.Assisant.Discovery.{
  CanShow, Hides, cmd_start-cmd_get, cmd_set-cmd_get, cmd_stop-cmd_get,
}
use find_friend_bot.Fixtures.{
  Net, Table, conf, env, server-Healthy, ann, cat, ann_object, world, world-IsRunning, world-IsUp,
  env-Formats,
}

-- Ann starts again: her first object stays, and the new one is lost.
cmd_start_again_example :
    Returns
      (λ _ w'.
        let m' = w'.store.member_mgr in
        (find ann m'.online_member ≡ some 1)
        × (m'.free_list.cell 1 ≡ some ann_object)
        × ((lost : Ptr) × (m'.free_list.cell lost
              ≡ some (member ann (codes "T9") (codes "bob") (codes "hello") []))
            × (count lost (values m'.online_member) ≡ 0)
            × (count lost m'.free_list.free_list ≡ 0)))
      (cmd_start env 0 (codes "T9") [] world)
unfolding find text_eq c_str
cmd_start_again_example =
    cmd_start_again env server-Healthy 0 84 (codes "9") [] world 3 5 {old = 1} refl refl
      world-IsRunning refl

-- Ann asks for somebody; Ben is online.
friend_message_cb-Replied_example :
    Returns
      (λ _ w'.
        (words : Text × Text) × (parse_msg (codes "/get") ([], []) ≡ some words)
        × ((reply : Reply) × Replied env
              (λ s. s)
              0
              (command_of (env.boost.to_lower words.0))
              (env.boost.to_upper words.1)
              words.1
              world
              reply
            × Delivered env 0 world w' reply))
      (friend_message_cb env 0 (codes "/get") world)
friend_message_cb-Replied_example =
    friend_message_cb-Replied env server-Healthy env-Formats 0 world world-IsUp (codes "/get")

cmd_start-cmd_get_example :
    Returns
      (λ _ w'.
        (pk : Text)
        → text_eq pk cat ≡ false
        → CanShow env w' (member cat (codes "T3") (codes "bob") (codes "hello") []) pk)
      (cmd_start env 2 (codes "T3") [] world)
unfolding c_str find text_eq
cmd_start-cmd_get_example =
    cmd_start-cmd_get env server-Healthy 2 84 (codes "3") [] world 3 5 refl refl world-IsRunning
      env-Formats.get_shows refl

cmd_set-cmd_get_example :
    Returns
      (λ _ w'.
        (pk : Text)
        → text_eq pk ann ≡ false
        → CanShow env w' (set_signature (codes " hello") ann_object) pk)
      (cmd_set env 0 (codes " hello") world)
unfolding find text_eq
cmd_set-cmd_get_example =
    cmd_set-cmd_get env server-Healthy 0 32 (codes "hello") world {q = 1} {a = ann_object}
      world-IsRunning env-Formats.get_shows refl refl

cmd_stop-cmd_get_example : Returns (λ _ w'. Hides env w' ann) (cmd_stop env 0 world)
cmd_stop-cmd_get_example =
    cmd_stop-cmd_get env server-Healthy 0 world world-IsRunning env-Formats.get_shows

-- A user whom toxcore does not know, at the level of the settings that come with the bot.
abbrev loud_env : Env Net Table
loud_env = record env { conf = record conf { log_level = codes "debug" } }

loud : logs_debug loud_env.conf ≡ true
unfolding logs_debug severity_of fill_map_severity find assign text_eq text_lt
loud = refl

cmd_start_logged_example : cmd_start loud_env 9 (codes "T9") [] world ≡ fault null_pointer
cmd_start_logged_example = cmd_start_logged loud_env 9 84 (codes "9") [] world (inl refl) loud
