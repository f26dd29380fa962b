-- ===== src/Tests/Outage.antt =====
-- The callbacks without a database, at concrete inputs.
use find_friend_bot.Base.{◌≡◌, refl, none, codes, text_eq, find_byte, fault, null_pointer}
use find_friend_bot.Sql.{Sql}
use find_friend_bot.World.{Env}
use find_friend_bot.Assisant.Upkeep.{IsUp, Formats}
use find_friend_bot.Assisant.Outage.Callbacks.{handle_out}
use find_friend_bot.Assisant.Parser.{parse_msg}
use find_friend_bot.Assisant.Running.{Event, handle}
use find_friend_bot.Fixtures.{Net, Table, env, server, pool-IsReady, world, world-IsUp, env-Formats}

abbrev lost_server : Sql Table
lost_server = record server { connect = λ _ _ _ _ s. (none, s) }

abbrev lost_env : Env Net Table
lost_env = record env { sql = lost_server }

lost-IsUp : IsUp lost_env world
lost-IsUp = record {
  loose = world-IsUp.loose;
  running = record { ready = world-IsUp.running.ready; valid = world-IsUp.running.valid };
  tmp_opens = world-IsUp.tmp_opens;
  avatar = world-IsUp.avatar;
}

lost-Formats : Formats lost_env
lost-Formats = record {
  quiet = env-Formats.quiet;
  get_shows = env-Formats.get_shows;
  info_shows = env-Formats.info_shows;
}

-- A friend stops, and the process with it.
handle_out_example : handle lost_env (Event.message 2 (codes "/stop")) world ≡ fault null_pointer
unfolding text_eq parse_msg find_byte
handle_out_example =
    handle_out lost_env lost-Formats world lost-IsUp
      (record { ready = pool-IsReady; empty = refl; throws = refl })
      (Event.message 2 (codes "/stop")) tt
