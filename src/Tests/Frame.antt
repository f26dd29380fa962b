-- ===== src/Tests/Frame.antt =====
-- The directory over a sequence of callbacks, at concrete inputs.
use find_friend_bot.Base.{◌≡◌, refl, codes, c_str, text_eq, arith, Returns}
use find_friend_bot.World.{World}
use find_friend_bot.Assisant.Directory.{directory}
use find_friend_bot.Assisant.Events.{Follows, handle-Follows}
use find_friend_bot.Assisant.Frame.{Foreign, run-Spares}
use find_friend_bot.Assisant.Running.{Event, handle, run}
use find_friend_bot.Tests.{session}
use find_friend_bot.Fixtures.{Net, Table, env, server-Healthy, ann, world, world-IsUp, env-Formats}
use find_friend_bot.Assisant.Upkeep.{StaysUp}
use find_friend_bot.Assisant.Running.Serving.{run-IsUp}
use find_friend_bot.Tests.Filed.{filed_env, filed-Keyed, filed-Healthy, filed-Formats, filed-IsUp}

run-IsUp_example : StaysUp env (run env session world)
run-IsUp_example =
    run-IsUp env server-Healthy env-Formats session world
      (tt, (tt, (tt, (tt, (omega arith, (tt, (tt, (tt, tt)))))))) world-IsUp

handle-Follows_example :
    let e = Event.message 2 (codes "/start t3") in
    Follows env server-Healthy env-Formats world e (handle env e world)
handle-Follows_example =
    handle-Follows env server-Healthy env-Formats (Event.message 2 (codes "/start t3")) world tt
      world-IsUp

abbrev away : World Net Table → Foreign ann (codes "C")
unfolding c_str text_eq
away _ = (refl, refl)

-- The whole session of another friend leaves the entry of the first one alone.
run-Spares_example :
    Returns
      (λ _ w'. directory filed_env w' ann ≡ directory filed_env world ann)
      (run filed_env session world)
unfolding c_str text_eq
run-Spares_example =
    run-Spares filed_env ann filed-Healthy filed-Formats filed-Keyed session world
      (tt, (tt, (tt, (tt, (omega arith, (tt, (tt, (tt, tt))))))))
      (away, (away, (away, (away, (λ _. tt, (λ _. tt, (λ _. tt, (away, tt)))))))) filed-IsUp
