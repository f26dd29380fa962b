-- ===== src/Tests/Agreement.antt =====
-- The agreement of the cache and the table, at concrete inputs.
use find_friend_bot.Base.{
  ℕ, ◌∷◌, ◌≡◌, refl, [], some, none, true, Option, inl, ap, ◌∙◌, returned, Text, codes, c_str,
  text_eq, find_byte, arith, Returns, ◌>>◌,
}
use find_friend_bot.Map.{find}
use find_friend_bot.Member.{Member, member}
use find_friend_bot.Sql.{Row, fits}
use find_friend_bot.World.{World}
use find_friend_bot.MemberMgr.View.{view, or_else}
use find_friend_bot.Assisant.Agreement.Steps.{IsFirst}
use find_friend_bot.Assisant.Agreement.{kept}
use find_friend_bot.Assisant.Agreement.Runs.{InStep}
use find_friend_bot.Assisant.Agreement.Restart.{restart-InStep}
use find_friend_bot.Assisant.Commands.{process_cmd}
use find_friend_bot.Assisant.Callbacks.{connection_none}
use find_friend_bot.Assisant.Directory.{directory}
use find_friend_bot.Assisant.Frame.{Foreign}
use find_friend_bot.Assisant.Persistence.{offline-online, returning}
use find_friend_bot.Assisant.Records.{AllStorable, Storable}
use find_friend_bot.Assisant.Parser.{parse_msg}
use find_friend_bot.Assisant.Running.{Event, Moment, handle, run}
use find_friend_bot.Bot.{process, start}
use find_friend_bot.Bot.Durability.{restart-online}
use find_friend_bot.Assisant.Events.{effect, handle-Follows}
use find_friend_bot.Bot.Startup.{process-IsUp, start-IsUp}
use find_friend_bot.Bot.Lifetime.{Reach, started, called, Reach-InStep}
use find_friend_bot.Assisant.Upkeep.{IsUp}
use find_friend_bot.Fixtures.{Net, Table, ann, cat, ann_object, world, world-IsUp}
use find_friend_bot.Tests.{session, boot}
use find_friend_bot.Tests.Filed.{
  filed, filed_env, registered-Keyed, filed-Healthy, filed-Formats, filed-Confined, filed-HexKeys,
}

abbrev ann_row : Row
ann_row = record {
  tok_id = codes "T1";
  pk = ann;
  nick_name = codes "ann";
  bio = codes "hi";
  signature = [];
  create_time = 1;
  update_time = 2;
}

-- Each key has Ann's row; she is online.
abbrev registered : World Net Table
registered = record world {
  store = record (world.store) { db = record (world.store.db) { server = λ _. some ann_row } };
}

registered-IsUp : IsUp filed_env registered
registered-IsUp = record {
  loose = world-IsUp.loose;
  running = record { ready = world-IsUp.running.ready; valid = world-IsUp.running.valid };
  tmp_opens = world-IsUp.tmp_opens;
  avatar = world-IsUp.avatar;
}

registered-InStep :
    InStep filed_env filed-Healthy filed-Confined filed-Formats filed-HexKeys ann registered
unfolding c_str find text_eq
registered-InStep = refl

-- Ann starts again, with another id.
restart-InStep_example :
    Returns
      (λ _ w'. ¬ InStep filed_env filed-Healthy filed-Confined filed-Formats filed-HexKeys ann w')
      (process_cmd filed_env 0 (codes "START") (codes "t9") registered)
unfolding find text_eq c_str fits
restart-InStep_example =
    restart-InStep filed_env filed-Healthy filed-Confined filed-Formats filed-HexKeys 0
      (codes "START") (codes "t9") registered 84 (codes "9") (codes "bob") (codes "hello")
      ann_object refl refl refl refl refl (λ e. ground (arith, e)) registered-IsUp

abbrev away : World Net Table → Foreign ann (codes "C")
unfolding c_str text_eq
away _ = (refl, refl)

-- A friend who is there again.
abbrev back_again : ℕ → Moment Net
back_again n =
    returning filed_env filed-Healthy filed-Confined filed-Formats filed-HexKeys ann
      registered-Keyed n (λ t. t) (λ files. files)

start_fits : (w : World Net Table) → Storable filed_env w (Event.message 2 (codes "/start t3"))
unfolding fits parse_msg find_byte text_eq c_str
start_fits w = (λ _. refl, λ e. ground (arith, e))

get_fits : (w : World Net Table) → Storable filed_env w (Event.message 2 (codes "/get"))
unfolding fits parse_msg find_byte text_eq c_str
get_fits w = (λ e. ground (arith, e), λ e. ground (arith, e))

name_fits : (w : World Net Table) → Storable filed_env w (Event.name 2 (codes "cat"))
unfolding fits c_str
name_fits w = refl

session_fits : AllStorable filed_env session
session_fits = (
  λ _. tt,
  (
    λ w. start_fits w,
    (
      λ w. name_fits w,
      (
        λ w. get_fits (record w { network = record (w.network) { next_rand = 12 } }),
        (λ _. tt, (λ _. tt, (λ _. tt, (λ _. tt, tt)))),
      ),
    ),
  ),
)

-- Ann leaves, another friend has a whole session, and Ann comes back.
offline-online_example :
    Returns
      (λ _ w'. (b : Member) × (directory filed_env w' ann ≡ some b) × (kept b ≡ kept ann_object))
      ((handle filed_env (Event.connection 0 connection_none)
          >> (run filed_env session >> run filed_env (back_again 0 ∷ [])))
        registered)
unfolding find text_eq c_str
offline-online_example =
    offline-online filed_env filed-Healthy filed-Confined filed-Formats filed-HexKeys ann
      registered-Keyed 0 registered ann_object session (λ t. t) (λ files. files) refl refl
      registered-InStep (tt, (tt, (tt, (tt, (omega arith, (tt, (tt, (tt, tt))))))))
      (away, (away, (away, (away, (λ _. tt, (λ _. tt, (λ _. tt, (away, tt)))))))) session_fits
      (λ v. refl) registered-IsUp

-- Cat, who is not online yet, starts after the start of the process.
abbrev cat_starts : Moment Net
cat_starts = record {
  network = λ t. t;
  disk = λ files. files;
  event = Event.message 2 (codes "/start t3");
}

abbrev empty_disk : Text → Option Text
empty_disk name = none

abbrev fresh : World Net Table
unfolding process
fresh = process filed_env boot empty_disk (λ _. true) (λ _. none)

cat-IsFirst :
    (w w' : World Net Table)
    → w.store ≡ fresh.store
    → IsFirst filed_env w' cat_starts.event cat (directory filed_env w)
unfolding fresh parse_msg find_byte text_eq find c_str
cat-IsFirst w w' same = λ _. ap (λ s. view s.member_mgr cat) same

abbrev cat_object : Member
cat_object = member cat (codes " T3") (codes "bob") (codes "hello") []

cat_joined :
    (w w' : World Net Table)
    → w.store ≡ fresh.store
    → ((pk : Text)
        → directory filed_env w' pk
          ≡ effect filed_env
              (filed w.store.db.server)
              w
              cat_starts.event
              (directory filed_env w)
              pk)
    → directory filed_env w' cat ≡ some cat_object
unfolding fresh parse_msg find_byte text_eq find c_str
cat_joined w w' same follows =
    follows cat ∙ ap (λ s. or_else (view s.member_mgr cat) (some cat_object)) same

abbrev lived :
    (w : World Net Table) × Reach filed_env boot cat empty_disk (λ _. true) (λ _. none) w
    × (directory filed_env w cat ≡ some cat_object)
unfolding fresh process
lived =
    let (_, w0, ran0, (up0, same)) = returned (
      start-IsUp filed_env boot fresh (inl refl)
        (process-IsUp filed_env boot empty_disk (λ _. true) (λ _. none) refl)) in
    let (_, w1, ran1, follows) =
      returned (handle-Follows filed_env filed-Healthy filed-Formats cat_starts.event w0 tt up0) in
    (
      w1,
      called (started ran0) cat_starts tt (start_fits w0) (cat-IsFirst w0 w0 same) ran1,
      cat_joined w0 w1 same follows,
    )

Reach-InStep_example :
    IsUp filed_env lived.0
    × InStep filed_env filed-Healthy filed-Confined filed-Formats filed-HexKeys cat lived.0
Reach-InStep_example =
    Reach-InStep filed_env boot cat empty_disk (λ _. true) (λ _. none) filed-Healthy filed-Confined
      filed-Formats filed-HexKeys registered-Keyed refl (inl refl) lived.1

restart-online_example :
    Returns
      (λ _ w'. (b : Member) × (directory filed_env w' cat ≡ some b) × (kept b ≡ kept cat_object))
      ((start filed_env boot >> (run filed_env [] >> run filed_env (back_again 2 ∷ [])))
        (process filed_env boot empty_disk (λ _. true) lived.0.store.db.server))
restart-online_example =
    restart-online filed_env boot filed-Healthy filed-Confined filed-Formats filed-HexKeys
      registered-Keyed cat 2 empty_disk empty_disk (λ _. true) (λ _. true) (λ _. none) lived.0
      cat_object [] (λ t. t) (λ files. files) refl (inl refl) lived.1 lived.2 refl (inl refl) tt tt
      tt (λ v. refl)
