-- ===== src/Tests.antt =====
-- Each property at a concrete input.
pub mod Agreement
pub mod Callbacks
pub mod Commands
pub mod Filed
pub mod Frame
pub mod Locks
pub mod Members
pub mod Outage
pub mod Settings
use find_friend_bot.Base.{
  List, ◌≡◌, ◌⊎◌, refl, true, false, none, some, ◌∷◌, codes, text_eq, Returns, fault, ◌>>◌,
  uncaught, inl, ◌>>=◌, ◌-◌, [],
}
use find_friend_bot.LockedQueue.{null}
use find_friend_bot.LockedQueue
use find_friend_bot.LockedQueue.Ownership.{Owned}
use find_friend_bot.LockedQueue.Clear.{clear-Owned}
use find_friend_bot.Map.{find, erase}
use find_friend_bot.Member.{max_pool_size, pooled_member}
use find_friend_bot.MemberMgr.{random_member, del_member, destroy}
use find_friend_bot.MemberMgr.Invariant.{IsValid}
use find_friend_bot.MemberMgr.Lookup.{IsOther, random_member-IsOther}
use find_friend_bot.MemberMgr.Removal.{Deleted, del_member-IsValid, destroy-IsValid}
use find_friend_bot.MemberModel.{find_friend}
use find_friend_bot.DbConn.Laws.{IsReady}
use find_friend_bot.MemberModel.Fetch.{Fetched, find_friend-Fetched}
use find_friend_bot.Conf.{ProgramOptions, parse_conf, empty_conf}
use find_friend_bot.Conf.Laws.{parse_conf_missing}
use find_friend_bot.Lock.{Defines, acquire_lock, threading, locked_by, unlocked}
use find_friend_bot.Lock.Exclusion.{acquire_lock-threading}
use find_friend_bot.Bot.{Boot}
use find_friend_bot.Assisant.Callbacks.{connection_udp, connection_none}
use find_friend_bot.Assisant.Running.{Event, Moment}
use find_friend_bot.Fixtures.{
  Net, server, server-Healthy, locking, ann, cat, two_online, two_online-IsValid, pool-IsReady,
  world,
}

random_member-IsOther_example :
    Returns
      (λ q m'.
        (m' ≡ two_online)
        × (((q ≡ null) × (erase ann two_online.online_member ≡ []))
            ⊎ IsOther two_online-IsValid ann q))
      (random_member ann 5 two_online)
random_member-IsOther_example = random_member-IsOther two_online-IsValid ann 5

del_member-IsValid_example :
    Returns (λ _. Deleted two_online [] ann) (del_member locking ann two_online)
del_member-IsValid_example = del_member-IsValid locking two_online-IsValid ann

clear-Owned_example :
    Returns
      (λ _ p'. (p'.free_list ≡ []) × Owned max_pool_size p' (1 ∷ 2 ∷ []))
      (LockedQueue.clear locking two_online.free_list)
clear-Owned_example = clear-Owned locking {held = 1 ∷ 2 ∷ []} two_online-IsValid.owned

-- A reader of settings that finds one option only.
abbrev one_option : ProgramOptions
one_option = record {
  store_command_line = λ _. none;
  store_config_file = λ _. some ((codes "host", codes "h") ∷ []);
  int_value = λ _. 0;
}

parse_conf_missing_example : parse_conf one_option [] empty_conf ≡ fault uncaught
unfolding find text_eq
parse_conf_missing_example =
    parse_conf_missing one_option [] ((codes "host", codes "h") ∷ []) empty_conf refl (inl refl)

-- A friend comes online, starts, changes name, looks for others, asks for the avatar, and leaves.
abbrev pub session : List (Moment Net)
session =
    record { network = λ t. t; disk = λ f. f; event = Event.connection 2 connection_udp }
    ∷ record { network = λ t. t; disk = λ f. f; event = Event.message 2 (codes "/start t3") }
    ∷ record { network = λ t. t; disk = λ f. f; event = Event.name 2 (codes "cat") }
    ∷ record {
      network = λ t. record t { next_rand = 12 };
      disk = λ f. f;
      event = Event.message 2 (codes "/get");
    }
    ∷ record { network = λ t. t; disk = λ f. f; event = Event.chunk 2 0 0 4 }
    ∷ record { network = λ t. t; disk = λ f. f; event = Event.timer 2 1 (some 64) }
    ∷ record { network = λ t. t; disk = λ f. f; event = Event.recv 2 0 0 9 (some (codes "a")) }
    ∷ record { network = λ t. t; disk = λ f. f; event = Event.connection 2 connection_none }
    ∷ []

abbrev pub boot : Boot Net
boot = record {
  tox_new = λ saved. record { next_rand = 2; chunks = [] };
  parse_nodes =
      λ text. some (record { ipv4 = codes "10.0.0.1"; public_key = codes "F5"; port = 33445 } ∷ []);
  tox_bootstrap = λ _ _ _ t. (true, t);
  tox_self_get_address = λ t. codes "a1";
  tox_self_set_name = λ _ t. t;
  tox_self_set_status_message = λ _ t. t;
}

-- The defines of the build, which names no system.
abbrev plain_build : Defines
plain_build = record {
  win32 = false;
  windows = false;
  linux = false;
  macx = false;
  no_thread = false;
}

acquire_lock-threading_example :
    acquire_lock (threading plain_build) 2 (locked_by (threading plain_build) 1)
    ≡ some (0, unlocked)
acquire_lock-threading_example = acquire_lock-threading plain_build 1 2 refl
