-- ===== src/Bot.antt =====
-- src/Bot.cpp and src/main.cpp: how the process starts, up to the loop that calls `tox_iterate`.
pub mod Log
pub mod Startup
pub mod Lifetime
pub mod Durability
use find_friend_bot.Base.{
  ◌%◌, ◌^◌, ℕ, Bool, true, false, not, Option, none, some, List, [], ◌∷◌, ◌++◌, Text, codes, c_str,
  has_byte, length, take, Run, ok, fault, Cmd, fail, uncaught, out_of_range, pure, ◌>>=◌, ◌>>◌,
  if◌then◌else◌, is_some,
}
use find_friend_bot.LockedQueue.{empty_pool}
use find_friend_bot.Member.{Member}
use find_friend_bot.DbConn.{init, no_connections}
use find_friend_bot.World.{Env, World, ask_tox, call_tox, tell_tox}
use find_friend_bot.Assisant.Files.{get_data, update_savedata_file}

-- `TOX_LOG_LEVEL`
pub data LogLevel : Type 0 where
  log_trace log_debug log_info log_warning log_error log_other : LogLevel

abbrev pub tox_log_level_name : LogLevel → Text
tox_log_level_name log_trace = codes "TRACE"
tox_log_level_name log_debug = codes "DEBUG"
tox_log_level_name log_info = codes "INFO"
tox_log_level_name log_warning = codes "WARNING"
tox_log_level_name log_error = codes "ERROR"
tox_log_level_name log_other = codes "<unknown>"

-- An entry of the JSON file.
pub record DhtNode : Type 0 where
  pub ipv4 : Text
  pub public_key : Text
  pub port : ℕ

-- What the start asks of toxcore and RapidJSON.
pub record Boot (T : Type 0) : Type 0 where
  -- `tox_new`, with the saved state if there is one
  pub tox_new : Option Text → T
  -- `d.Parse(…)` and `d["nodes"]`; `none` is a failed assertion
  pub parse_nodes : Text → Option (List DhtNode)
  pub tox_bootstrap : Text → ℕ → Text → T → Bool × T
  pub tox_self_get_address : T → Text
  pub tox_self_set_name : Text → T → T
  pub tox_self_set_status_message : Text → T → T

-- `append(buffer, 0, buf_size)` makes a string of the buffer, which ends at its first NUL; the buffer
-- has none behind the file's bytes.
unfoldable pub text_of_buffer : Text → Option Text
text_of_buffer buffer = if has_byte 0 buffer then some (c_str buffer) else none

module _ {T S : Type 0} (env : Env T S) (boot : Boot T) where
  open env use {conf, sodium}

  unfoldable pub create_tox : (Text → Option Text) → T
  create_tox files = boot.tox_new (files conf.save_data_file)

  -- Whether a node answers is only logged.
  unfoldable pub bootstrap_each : List DhtNode → Cmd (World T S) (Unit {0})
  bootstrap_each [] = pure tt
  bootstrap_each (node ∷ nodes) = do
    done ← call_tox (
        boot.tox_bootstrap (c_str node.ipv4) (node.port % 2 ^ 16)
          (sodium.hex2bin (c_str node.public_key)))
    bootstrap_each nodes

  -- The nodes of a file that was read.
  unfoldable pub bootstrap_from : Option Text × ℕ → Cmd (World T S) (Unit {0})
  unfolding bootstrap_each text_of_buffer
  bootstrap_from (none, buf_size) = pure tt
  bootstrap_from (some bytes, buf_size) = elim (text_of_buffer bytes) [
    | none ↦ fail out_of_range
    | some text ↦ elim (boot.parse_nodes (take buf_size text)) [
      | none ↦ fail uncaught
      | some nodes ↦ bootstrap_each nodes
    ]
  ]

  unfoldable pub bootstrap : Cmd (World T S) (Unit {0})
  unfolding get_data bootstrap_from
  bootstrap = do file ← get_data conf.nodes_file_name 0; bootstrap_from file

  unfoldable pub set_name : Text → Cmd (World T S) (Unit {0})
  set_name name = tell_tox (boot.tox_self_set_name name)

  unfoldable pub set_status_message : Text → Cmd (World T S) (Unit {0})
  set_status_message status_message = tell_tox (boot.tox_self_set_status_message status_message)

  -- The globals with the settings, and toxcore's state, on a disk and a database.
  unfoldable pub process : (Text → Option Text) → (Text → Bool) → S → World T S
  unfolding create_tox
  process files writable server = record {
    store = record {
      db = record {
        pool =
            init conf.db_host conf.db_user conf.db_passwd conf.db_name conf.db_max_conn
              no_connections;
        server = server;
      };
      member_mgr = record { online_member = []; free_list = empty_pool Member };
    };
    network = create_tox files;
    files = files;
    writable = writable;
    avatar_data = none;
    avatar_data_size = 0;
    sent = [];
  }

  -- `main` behind the reading of the settings, up to its loop.
  unfoldable pub start : Cmd (World T S) (Unit {0})
  unfolding bootstrap set_name set_status_message update_savedata_file
  start = do
    bootstrap
    set_name conf.bot_name
    set_status_message conf.status_message
    update_savedata_file env
