-- ===== src/Main.antt =====
-- src/main.cpp: the whole of `main`, from its arguments to the callbacks of its loop.
pub mod Entry
use find_friend_bot.Base.{
  Bool, Option, none, some, List, [], Text, Run, ok, fault, Cmd, pure, ◌>>=◌, ◌>>◌,
}
use find_friend_bot.Conf.{Conf, ProgramOptions, empty_conf, parse_option, parse_conf}
use find_friend_bot.Conf.Getters.{
  get_conf_file_name, get_log_file_name, get_log_time_format, get_log_file_size, get_log_level,
}
use find_friend_bot.Logger
use find_friend_bot.Logger.{Sinks}
use find_friend_bot.World.{Env, World}
use find_friend_bot.Assisant.Running.{Moment, run}
use find_friend_bot.Bot.{Boot, process, start}

-- What the process finds: the disk and the database.
pub record Machine (S : Type 0) : Type 0 where
  pub files : Text → Option Text
  pub writable : Text → Bool
  pub server : S

-- The globals `conf` and the logger's sinks, and the rest.
pub record Process (T S : Type 0) : Type 0 where
  pub settings : Conf
  pub sinks : Option Sinks
  pub world : World T S

-- What a stream of the file gives: nothing if it cannot be opened.
abbrev pub file_text : (Text → Option Text) → Text → Text
file_text files name = elim (files name) [ none ↦ [] | some text ↦ text ]

module _ (po : ProgramOptions) where
  -- What the two parsers return is dropped.
  unfoldable pub read_settings : List Text → (Text → Option Text) → Cmd Conf (Unit {0})
  read_settings argv files = do
    parsed ← parse_option po argv
    name ← (λ c. ok (get_conf_file_name c) c)
    read ← parse_conf po (file_text files name)
    pure tt

abbrev pub settled : {T S : Type 0} → Env T S → Conf → Env T S
settled env c = record env { conf = c }

module _ {T S : Type 0} where
  -- The world's part of a run, with the globals.
  abbrev pub with_globals :
      {A : Type 0} → Conf → Option Sinks → Run (World T S) A → Run (Process T S) A
  with_globals c sinks (ok a w) = ok a (record { settings = c; sinks = sinks; world = w })
  with_globals c sinks (fault e) = fault e

module _ {T S : Type 0} (env : Env T S) (boot : Boot T) where
  abbrev pub serve :
      Machine S
      → List (Moment T)
      → Conf
      → Run (Option Sinks) (Unit {0})
      → Run (Process T S) (Unit {0})
  serve machine moments c (fault e) = fault e
  serve machine moments c (ok _ sinks) = with_globals c sinks (
      (start (settled env c) boot >> run (settled env c) moments)
        (process (settled env c) boot machine.files machine.writable machine.server))

  abbrev pub with_settings :
      Machine S → List (Moment T) → Run Conf (Unit {0}) → Run (Process T S) (Unit {0})
  with_settings machine moments (fault e) = fault e
  with_settings machine moments (ok _ c) = serve machine moments c (
      Logger.init (get_log_file_name c) (get_log_time_format c) (get_log_file_size c)
        (get_log_level c) none)

module _ {T S : Type 0} (env : Env T S) (boot : Boot T) (po : ProgramOptions) where
  -- The loop makes the callbacks of the moments.
  unfoldable pub main : List Text → Machine S → List (Moment T) → Run (Process T S) (Unit {0})
  main argv machine moments =
      with_settings env boot machine moments (read_settings po argv machine.files empty_conf)
