-- ===== src/Main/Entry.antt =====
-- What becomes of `main` under each kind of arguments and settings file.
use find_friend_bot.Base.{
  ◌≡◌, ◌<◌, ◌*◌, refl, true, false, Option, none, some, List, [], Text, codes, c_str, ok, fault,
  uncaught, null_pointer, Returns, returns, Returns-bind,
}
use find_friend_bot.Map.{find}
use find_friend_bot.Sql.Healthy.{Healthy}
use find_friend_bot.Conf.{Conf, ProgramOptions, parse_conf, empty_conf, set_conf_file_name}
use find_friend_bot.Conf.Getters.{
  get_conf_file_name, get_save_data_tmp_file, get_log_file_name, get_log_time_format,
  get_log_file_size, get_log_level,
}
use find_friend_bot.Conf.Laws.{AnyMissing, file_options, parse_conf_missing}
use find_friend_bot.Conf.Given.{
  AllGiven, IsRead, parse_option_given, parse_option_missing, parse_option_unparsed,
  parse_conf_given,
}
use find_friend_bot.Logger
use find_friend_bot.Logger.{severity_of}
use find_friend_bot.World.{Env, World}
use find_friend_bot.Assisant.Upkeep.{IsUp, Formats}
use find_friend_bot.Assisant.Running.{Moment}
use find_friend_bot.Bot.{Boot, process}
use find_friend_bot.Bot.Startup.{NodesFit, start_shut}
use find_friend_bot.Main.{Machine, Process, file_text, read_settings, settled, main}

module _ (po : ProgramOptions) where
  -- The settings are read from the file that the command line names.
  pub read_settings_given :
      (argv : List Text) (files : Text → Option Text) (args vm : List (Text × Text)) (name : Text)
      → po.store_command_line argv ≡ some args
      → find (codes "file") args ≡ some name
      → po.store_config_file (file_text files name) ≡ some vm
      → AllGiven file_options vm
      → Returns
          (λ _ c. IsRead po vm c × (get_conf_file_name c ≡ name))
          (read_settings po argv files empty_conf)
  unfolding read_settings
  read_settings_given argv files args vm name e f g given =
      rw (read_settings, parse_option_given po argv args name e f)
        (Returns-bind
          (parse_conf_given po (file_text files name) vm (set_conf_file_name name empty_conf) g
            given)
          λ read c (_, is_read, named). returns (is_read, named))

  -- A command line without the option ends the process.
  read_settings_unnamed :
      (argv : List Text) (files : Text → Option Text) (args : List (Text × Text))
      → po.store_command_line argv ≡ some args
      → find (codes "file") args ≡ none
      → read_settings po argv files empty_conf ≡ fault uncaught
  unfolding read_settings
  read_settings_unnamed argv files args e f =
      rw (read_settings, parse_option_missing po argv args empty_conf e f) refl

  -- What the command line parser threw at is no settings file either.
  read_settings_unparsed :
      (argv : List Text) (files : Text → Option Text) (vm : List (Text × Text))
      → po.store_command_line argv ≡ none
      → po.store_config_file (file_text files []) ≡ some vm
      → AnyMissing file_options vm
      → read_settings po argv files empty_conf ≡ fault uncaught
  unfolding read_settings
  read_settings_unparsed argv files vm e f missing =
      rw
        (
          read_settings,
          parse_option_unparsed po argv empty_conf e,
          parse_conf_missing po (file_text files []) vm empty_conf f missing,
        )
        refl

  -- A settings file that Boost throws at leaves the settings as they were.
  read_settings_unread :
      (argv : List Text) (files : Text → Option Text) (args : List (Text × Text)) (name : Text)
      → po.store_command_line argv ≡ some args
      → find (codes "file") args ≡ some name
      → po.store_config_file (file_text files name) ≡ none
      → read_settings po argv files empty_conf ≡ ok tt (set_conf_file_name name empty_conf)
  unfolding read_settings parse_conf
  read_settings_unread argv files args name e f g =
      rw (read_settings, parse_option_given po argv args name e f, parse_conf, g) refl

module _ {T S : Type 0} (env : Env T S) (boot : Boot T) where
  -- What the rest of the system has to offer under these settings.
  pub record Suits (machine : Machine S) (c : Conf) : Type 0 where
    pub log_size : get_log_file_size c < 2048
    pub shows : Formats (settled env c)
    pub opens : machine.writable (get_save_data_tmp_file c) ≡ true
    pub nodes_fit : NodesFit (settled env c) boot machine.files

  -- The process has the settings of the file, logs as they say, and is up.
  pub record IsServing (po : ProgramOptions) (vm : List (Text × Text)) (name : Text)
      (p : Process T S) : Type 0 where
    pub is_read : IsRead po vm p.settings
    pub named : get_conf_file_name p.settings ≡ name
    pub sinks :
        p.sinks
        ≡ some (record {
          file_name = get_log_file_name p.settings;
          timestamp_format = c_str (get_log_time_format p.settings);
          rotation_size = get_log_file_size p.settings * 1024 * 1024;
          filter = severity_of (get_log_level p.settings);
        })
    pub up : IsUp (settled env p.settings) p.world

module _ {T S : Type 0} (env : Env T S) (boot : Boot T) (po : ProgramOptions) where
  -- If Boost throws at the settings file that the command line names, no file has the empty name
  -- and none with that name can be opened for writing, `main` goes on with empty settings and
  -- writes through a null pointer.
  pub main_unread :
      (argv : List Text) (machine : Machine S) (moments : List (Moment T))
      (args : List (Text × Text)) (name : Text)
      → po.store_command_line argv ≡ some args
      → find (codes "file") args ≡ some name
      → po.store_config_file (file_text machine.files name) ≡ none
      → machine.files [] ≡ none
      → machine.writable [] ≡ false
      → main env boot po argv machine moments ≡ fault null_pointer
  unfolding main Logger.init process
  main_unread argv machine moments args name e f g no_nodes shut =
      rw (main, read_settings_unread po argv machine.files args name e f g)
        (rw
          (start_shut (settled env (set_conf_file_name name empty_conf)) boot
            (process (settled env (set_conf_file_name name empty_conf)) boot machine.files
              machine.writable machine.server)
            no_nodes shut)
          refl)

  -- A command line that Boost can read and that names no settings file ends the process with an
  -- exception that nothing catches.
  pub main_unnamed :
      (argv : List Text) (machine : Machine S) (moments : List (Moment T))
      (args : List (Text × Text))
      → po.store_command_line argv ≡ some args
      → find (codes "file") args ≡ none
      → main env boot po argv machine moments ≡ fault uncaught
  unfolding main
  main_unnamed argv machine moments args e f =
      rw (main, read_settings_unnamed po argv machine.files args e f) refl
