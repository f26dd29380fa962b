-- ===== src/Conf.antt =====
-- src/Conf.h and src/Conf.cpp: the settings, read by Boost.Program_options. The getters are the
-- fields. An `int` is its bit pattern.
pub mod Getters
pub mod Given
pub mod Laws
use find_friend_bot.Base.{
  ℕ, Bool, true, false, Option, none, some, List, [], Text, String, codes, Run, ok, fault, Cmd,
  fail, uncaught, pure, ◌>>=◌, ◌>>◌,
}
use find_friend_bot.Map.{find}

pub record Conf : Type 0 where
  pub conf_file_name : Text
  pub nodes_file_name : Text
  pub db_host : Text
  pub db_max_conn : ℕ
  pub db_user : Text
  pub db_passwd : Text
  pub db_name : Text
  pub bot_name : Text
  pub status_message : Text
  pub save_data_file : Text
  pub save_data_tmp_file : Text
  pub save_img_path : Text
  pub avatar_filename : Text
  pub log_file_name : Text
  pub log_time_format : Text
  pub log_file_size : ℕ
  pub log_level : Text
  pub desc_start : Text
  pub desc_start_non_tok : Text
  pub desc_stop : Text
  pub desc_help : Text
  pub desc_set : Text
  pub desc_set_non_tok : Text
  pub desc_readme : Text
  pub desc_get : Text
  pub desc_info : Text
  pub desc_unknown_cmd : Text
  pub desc_get_none : Text

-- `Conf()`
abbrev pub empty_conf : Conf
empty_conf = record {
  conf_file_name = [];
  nodes_file_name = [];
  db_host = [];
  db_max_conn = 0;
  db_user = [];
  db_passwd = [];
  db_name = [];
  bot_name = [];
  status_message = [];
  save_data_file = [];
  save_data_tmp_file = [];
  save_img_path = [];
  avatar_filename = [];
  log_file_name = [];
  log_time_format = [];
  log_file_size = 0;
  log_level = [];
  desc_start = [];
  desc_start_non_tok = [];
  desc_stop = [];
  desc_help = [];
  desc_set = [];
  desc_set_non_tok = [];
  desc_readme = [];
  desc_get = [];
  desc_info = [];
  desc_unknown_cmd = [];
  desc_get_none = [];
}

-- Boost.Program_options. `none` stands for an exception; the map has the options that were given.
pub record ProgramOptions : Type 0 where
  -- `store(parse_command_line(argc, argv, desc), vm)`
  pub store_command_line : List Text → Option (List (Text × Text))
  -- `store(parse_config_file(settings_file, desc), vm)`, of the file's text; it also checks that the
  -- values of the `int` options are numbers.
  pub store_config_file : Text → Option (List (Text × Text))
  -- the value of an `int` option that was checked
  pub int_value : Text → ℕ

-- `notify(vm)` outside the `try` block: an option that is required and missing ends the process.
unfoldable pub required : String → List (Text × Text) → Cmd Conf Text
required key vm = elim (find (codes key) vm) [ none ↦ fail uncaught | some v ↦ pure v ]

module _ (po : ProgramOptions) where
  notify_file : List (Text × Text) → Cmd Conf Bool
  notify_file vm = do
    nodes_file_name ← required "nodes_file_name" vm
    db_host ← required "host" vm
    db_max_conn ← required "max_conn" vm
    db_user ← required "user" vm
    db_passwd ← required "passwd" vm
    db_name ← required "db" vm
    bot_name ← required "bot_name" vm
    status_message ← required "status_message" vm
    save_data_file ← required "save_data_file" vm
    save_data_tmp_file ← required "save_data_tmp_file" vm
    save_img_path ← required "save_img_path" vm
    avatar_filename ← required "avatar_filename" vm
    log_file_name ← required "log_file_name" vm
    log_time_format ← required "log_time_format" vm
    log_file_size ← required "log_file_size" vm
    log_level ← required "log_level" vm
    desc_start ← required "desc_start" vm
    desc_start_non_tok ← required "desc_start_non_tok" vm
    desc_stop ← required "desc_stop" vm
    desc_help ← required "desc_help" vm
    desc_set ← required "desc_set" vm
    desc_set_non_tok ← required "desc_set_non_tok" vm
    desc_readme ← required "desc_readme" vm
    desc_get ← required "desc_get" vm
    desc_info ← required "desc_info" vm
    desc_unknown_cmd ← required "desc_unknown_cmd" vm
    desc_get_none ← required "desc_get_none" vm
    (λ c. ok true (record c {
      nodes_file_name = nodes_file_name;
      db_host = db_host;
      db_max_conn = po.int_value db_max_conn;
      db_user = db_user;
      db_passwd = db_passwd;
      db_name = db_name;
      bot_name = bot_name;
      status_message = status_message;
      save_data_file = save_data_file;
      save_data_tmp_file = save_data_tmp_file;
      save_img_path = save_img_path;
      avatar_filename = avatar_filename;
      log_file_name = log_file_name;
      log_time_format = log_time_format;
      log_file_size = po.int_value log_file_size;
      log_level = log_level;
      desc_start = desc_start;
      desc_start_non_tok = desc_start_non_tok;
      desc_stop = desc_stop;
      desc_help = desc_help;
      desc_set = desc_set;
      desc_set_non_tok = desc_set_non_tok;
      desc_readme = desc_readme;
      desc_get = desc_get;
      desc_info = desc_info;
      desc_unknown_cmd = desc_unknown_cmd;
      desc_get_none = desc_get_none;
    }))

  -- The argument is the text of the file, empty if it cannot be opened.
  unfoldable pub parse_conf : Text → Cmd Conf Bool
  unfolding notify_file
  parse_conf text = elim (po.store_config_file text) [
    | none ↦ pure false
    | some vm ↦ notify_file vm
  ]

  notify_options : List (Text × Text) → Cmd Conf Bool
  unfolding required
  notify_options vm = do
    conf_file_name ← required "file" vm
    (λ c. ok true (record c { conf_file_name = conf_file_name }))

  unfoldable pub parse_option : List Text → Cmd Conf Bool
  unfolding notify_options
  parse_option argv = elim (po.store_command_line argv) [
    | none ↦ pure false
    | some vm ↦ notify_options vm
  ]

-- The setters.
abbrev pub set_conf_file_name : Text → Conf → Conf
set_conf_file_name conf_file_name c = record c { conf_file_name = conf_file_name }

abbrev pub set_db_host : Text → Conf → Conf
set_db_host db_host c = record c { db_host = db_host }

abbrev pub set_db_max_conn : ℕ → Conf → Conf
set_db_max_conn db_max_conn c = record c { db_max_conn = db_max_conn }

abbrev pub set_db_user : Text → Conf → Conf
set_db_user db_user c = record c { db_user = db_user }

abbrev pub set_db_passwd : Text → Conf → Conf
set_db_passwd db_passwd c = record c { db_passwd = db_passwd }

abbrev pub set_db_name : Text → Conf → Conf
set_db_name db_name c = record c { db_name = db_name }

abbrev pub set_bot_name : Text → Conf → Conf
set_bot_name bot_name c = record c { bot_name = bot_name }

abbrev pub set_status_message : Text → Conf → Conf
set_status_message status_message c = record c { status_message = status_message }

abbrev pub set_save_data_file : Text → Conf → Conf
set_save_data_file save_data_file c = record c { save_data_file = save_data_file }

abbrev pub set_save_data_tmp_file : Text → Conf → Conf
set_save_data_tmp_file save_data_tmp_file c = record c { save_data_tmp_file = save_data_tmp_file }

abbrev pub set_save_img_path : Text → Conf → Conf
set_save_img_path save_img_path c = record c { save_img_path = save_img_path }

abbrev pub set_log_file_name : Text → Conf → Conf
set_log_file_name log_file_name c = record c { log_file_name = log_file_name }

abbrev pub set_log_time_format : Text → Conf → Conf
set_log_time_format log_time_format c = record c { log_time_format = log_time_format }

abbrev pub set_log_file_size : ℕ → Conf → Conf
set_log_file_size log_file_size c = record c { log_file_size = log_file_size }

abbrev pub set_log_level : Text → Conf → Conf
set_log_level log_level c = record c { log_level = log_level }
