-- ===== src/Conf/Given.antt =====
-- What a settings file that has every option leaves in the settings, read by the getters.
use find_friend_bot.Base.{
  ℕ, ◌≡◌, refl, true, false, none, fault, uncaught, some, List, [], ◌∷◌, Text, String, codes, ok,
  Returns, returns,
}
use mathlib.Core.Option
use find_friend_bot.Map.{find}
use find_friend_bot.Conf.{
  Conf, ProgramOptions, required, notify_file, parse_conf, notify_options, parse_option, empty_conf,
  set_conf_file_name,
}
use find_friend_bot.Conf.Laws.{file_options}
use find_friend_bot.Conf.Getters.{
  get_conf_file_name, get_nodes_file_name, get_db_host, get_db_max_conn, get_db_user, get_db_passwd,
  get_db_name, get_bot_name, get_status_message, get_save_data_file, get_save_data_tmp_file,
  get_save_img_path, get_avatar_filename, get_log_file_name, get_log_time_format, get_log_file_size,
  get_log_level, get_desc_start, get_desc_start_non_tok, get_desc_stop, get_desc_help, get_desc_set,
  get_desc_set_non_tok, get_desc_readme, get_desc_get, get_desc_info, get_desc_unknown_cmd,
  get_desc_get_none,
}

-- A pair that nests to the right without parentheses.
infixr 5 ◌&◌
pub data And (A B : Type 0) : Type 0 where
  ◌&◌ : A → B → And A B

-- Each of these options was given.
abbrev pub AllGiven : List String → List (Text × Text) → Type 0
AllGiven [] vm = Unit {0}
AllGiven (s ∷ ss) vm = And ((v : Text) × (find (codes s) vm ≡ some v)) (AllGiven ss vm)

-- The options with the getters that read them.
abbrev pub text_getters : List (String × (Conf → Text))
text_getters =
    ("nodes_file_name", get_nodes_file_name)
    ∷ ("host", get_db_host)
    ∷ ("user", get_db_user)
    ∷ ("passwd", get_db_passwd)
    ∷ ("db", get_db_name)
    ∷ ("bot_name", get_bot_name)
    ∷ ("status_message", get_status_message)
    ∷ ("save_data_file", get_save_data_file)
    ∷ ("save_data_tmp_file", get_save_data_tmp_file)
    ∷ ("save_img_path", get_save_img_path)
    ∷ ("avatar_filename", get_avatar_filename)
    ∷ ("log_file_name", get_log_file_name)
    ∷ ("log_time_format", get_log_time_format)
    ∷ ("log_level", get_log_level)
    ∷ ("desc_start", get_desc_start)
    ∷ ("desc_start_non_tok", get_desc_start_non_tok)
    ∷ ("desc_stop", get_desc_stop)
    ∷ ("desc_help", get_desc_help)
    ∷ ("desc_set", get_desc_set)
    ∷ ("desc_set_non_tok", get_desc_set_non_tok)
    ∷ ("desc_readme", get_desc_readme)
    ∷ ("desc_get", get_desc_get)
    ∷ ("desc_info", get_desc_info)
    ∷ ("desc_unknown_cmd", get_desc_unknown_cmd)
    ∷ ("desc_get_none", get_desc_get_none)
    ∷ []

abbrev pub int_getters : List (String × (Conf → ℕ))
int_getters = ("max_conn", get_db_max_conn) ∷ ("log_file_size", get_log_file_size) ∷ []

-- Each of these getters gives the value of its option, read as `read` does.
abbrev pub Agree :
    {A : Type 0} → (Text → A) → List (String × (Conf → A)) → List (Text × Text) → Conf → Type 0
Agree read [] vm c = Unit {0}
Agree read ((s, get) ∷ rest) vm c =
    And (Option.map read (find (codes s) vm) ≡ some (get c)) (Agree read rest vm c)

-- The settings are those of the file.
pub record IsRead (po : ProgramOptions) (vm : List (Text × Text)) (c : Conf) : Type 0 where
  pub texts : Agree (λ v. v) text_getters vm c
  pub ints : Agree po.int_value int_getters vm c

module _ (po : ProgramOptions) where
  notify_file_given :
      (vm : List (Text × Text)) (c : Conf)
      → AllGiven file_options vm
      → Returns
          (λ read c'.
            (read ≡ true) × IsRead po vm c' × (get_conf_file_name c' ≡ get_conf_file_name c))
          (notify_file po vm c)
  unfolding notify_file required
  notify_file_given vm c
        ((v0, e0)
          & (v1, e1)
          & (v2, e2)
          & (v3, e3)
          & (v4, e4)
          & (v5, e5)
          & (v6, e6)
          & (v7, e7)
          & (v8, e8)
          & (v9, e9)
          & (v10, e10)
          & (v11, e11)
          & (v12, e12)
          & (v13, e13)
          & (v14, e14)
          & (v15, e15)
          & (v16, e16)
          & (v17, e17)
          & (v18, e18)
          & (v19, e19)
          & (v20, e20)
          & (v21, e21)
          & (v22, e22)
          & (v23, e23)
          & (v24, e24)
          & (v25, e25)
          & (v26, e26)
          & none_left) =
      rw
        (
          notify_file, required, e0, e1, e2, e3, e4, e5, e6, e7, e8, e9, e10, e11, e12, e13, e14,
          e15, e16, e17, e18, e19, e20, e21, e22, e23, e24, e25, e26,
        )
        (returns (
          refl,
          record {
            texts =
                rw e0 refl
                & rw e1 refl
                & rw e3 refl
                & rw e4 refl
                & rw e5 refl
                & rw e6 refl
                & rw e7 refl
                & rw e8 refl
                & rw e9 refl
                & rw e10 refl
                & rw e11 refl
                & rw e12 refl
                & rw e13 refl
                & rw e15 refl
                & rw e16 refl
                & rw e17 refl
                & rw e18 refl
                & rw e19 refl
                & rw e20 refl
                & rw e21 refl
                & rw e22 refl
                & rw e23 refl
                & rw e24 refl
                & rw e25 refl
                & rw e26 refl
                & tt;
            ints = rw e2 refl & rw e14 refl & tt;
          },
          refl,
        ))

  -- Where Boost can read the settings file and all its options were given, `parse_conf` returns
  -- true, every getter gives the value of its option, and the name of the settings file stays.
  pub parse_conf_given :
      (text : Text) (vm : List (Text × Text)) (c : Conf)
      → po.store_config_file text ≡ some vm
      → AllGiven file_options vm
      → Returns
          (λ read c'.
            (read ≡ true) × IsRead po vm c' × (get_conf_file_name c' ≡ get_conf_file_name c))
          (parse_conf po text c)
  unfolding parse_conf
  parse_conf_given text vm c e given = rw (parse_conf, e) (notify_file_given vm c given)

  -- The command line names the settings file.
  pub parse_option_given :
      (argv : List Text) (vm : List (Text × Text)) (name : Text)
      → po.store_command_line argv ≡ some vm
      → find (codes "file") vm ≡ some name
      → parse_option po argv empty_conf ≡ ok true (set_conf_file_name name empty_conf)
  unfolding parse_option notify_options required
  parse_option_given argv vm name e f = rw (parse_option, e, notify_options, required, f) refl

  pub parse_option_missing :
      (argv : List Text) (vm : List (Text × Text)) (c : Conf)
      → po.store_command_line argv ≡ some vm
      → find (codes "file") vm ≡ none
      → parse_option po argv c ≡ fault uncaught
  unfolding parse_option notify_options required
  parse_option_missing argv vm c e f = rw (parse_option, e, notify_options, required, f) refl

  -- Options that Boost throws at change nothing.
  pub parse_option_unparsed :
      (argv : List Text) (c : Conf)
      → po.store_command_line argv ≡ none
      → parse_option po argv c ≡ ok false c
  unfolding parse_option
  parse_option_unparsed argv c e = rw (parse_option, e) refl
