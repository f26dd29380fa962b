-- ===== src/Conf/Laws.antt =====
-- What becomes of a settings file that lacks an option.
use find_friend_bot.Base.{
  ◌≡◌, refl, none, some, List, [], ◌∷◌, Text, String, codes, fault, uncaught, Cmd, ◌>>=◌, ◌⊎◌, inl,
  inr, Option-cases,
}
use find_friend_bot.Map.{find}
use find_friend_bot.Conf.{Conf, ProgramOptions, required, notify_file, parse_conf}

-- One of these options was not given.
abbrev pub AnyMissing : List String → List (Text × Text) → Type 0
AnyMissing [] vm = ⊥
AnyMissing (s ∷ ss) vm = (find (codes s) vm ≡ none) ⊎ AnyMissing ss vm

-- The options of the settings file.
abbrev pub file_options : List String
file_options =
    "nodes_file_name" ∷ "host" ∷ "max_conn" ∷ "user" ∷ "passwd" ∷ "db" ∷ "bot_name"
    ∷ "status_message" ∷ "save_data_file" ∷ "save_data_tmp_file" ∷ "save_img_path"
    ∷ "avatar_filename" ∷ "log_file_name" ∷ "log_time_format" ∷ "log_file_size" ∷ "log_level"
    ∷ "desc_start" ∷ "desc_start_non_tok" ∷ "desc_stop" ∷ "desc_help" ∷ "desc_set"
    ∷ "desc_set_non_tok" ∷ "desc_readme" ∷ "desc_get" ∷ "desc_info" ∷ "desc_unknown_cmd"
    ∷ "desc_get_none" ∷ []

-- A command that ends the process whatever the settings are.
record Ends {A : Type 0} (x : Cmd Conf A) : Type 0 where
  pub ends : (c : Conf) → x c ≡ fault uncaught

-- The next option is missing, or one behind it.
module _ {A : Type 0} (vm : List (Text × Text)) where
  step :
      (s : String) {R : Type 0} {k : Text → Cmd Conf A}
      → (find (codes s) vm ≡ none) ⊎ R
      → (R → (v : Text) → Ends (k v))
      → Ends (required s vm >>= k)
  unfolding required
  step s {R} {k} h next = record { ends = λ c. go c h }
    where
      go : (c : Conf) → (find (codes s) vm ≡ none) ⊎ R → (required s vm >>= k) c ≡ fault uncaught
      go c (inl e) = rw (required, e) refl
      go c (inr r) = elim (Option-cases (find (codes s) vm)) [
        | inl e ↦ rw (required, e) refl
        | inr (v, e) ↦ rw (required, e) ((next r v).ends c)
      ]

module _ (po : ProgramOptions) where
  notify_file_missing :
      (vm : List (Text × Text)) → AnyMissing file_options vm → Ends (notify_file po vm)
  unfolding notify_file
  notify_file_missing vm h = step vm "nodes_file_name" h λ h _. step vm "host" h λ h _.
      step vm "max_conn" h λ h _. step vm "user" h λ h _. step vm "passwd" h λ h _.
        step vm "db" h λ h _. step vm "bot_name" h λ h _. step vm "status_message" h λ h _.
          step vm "save_data_file" h λ h _. step vm "save_data_tmp_file" h λ h _.
            step vm "save_img_path" h λ h _. step vm "avatar_filename" h λ h _.
              step vm "log_file_name" h λ h _. step vm "log_time_format" h λ h _.
                step vm "log_file_size" h λ h _. step vm "log_level" h λ h _.
                  step vm "desc_start" h λ h _. step vm "desc_start_non_tok" h λ h _.
                    step vm "desc_stop" h λ h _. step vm "desc_help" h λ h _.
                      step vm "desc_set" h λ h _. step vm "desc_set_non_tok" h λ h _.
                        step vm "desc_readme" h λ h _. step vm "desc_get" h λ h _.
                          step vm "desc_info" h λ h _.
                            step vm "desc_unknown_cmd" h
                              λ h _. step vm "desc_get_none" h λ h _. absurd h

  -- A settings file that Boost can read and that lacks any of the 27 options ends the process with
  -- an exception that nothing catches.
  pub parse_conf_missing :
      (text : Text) (vm : List (Text × Text)) (c : Conf)
      → po.store_config_file text ≡ some vm
      → AnyMissing file_options vm
      → parse_conf po text c ≡ fault uncaught
  unfolding parse_conf
  parse_conf_missing text vm c e h = rw (parse_conf, e) ((notify_file_missing vm h).ends c)
