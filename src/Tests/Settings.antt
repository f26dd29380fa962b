-- ===== src/Tests/Settings.antt =====
-- The properties of the settings, of `main` and of the log at concrete inputs.
use find_friend_bot.Base.{
  ◌≡◌, refl, true, false, none, some, List, ◌∷◌, ◌++◌, Text, String, codes, text_eq, arith, Returns,
  fault, null_pointer, map, ok, out_of_range, length, ◌+◌, ◌≤◌, if◌then◌else◌, [],
}
use find_friend_bot.Map.{find}
use find_friend_bot.Conf.{Conf, ProgramOptions, empty_conf, parse_conf}
use find_friend_bot.Conf.Getters.{get_conf_file_name}
use find_friend_bot.Conf.Laws.{file_options}
use find_friend_bot.Conf.Given.{◌&◌, AllGiven, IsRead, parse_conf_given}
use find_friend_bot.Main.{Machine, main}
use find_friend_bot.Main.Entry.{main_unread}
use find_friend_bot.Bot.{log_debug}
use find_friend_bot.Bot.Log.{file_of, log_line, print_debug_log, print_debug_log_fits}
use find_friend_bot.Tests.{boot}
use find_friend_bot.Fixtures.{Table, env}

-- A settings file that gives each option its own name, but for the level of the log.
abbrev own_names : List String → List (Text × Text)
own_names [] = []
own_names (s ∷ ss) =
    (codes s, if text_eq (codes s) (codes "log_level") then codes "info" else codes s)
    ∷ own_names ss

abbrev options : ProgramOptions
options = record {
  store_command_line = λ argv. some (map (λ a. (codes "file", a)) argv);
  store_config_file =
      λ text. if text_eq text (codes "?") then none else some (own_names file_options);
  int_value = λ _. 10;
}

all_given : AllGiven file_options (own_names file_options)
unfolding find text_eq
all_given =
    (_, refl)
    & (_, refl)
    & (_, refl)
    & (_, refl)
    & (_, refl)
    & (_, refl)
    & (_, refl)
    & (_, refl)
    & (_, refl)
    & (_, refl)
    & (_, refl)
    & (_, refl)
    & (_, refl)
    & (_, refl)
    & (_, refl)
    & (_, refl)
    & (_, refl)
    & (_, refl)
    & (_, refl)
    & (_, refl)
    & (_, refl)
    & (_, refl)
    & (_, refl)
    & (_, refl)
    & (_, refl)
    & (_, refl)
    & (_, refl)
    & tt

parse_conf_given_example :
    Returns
      (λ read c.
        (read ≡ true)
        × IsRead options (own_names file_options) c
        × (get_conf_file_name c ≡ get_conf_file_name empty_conf))
      (parse_conf options [] empty_conf)
unfolding text_eq
parse_conf_given_example =
    parse_conf_given options [] (own_names file_options) empty_conf refl all_given

-- Each file is a list of nodes, and each can be written.
abbrev machine : Machine Table
machine = record {
  files = λ _. some (codes "{}" ++ 0 ∷ []);
  writable = λ _. true;
  server = λ _. none;
}

-- A settings file that Boost throws at, and nothing that can be written.
abbrev closed_machine : Machine Table
closed_machine = record {
  files = λ name. if text_eq name [] then none else some (codes "?");
  writable = λ _. false;
  server = λ _. none;
}

main_unread_example :
    main env boot options (codes "ini" ∷ []) closed_machine [] ≡ fault null_pointer
unfolding find text_eq
main_unread_example =
    main_unread env boot options (codes "ini" ∷ []) closed_machine []
      ((codes "file", codes "ini") ∷ []) (codes "ini") refl refl refl refl refl

print_debug_log_fits_example :
    (length (file_of (codes "a/b.c")) + length (codes "f") + length (codes "hi") ≤ 470
      → print_debug_log log_debug (codes "a/b.c") 12 (codes "f") (codes "hi") none []
        ≡ ok tt (log_line 0 log_debug (codes "a/b.c") 12 (codes "f") (codes "hi") ∷ []))
    × (511 ≤ length (codes "hi")
        → print_debug_log log_debug (codes "a/b.c") 12 (codes "f") (codes "hi") none []
          ≡ fault out_of_range)
print_debug_log_fits_example =
    print_debug_log_fits log_debug (codes "a/b.c") 12 (codes "f") (codes "hi") none []
      λ e. ground arith
