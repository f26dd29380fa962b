-- ===== src/Conf/Getters.antt =====
-- src/Conf.cpp: the getters, which give a field each.
use find_friend_bot.Base.{ℕ, Text}
use find_friend_bot.Conf.{Conf}

abbrev pub get_conf_file_name : Conf → Text
get_conf_file_name c = c.conf_file_name

abbrev pub get_nodes_file_name : Conf → Text
get_nodes_file_name c = c.nodes_file_name

abbrev pub get_db_host : Conf → Text
get_db_host c = c.db_host

abbrev pub get_db_max_conn : Conf → ℕ
get_db_max_conn c = c.db_max_conn

abbrev pub get_db_user : Conf → Text
get_db_user c = c.db_user

abbrev pub get_db_passwd : Conf → Text
get_db_passwd c = c.db_passwd

abbrev pub get_db_name : Conf → Text
get_db_name c = c.db_name

abbrev pub get_bot_name : Conf → Text
get_bot_name c = c.bot_name

abbrev pub get_status_message : Conf → Text
get_status_message c = c.status_message

abbrev pub get_save_data_file : Conf → Text
get_save_data_file c = c.save_data_file

abbrev pub get_save_data_tmp_file : Conf → Text
get_save_data_tmp_file c = c.save_data_tmp_file

abbrev pub get_save_img_path : Conf → Text
get_save_img_path c = c.save_img_path

abbrev pub get_log_file_name : Conf → Text
get_log_file_name c = c.log_file_name

abbrev pub get_log_time_format : Conf → Text
get_log_time_format c = c.log_time_format

abbrev pub get_log_file_size : Conf → ℕ
get_log_file_size c = c.log_file_size

abbrev pub get_log_level : Conf → Text
get_log_level c = c.log_level

abbrev pub get_desc_start : Conf → Text
get_desc_start c = c.desc_start

abbrev pub get_desc_start_non_tok : Conf → Text
get_desc_start_non_tok c = c.desc_start_non_tok

abbrev pub get_desc_stop : Conf → Text
get_desc_stop c = c.desc_stop

abbrev pub get_desc_help : Conf → Text
get_desc_help c = c.desc_help

abbrev pub get_desc_set : Conf → Text
get_desc_set c = c.desc_set

abbrev pub get_desc_set_non_tok : Conf → Text
get_desc_set_non_tok c = c.desc_set_non_tok

abbrev pub get_desc_readme : Conf → Text
get_desc_readme c = c.desc_readme

abbrev pub get_desc_get : Conf → Text
get_desc_get c = c.desc_get

abbrev pub get_desc_info : Conf → Text
get_desc_info c = c.desc_info

abbrev pub get_desc_unknown_cmd : Conf → Text
get_desc_unknown_cmd c = c.desc_unknown_cmd

abbrev pub get_desc_get_none : Conf → Text
get_desc_get_none c = c.desc_get_none

abbrev pub get_avatar_filename : Conf → Text
get_avatar_filename c = c.avatar_filename
