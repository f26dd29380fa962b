-- ===== src/Tests/Callbacks.antt =====
-- The callbacks, the files and the messages at concrete inputs.
use find_friend_bot.Base.{
  true, count, ◌≡◌, refl, false, none, some, List, ◌∷◌, Text, codes, text_eq, arith, Returns, fault,
  out_of_range, ◌^◌, ◌-◌, [],
}
use find_friend_bot.World.{World}
use find_friend_bot.Assisant.Parser.{parse_msg, parse_msg_words, parse_msg_blank_first}
use find_friend_bot.Assisant.Files.{update_savedata_file, file_chunk_request_cb}
use find_friend_bot.Assisant.Timer.{resend, resend_ends}
use find_friend_bot.Assisant.Savedata.{update_savedata_file_lem}
use find_friend_bot.Assisant.Avatar.{WithAvatar, Answered, file_chunk_request_cb-Answered}
use find_friend_bot.Assisant.Transfer.{
  requests, send_all, joined, transfer_whole, file_chunk_request_cb_wraps,
}
use find_friend_bot.LockedQueue.{Ptr}
use find_friend_bot.Map.{find, values}
use find_friend_bot.MemberModel.Fetch.{member_in}
use find_friend_bot.Assisant.Callbacks.{freed, holding, came_online}
use find_friend_bot.Assisant.Reconnect.{came_online_again}
use find_friend_bot.Sql.{Row}
use find_friend_bot.Fixtures.{
  ann, ann_object, world-IsRunning, Net, Table, env, server-Healthy, avatar, world, world-IsRunning,
}

-- Nine times a second of an ever longer night: the message is never sent.
abbrev night : List (World Net Table → World Net Table)
night =
    (λ w. w)
    ∷ (λ w. w)
    ∷ (λ w. w)
    ∷ (λ w. w)
    ∷ (λ w. w)
    ∷ (λ w. w)
    ∷ (λ w. w)
    ∷ (λ w. w)
    ∷ (λ w. w)
    ∷ []

resend_ends_example :
    Returns (λ r _. r ≡ (freed, false)) (resend env 7 night (holding 1, true) world)
resend_ends_example = resend_ends env 7 night world (omega arith)

update_savedata_file_lem_example :
    Returns
      (λ _ w'.
        (w'.files (codes "tox") ≡ some (5 ∷ []))
        × (text_eq (codes "tmp") (codes "tox") ≡ false → w'.files (codes "tmp") ≡ none)
        × ((f : Text)
            → text_eq f (codes "tmp") ≡ false
            → text_eq f (codes "tox") ≡ false
            → w'.files f ≡ world.files f)
        × (w'.store ≡ world.store))
      (update_savedata_file env world)
update_savedata_file_lem_example = update_savedata_file_lem env world refl refl

file_chunk_request_cb-Answered_example :
    Returns
      (λ _ w'.
        (loaded : World Net Table) × WithAvatar env world loaded
        × Answered env 1 0 2 3 (omega arith) (λ z. omega (arith, z)) loaded w')
      (file_chunk_request_cb env 1 0 2 3 world)
file_chunk_request_cb-Answered_example =
    file_chunk_request_cb-Answered env 1 0 2 3 (omega arith) (λ z. omega (arith, z)) world refl

abbrev with_avatar : World Net Table
with_avatar = record world { avatar_data = some avatar; avatar_data_size = 6 }

transfer_whole_example :
    Returns
      (λ _ w'.
        (pieces : List Text) × (joined pieces ≡ avatar)
        × (w' ≡ record with_avatar { network = send_all env 1 0 0 pieces with_avatar.network }))
      (requests env 1 0 0 (4 ∷ 2 ∷ []) with_avatar)
transfer_whole_example =
    transfer_whole env 1 0 avatar (4 ∷ 2 ∷ []) with_avatar (λ z. omega (arith, z)) (omega arith)
      (refl, refl) ((λ z. omega (arith, z)), ((λ z. omega (arith, z)), tt)) refl

parse_msg_words_example : parse_msg (codes "hi,/set me") ([], []) ≡ some (codes "set", codes " me")
parse_msg_words_example =
    parse_msg_words (codes "hi,") (codes "set") ([], []) refl refl refl (codes "me") (omega arith)

parse_msg_blank_first_example :
    parse_msg (codes "go on /get it") ([], []) ≡ some (codes "get it", codes " on /get it")
parse_msg_blank_first_example =
    parse_msg_blank_first (codes "go") (codes "on ") (codes "get it") ([], []) refl refl
      (omega arith)

file_chunk_request_cb_wraps_example :
    file_chunk_request_cb env 1 0 (2 ^ 64 - 1) 4 with_avatar ≡ fault out_of_range
file_chunk_request_cb_wraps_example =
    file_chunk_request_cb_wraps env 1 0 avatar (2 ^ 64 - 1) 4 with_avatar (refl, refl)
      (λ z. omega (arith, z)) (λ z. omega (arith, z)) (omega arith) (omega arith)

abbrev ann_row : Row
ann_row = record {
  tok_id = codes "T1";
  pk = ann;
  nick_name = codes "ann";
  bio = codes "hi";
  signature = codes "sig";
  create_time = 1;
  update_time = 2;
}

-- Ann has a row, and is online already.
abbrev registered : World Net Table
registered = record world {
  store = record (world.store) { db = record (world.store.db) { server = λ _. some ann_row } };
}

came_online_again_example :
    Returns
      (λ _ w'.
        let m' = w'.store.member_mgr in
        (find ann m'.online_member ≡ some 1)
        × (m'.free_list.cell 1 ≡ some ann_object)
        × ((lost : Ptr) × (m'.free_list.cell lost ≡ some (member_in ann_row))
            × (count lost (values m'.online_member) ≡ 0)
            × (count lost m'.free_list.free_list ≡ 0)))
      (came_online env 0 ann registered)
unfolding find text_eq
came_online_again_example =
    came_online_again env server-Healthy 0 registered {old = 1} ann_row ann
      (record { ready = world-IsRunning.ready; valid = world-IsRunning.valid }) refl refl refl
