-- ===== src/Assisant/Files.antt =====
-- The files: `get_data`, `update_savedata_file`, and the avatar with its chunks.
use find_friend_bot.Base.{
  ℕ, ◌+◌, ◌%◌, ◌^◌, Bool, ◌||◌, not, Option, none, some, ◌++◌, Text, text_eq, length, take, drop,
  ltb, is_some, ◌==◌, if◌then◌else◌, ok, fault, Cmd, null_pointer, out_of_range, pure, ◌>>=◌, ◌>>◌,
}
use find_friend_bot.World.{Env, World}

-- The contents of the file system behind a write and behind a rename.
abbrev pub write_file : Text → Option Text → (Text → Option Text) → Text → Option Text
write_file name content files f = if text_eq f name then content else files f

abbrev pub rename_file : Text → Text → (Text → Option Text) → Text → Option Text
rename_file old new files =
    if text_eq old new then files else write_file new (files old) (write_file old none files)

module _ {T S : Type 0} where
  -- The buffer, null if the file cannot be opened, and the size, which then stays as it was.
  unfoldable pub get_data : Text → ℕ → Cmd (World T S) (Option Text × ℕ)
  get_data file_name file_size w = elim (w.files file_name) [
    | none ↦ ok (none, file_size) w
    | some content ↦ let size = length content % 2 ^ 32 in ok (some (take size content), size) w
  ]

module _ {T S : Type 0} (env : Env T S) where
  open env use {conf, tox}

  -- A temporary file that cannot be opened is written through a null pointer; a `rename` that fails
  -- goes unnoticed.
  unfoldable pub update_savedata_file : Cmd (World T S) (Unit {0})
  update_savedata_file w =
      let tmp = conf.save_data_tmp_file in
      let file = conf.save_data_file in
      let written = write_file tmp (some (tox.get_savedata w.network)) w.files in
      if w.writable tmp
      then ok tt
          (record w { files = if w.writable file then rename_file tmp file written else written })
      else fault null_pointer

  abbrev pub avatar_name : Text
  avatar_name = conf.save_img_path ++ conf.avatar_filename

  -- `nullptr == avatar_data || 0 == avatar_data_size`
  abbrev pub no_avatar : World T S → Bool
  no_avatar w = not (is_some w.avatar_data) || (w.avatar_data_size == 0)

  unfoldable pub load_avatar : Cmd (World T S) (Unit {0})
  unfolding get_data
  load_avatar w =
      if no_avatar w
      then (do
        (avatar, size) ← get_data avatar_name w.avatar_data_size
        (λ v. ok tt (record v { avatar_data = avatar; avatar_data_size = size })))
          w
      else ok tt w

  unfoldable pub offer_avatar : ℕ → Cmd (World T S) (Unit {0})
  offer_avatar friend_number w = elim w.avatar_data [
    | none ↦ ok tt w
    | some bytes ↦ ok tt (record w {
      network =
          (tox.file_send friend_number w.avatar_data_size (tox.hash bytes) avatar_name w.network).1;
    })
  ]

  unfoldable pub send_avatar : ℕ → Cmd (World T S) (Unit {0})
  unfolding load_avatar offer_avatar
  send_avatar friend_number = do load_avatar; offer_avatar friend_number

  -- `memcpy` out of the avatar's buffer.
  abbrev pub copy_chunk : ℕ → ℕ → Option Text → Option Text
  copy_chunk position size none = none
  copy_chunk position size (some bytes) =
      if ltb (length bytes) (position + size) then none else some (take size (drop position bytes))

  -- The test on 64 bits, and the chunk.
  unfoldable pub send_chunk :
      (friend_number file_number position size : ℕ) → Cmd (World T S) (Unit {0})
  send_chunk friend_number file_number position size w =
      if ltb w.avatar_data_size ((position + size) % 2 ^ 64)
      then ok tt w
      else elim (copy_chunk position size w.avatar_data) [
        | none ↦ fault out_of_range
        | some bytes ↦ ok tt (record w {
          network = (tox.file_send_chunk friend_number file_number position bytes w.network).1;
        })
      ]

  unfoldable pub file_chunk_request_cb :
      (friend_number file_number position size : ℕ) → Cmd (World T S) (Unit {0})
  unfolding load_avatar send_chunk
  file_chunk_request_cb friend_number file_number position size =
      if size == 0
      then pure tt
      else do load_avatar; send_chunk friend_number file_number position size
