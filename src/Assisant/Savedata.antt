-- ===== src/Assisant/Savedata.antt =====
-- `update_savedata_file`: a temporary file, and a rename over the old one.
use find_friend_bot.Base.{
  ◌≡◌, refl, true, false, Option, none, some, Text, text_eq, text_eq_refl, text_eq_iff, arith,
  Returns, returns, Bool-cases, inl, inr,
}
use find_friend_bot.World.{Env, World}
use find_friend_bot.Assisant.Files.{update_savedata_file, write_file, rename_file}

module _ (tmp file content : Text) (files : Text → Option Text) where
  abbrev moved : Text → Option Text
  moved = rename_file tmp file (write_file tmp (some content) files)

  file_moved : moved file ≡ some content
  file_moved = elim (Bool-cases (text_eq tmp file)) [
    | inl e ↦ ground (arith, e, text_eq_iff tmp file, text_eq_iff file tmp)
    | inr n ↦ ground (arith, n, text_eq_refl file, text_eq_refl tmp)
  ]

  tmp_gone : text_eq tmp file ≡ false → moved tmp ≡ none
  tmp_gone n = ground (arith, n, text_eq_refl tmp)

  others_kept : (f : Text) → text_eq f tmp ≡ false → text_eq f file ≡ false → moved f ≡ files f
  others_kept f n m = ground (arith, n, m)

module _ {T S : Type 0} (env : Env T S) where
  -- If both files can be written, `update_savedata_file` leaves the state of toxcore in the save
  -- file, the temporary file gone unless it is the same, and the other files and the store as they
  -- were.
  pub update_savedata_file_lem :
      (w : World T S)
      → w.writable env.conf.save_data_tmp_file ≡ true
      → w.writable env.conf.save_data_file ≡ true
      → Returns
          (λ _ w'.
            (w'.files env.conf.save_data_file ≡ some (env.tox.get_savedata w.network))
            × (text_eq env.conf.save_data_tmp_file env.conf.save_data_file ≡ false
                → w'.files env.conf.save_data_tmp_file ≡ none)
            × ((f : Text)
                → text_eq f env.conf.save_data_tmp_file ≡ false
                → text_eq f env.conf.save_data_file ≡ false
                → w'.files f ≡ w.files f)
            × (w'.store ≡ w.store))
          (update_savedata_file env w)
  unfolding update_savedata_file
  update_savedata_file_lem w t o =
      rw (t, o)
        (returns (
          file_moved env.conf.save_data_tmp_file env.conf.save_data_file
              (env.tox.get_savedata w.network) w.files,
          tmp_gone env.conf.save_data_tmp_file env.conf.save_data_file
              (env.tox.get_savedata w.network) w.files,
          others_kept env.conf.save_data_tmp_file env.conf.save_data_file
              (env.tox.get_savedata w.network) w.files,
          refl,
        ))
