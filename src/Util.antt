-- ===== src/Util.antt =====
-- src/Util.h and src/Util.cpp.
use find_friend_bot.Base.{ℕ, ◌-◌, ◌%◌, ◌^◌, none, some, Text, Cmd, pure, ◌>>=◌}
use find_friend_bot.World.{Env, World, ask_tox}

module _ {T S : Type 0} (env : Env T S) where
  -- The result of `tox_friend_get_public_key` is only logged: if it fails, the text is that of
  -- whatever the buffer held.
  unfoldable pub get_pk_by_id : ℕ → Cmd (World T S) Text
  get_pk_by_id friend_id = do
    (ret, from_pk) ← ask_tox (env.tox.friend_get_public_key friend_id)
    pure (env.boost.to_upper (env.sodium.bin2hex from_pk))

  -- The bit pattern of the `int`; that of -1 if the friend is not known.
  unfoldable pub get_id_by_pk : Text → Cmd (World T S) ℕ
  get_id_by_pk pk = do
    id ← ask_tox (env.tox.friend_by_public_key (env.sodium.hex2bin pk))
    pure (elim id [ none ↦ 2 ^ 32 - 1 | some n ↦ n % 2 ^ 32 ])
