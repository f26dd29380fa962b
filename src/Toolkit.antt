-- ===== src/Toolkit.antt =====
-- The other libraries that the program calls: toxcore, Boost.StringAlgorithms and Boost.Format,
-- libsodium, and the C library's clock and generator. They are parameters.
use find_friend_bot.Base.{ℕ, Bool, Option, List, Text}

-- toxcore. `T` is its state, and that of the C library's generator. A friend is a number.
pub record Tox (T : Type 0) : Type 0 where
  -- whether the call succeeds, and the 32 bytes of the buffer behind it
  pub friend_get_public_key : ℕ → T → Bool × Text
  pub friend_by_public_key : Text → T → Option ℕ
  -- `none` is an error; no more than the size that was reported is written into a buffer
  pub friend_get_name_size : ℕ → T → Option ℕ
  pub friend_get_name : ℕ → T → Option Text
  pub friend_get_status_message_size : ℕ → T → Option ℕ
  pub friend_get_status_message : ℕ → T → Option Text
  -- whether the message was queued
  pub friend_send_message : ℕ → Text → T → Bool × T
  pub friend_add_norequest : Text → T → T
  -- a timer of so many seconds, for a friend, with the value of its heap cell
  pub add_timer_event : ℕ → ℕ → ℕ → T → T
  pub hash : Text → Text
  -- the avatar's size, its hash and its file name
  pub file_send : ℕ → ℕ → Text → Text → T → Bool × T
  -- the file, the position and the bytes
  pub file_send_chunk : ℕ → ℕ → ℕ → Text → T → Bool × T
  pub get_savedata : T → Text
  -- `tox_unixtime()` and `rand()`
  pub unixtime : T → ℕ
  pub rand : T → ℕ × T

-- Boost's algorithms on strings. `none` is an exception of Boost.Format.
pub record Boost : Type 0 where
  pub to_lower : Text → Text
  pub to_upper : Text → Text
  -- every occurrence of the second text by the third
  pub replace_all : Text → Text → Text → Text
  pub format : Text → List Text → Option Text

-- `sodium_bin2hex` and `sodium_hex2bin`
pub record Sodium : Type 0 where
  pub bin2hex : Text → Text
  pub hex2bin : Text → Text
