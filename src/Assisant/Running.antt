-- ===== src/Assisant/Running.antt =====
-- The bot as toxcore drives it: callback after callback, with toxcore and the disk at work in
-- between.
pub mod Serving
pub mod Steps
use find_friend_bot.Base.{◌>>=◌, ◌>>◌, ℕ, ◌+◌, ◌^◌, ◌<◌, List, [], ◌∷◌, Option, Text, Cmd, ok, pure}
use find_friend_bot.World.{Env, World}
use find_friend_bot.Assisant.Files.{file_chunk_request_cb}
use find_friend_bot.Assisant.Callbacks.{
  Connection, tox_friend_connection_status_callback, friend_request_cb, event_timeout_cb,
  friend_message_cb, friend_name_cb, friend_status_message_cb, file_recv_cb, file_recv_chunk_cb,
}

-- The callbacks with their arguments. A timer comes with the value of its cell; a name and a status
-- message are taken to come with a NUL behind them.
pub data Event : Type 0 where
  connection : ℕ → Connection → Event
  request : Text → Event
  message : ℕ → Text → Event
  name : ℕ → Text → Event
  status_message : ℕ → Text → Event
  chunk : (friend_number file_number position size : ℕ) → Event
  recv : (friend_number file_number kind file_size : ℕ) → Option Text → Event
  recv_chunk : (friend_number file_number position : ℕ) → Text → Event
  timer : (friend_number event_type : ℕ) → Option ℕ → Event

-- A request for a chunk has its end in 64 bits.
abbrev pub InBounds : Event → Type 0
InBounds (chunk friend_number file_number position size) = position + size < 2 ^ 64
InBounds _ = Unit {0}

-- A callback, and what toxcore and the rest of the system did before it to toxcore's state and to
-- the contents of the files.
pub record Moment (T : Type 0) : Type 0 where
  pub network : T → T
  pub disk : (Text → Option Text) → Text → Option Text
  pub event : Event

abbrev pub AllInBounds : {T : Type 0} → List (Moment T) → Type 0
AllInBounds [] = Unit {0}
AllInBounds (e ∷ es) = InBounds e.event × AllInBounds es

module _ {T S : Type 0} (env : Env T S) where
  unfoldable pub handle : Event → Cmd (World T S) (Unit {0})
  unfolding tox_friend_connection_status_callback friend_request_cb friend_message_cb friend_name_cb
      friend_status_message_cb file_chunk_request_cb file_recv_cb file_recv_chunk_cb
      event_timeout_cb
  handle (connection friend_number status) =
      tox_friend_connection_status_callback env friend_number status
  handle (request public_key) = friend_request_cb env public_key
  handle (message friend_number text) = friend_message_cb env friend_number text
  handle (name friend_number text) = friend_name_cb env friend_number text
  handle (status_message friend_number text) = friend_status_message_cb env friend_number text
  handle (chunk friend_number file_number position size) =
      file_chunk_request_cb env friend_number file_number position size
  handle (recv friend_number file_number kind file_size filename) =
      file_recv_cb env friend_number file_number kind file_size filename
  handle (recv_chunk friend_number file_number position bytes) =
      file_recv_chunk_cb env friend_number file_number position bytes
  handle (timer friend_number event_type user_data) = do
    again ← event_timeout_cb env friend_number event_type user_data
    pure tt

  unfoldable pub run : List (Moment T) → Cmd (World T S) (Unit {0})
  unfolding handle
  run [] = pure tt
  run (e ∷ es) = do
    (λ w. ok tt (record w { network = e.network w.network; files = e.disk w.files }))
    handle e.event
    run es
