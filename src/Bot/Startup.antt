-- ===== src/Bot/Startup.antt =====
-- The process from its start: what `main` leaves, and every callback after it.
use find_friend_bot.Base.{
  ℕ, ◌≡◌, refl, Bool, true, false, Option, none, some, List, [], ◌∷◌, Text, c_str, has_byte, length,
  take, ok, fault, Run, Returns, out_of_range, null_pointer, ◌>>◌, returns, Returns-bind, arith,
  ◌⊎◌, inl, inr, ◌%◌, ◌^◌,
}
use find_friend_bot.Map.{find}
use find_friend_bot.MemberMgr.Invariant.{IsValid}
use find_friend_bot.Member.{Member}
use find_friend_bot.LockedQueue.{empty_pool}
use find_friend_bot.Sql.{Row}
use find_friend_bot.Sql.Healthy.{Healthy}
use find_friend_bot.World.{Env, World}
use find_friend_bot.Assisant.Files.{get_data, update_savedata_file}
use find_friend_bot.Assisant.Upkeep.{IsUp, StaysUp, Formats, elsewhere}
use find_friend_bot.Assisant.Running.{Moment, AllInBounds, run}
use find_friend_bot.Assisant.Running.Serving.{run-IsUp}
use find_friend_bot.Bot.{
  Boot, DhtNode, bootstrap, bootstrap_each, bootstrap_from, text_of_buffer, set_name,
  set_status_message, process, start,
}

-- No member is online, and no object is alive.
nobody-IsValid : IsValid [] (record { online_member = []; free_list = empty_pool Member })
unfolding find
nobody-IsValid = record {
  owned = record {
    one_owner = λ q. ground arith;
    null_dead = refl;
    fresh = λ q h. refl;
    started = omega arith;
    lock_free = refl;
    bounded = omega arith;
  };
  sorted = tt;
  keyed = λ pk q e. absurd (ground arith);
}

module _ {T S : Type 0} (env : Env T S) (boot : Boot T) where
  pub process-IsUp :
      (files : Text → Option Text) (writable : Text → Bool) (server : S)
      → writable env.conf.save_data_tmp_file ≡ true
      → IsUp env (process env boot files writable server)
  unfolding process
  process-IsUp files writable server opens = record {
    loose = [];
    running = record {
      ready = record { set_up = refl; lock_free = refl; no_null = tt; bounded = omega arith };
      valid = nobody-IsValid;
    };
    tmp_opens = opens;
    avatar = refl;
  }

  -- The file of nodes cannot be opened, or it has a NUL, and what stands before it is JSON.
  abbrev pub NodesFit : (Text → Option Text) → Type 0
  NodesFit files =
      (files env.conf.nodes_file_name ≡ none)
      ⊎ ((content : Text) × (nodes : List DhtNode) × (files env.conf.nodes_file_name ≡ some content)
          × (has_byte 0 (take (length content % 2 ^ 32) content) ≡ true)
          × (boot.parse_nodes
                (take (length content % 2 ^ 32) (c_str (take (length content % 2 ^ 32) content)))
              ≡ some nodes))

  -- The run ends in a state that is up, and does not touch the pools.
  abbrev pub UpWithStore : World T S → Run (World T S) (Unit {0}) → Type 0
  UpWithStore w = Returns (λ _ w'. IsUp env w' × (w'.store ≡ w.store))

  bootstrap_each-IsUp :
      (nodes : List DhtNode) (w : World T S)
      → IsUp env w
      → UpWithStore w (bootstrap_each env boot nodes w)
  unfolding bootstrap_each
  bootstrap_each-IsUp [] w up = returns (up, refl)
  bootstrap_each-IsUp (node ∷ nodes) w up = bootstrap_each-IsUp nodes _ (elsewhere env up _ _ _)

  get_data_read :
      (name content : Text) (size : ℕ) (w : World T S)
      → w.files name ≡ some content
      → get_data name size w
        ≡ ok (some (take (length content % 2 ^ 32) content), length content % 2 ^ 32) w
  unfolding get_data
  get_data_read name content size w e = rw (get_data, e) refl

  get_data_missing :
      (name : Text) (size : ℕ) (w : World T S)
      → w.files name ≡ none
      → get_data name size w ≡ ok (none, size) w
  unfolding get_data
  get_data_missing name size w e = rw (get_data, e) refl

  bootstrap-IsUp :
      (w : World T S) → NodesFit w.files → IsUp env w → UpWithStore w (bootstrap env boot w)
  unfolding bootstrap bootstrap_from text_of_buffer
  bootstrap-IsUp w (inl e) up =
      rw (bootstrap, get_data_missing env.conf.nodes_file_name 0 w e) (returns (up, refl))
  bootstrap-IsUp w (inr (content, nodes, e, nul, parsed)) up =
      rw
        (
          bootstrap,
          get_data_read env.conf.nodes_file_name content 0 w e,
          bootstrap_from,
          text_of_buffer,
          nul,
          parsed,
        )
        (bootstrap_each-IsUp nodes w up)

  -- If the file of nodes can be opened and has no NUL, `bootstrap` reads beyond the end of its
  -- buffer.
  pub bootstrap_overrun :
      (content : Text) (w : World T S)
      → w.files env.conf.nodes_file_name ≡ some content
      → has_byte 0 (take (length content % 2 ^ 32) content) ≡ false
      → bootstrap env boot w ≡ fault out_of_range
  unfolding bootstrap bootstrap_from text_of_buffer
  bootstrap_overrun content w e no_nul =
      rw
        (
          bootstrap,
          get_data_read env.conf.nodes_file_name content 0 w e,
          bootstrap_from,
          text_of_buffer,
          no_nul,
        )
        refl

  -- Without a file of nodes, and with a temporary file that cannot be opened, `main` writes through a
  -- null pointer.
  pub start_shut :
      (w : World T S)
      → w.files env.conf.nodes_file_name ≡ none
      → w.writable env.conf.save_data_tmp_file ≡ false
      → start env boot w ≡ fault null_pointer
  unfolding start bootstrap bootstrap_from set_name set_status_message update_savedata_file
  start_shut w e shut =
      rw (start, bootstrap, get_data_missing env.conf.nodes_file_name 0 w e, bootstrap_from, shut)
        refl

  saved :
      (w w1 : World T S)
      → w1.store ≡ w.store
      → IsUp env w1
      → UpWithStore w (update_savedata_file env w1)
  unfolding update_savedata_file
  saved w w1 same up1 = rw up1.tmp_opens (returns (elsewhere env up1 _ _ _, same))

  pub start-IsUp :
      (w : World T S) → NodesFit w.files → IsUp env w → UpWithStore w (start env boot w)
  unfolding start set_name set_status_message
  start-IsUp w fit up =
      Returns-bind (bootstrap-IsUp w fit up)
        λ _ w' (up', same). saved w _ same (elsewhere env up' _ _ _)

  -- From the start of the process on no callback faults, and the process stays up: if the temporary
  -- file can be opened, the file of nodes is missing or has a NUL behind nodes that can be parsed,
  -- the database is up, the two formats fit, the filter of the log is above `debug`,
  -- and no request for a chunk ends beyond 64 bits.
  pub main-IsUp :
      {rows : S → Text → Option Row}
      → Healthy env.sql rows
      → Formats env
      → (files : Text → Option Text) (writable : Text → Bool) (server : S)
        (moments : List (Moment T))
      → writable env.conf.save_data_tmp_file ≡ true
      → NodesFit files
      → AllInBounds moments
      → StaysUp env ((start env boot >> run env moments) (process env boot files writable server))
  unfolding process
  main-IsUp h shows files writable server moments opens fit bounds =
      Returns-bind (start-IsUp _ fit (process-IsUp files writable server opens))
        λ _ w (up, _). run-IsUp env h shows moments w bounds up
