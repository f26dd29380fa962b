-- ===== src/Assisant/Records.antt =====
-- What the commands and the callbacks mean for the table of the database: a map from keys to rows.
pub mod Commands
pub mod Writes
use mathlib.Core.Option
use find_friend_bot.Base.{
  List, ℕ, ◌≡◌, refl, has_byte, c_str_id, arith, true, false, [], ◌∷◌, Option, none, some, Text,
  codes, c_str, text_eq, if◌then◌else◌,
}
use find_friend_bot.Sql.{
  Row, fits, is_key, replace_into, set_signature_where, set_bio_where, set_nick_name_where,
}
use find_friend_bot.Sql.Healthy.{signed, with_bio, with_nick_name}
use find_friend_bot.MemberModel.Writes.{Table, put_row, registered}
use find_friend_bot.World.{Env, World}
use find_friend_bot.Assisant.Parser.{parse_msg}
use find_friend_bot.Assisant.Start.{key_of, started_row}
use find_friend_bot.Assisant.Directory.{card}
use find_friend_bot.Assisant.Running.{Moment, Event, message, name, status_message}

-- The rows of the database of a process, by the keys that the bot writes.
abbrev pub table : {T S : Type 0} → (S → Table) → World T S → Table
table rows w = registered rows w.store.db.server

-- The row with a key is changed, if there is one.
abbrev pub altered : (Row → Row) → Text → Table → Table
altered change pk t = put_row pk (Option.map change (t pk)) t

no_nul : (s : Text) → is_key s ≡ true → has_byte 0 s ≡ false
no_nul [] e = refl
no_nul (c ∷ cs) e = ground (arith, no_nul cs)

pub is_key-c_str : (s : Text) → is_key s ≡ true → c_str s ≡ s
is_key-c_str s e = c_str_id s (no_nul s e)

module _ {T S : Type 0} (env : Env T S) where
  -- `/start`: the row is written, also where there is one; its signature is empty then.
  abbrev pub enrolled : Text → Text → Option (Text × Text) → ℕ → Table → Table
  enrolled key [] card now t = t
  enrolled key (c ∷ cs) none now t = t
  enrolled key (c ∷ cs) (some (nick_name, bio)) now t =
      put_row (c_str key) (some (started_row env (c ∷ cs) key nick_name bio now)) t

  abbrev pub resigned : Text → Text → ℕ → Table → Table
  resigned key [] now t = t
  resigned key (c ∷ cs) now t = altered (signed (c_str (c ∷ cs)) now) (c_str key) t

  -- A user's command, in lower case, with the id in upper case.
  abbrev pub noted : Text → (tok_id param key : Text) → Option (Text × Text) → ℕ → Table → Table
  noted cmd tok_id param key card now t =
      if text_eq (codes "start") cmd
      then enrolled key tok_id card now t
      else if text_eq (codes "stop") cmd
      then put_row (c_str key) none t
      else if text_eq (codes "set") cmd
      then resigned key param now t
      else t

  abbrev told : ℕ → World T S → Option (Text × Text) → Table → Table
  told friend_number w none t = t
  told friend_number w (some (cmd, param)) t =
      noted (env.boost.to_lower cmd) (env.boost.to_upper param) param (key_of env friend_number w)
        (card env friend_number w) (env.tox.unixtime w.network) t

  -- The row that `/start` writes fits into the table, if there is one.
  abbrev pub StartFits : Text → Text → Option (Text × Text) → ℕ → Type 0
  StartFits key [] card now = Unit {0}
  StartFits key (c ∷ cs) none now = Unit {0}
  StartFits key (c ∷ cs) (some (nick_name, bio)) now =
      fits (replace_into (c_str (c ∷ cs)) (c_str key) (c_str nick_name) (c_str bio) now now) ≡ true

  abbrev pub SetFits : Text → Text → ℕ → Type 0
  SetFits key param now = fits (set_signature_where (c_str param) now (c_str key)) ≡ true

  abbrev pub CommandFits : ℕ → World T S → Option (Text × Text) → Type 0
  CommandFits friend_number w none = Unit {0}
  CommandFits friend_number w (some (cmd, param)) =
      (text_eq (codes "start") (env.boost.to_lower cmd) ≡ true
        → StartFits (key_of env friend_number w) (env.boost.to_upper param)
            (card env friend_number w) (env.tox.unixtime w.network))
      × (text_eq (codes "set") (env.boost.to_lower cmd) ≡ true
          → SetFits (key_of env friend_number w) param (env.tox.unixtime w.network))

  -- What a callback writes fits into the table.
  abbrev pub Storable : World T S → Event → Type 0
  Storable w (message friend_number text) = CommandFits friend_number w (parse_msg text ([], []))
  Storable w (name friend_number text) =
      fits (
        set_nick_name_where (c_str (c_str text)) (env.tox.unixtime w.network)
          (c_str (key_of env friend_number w)))
      ≡ true
  Storable w (status_message friend_number text) =
      fits (
        set_bio_where (c_str (c_str text)) (env.tox.unixtime w.network)
          (c_str (key_of env friend_number w)))
      ≡ true
  Storable w _ = Unit {0}

  -- What each of the moments writes fits, whatever state of toxcore it finds.
  abbrev pub AllStorable : List (Moment T) → Type 0
  AllStorable [] = Unit {0}
  AllStorable (e ∷ es) =
      ((w : World T S)
        → Storable (record w { network = e.network w.network; files = e.disk w.files }) e.event)
      × AllStorable es

  -- toxcore, libsodium and Boost give the key of a friend in hexadecimal digits in upper case.
  abbrev pub HexKeys : Type 0
  HexKeys = (n : ℕ) (w : World T S) → is_key (key_of env n w) ≡ true

  pub plain_key : HexKeys → (n : ℕ) (w : World T S) → c_str (key_of env n w) ≡ key_of env n w
  plain_key keys n w = is_key-c_str (key_of env n w) (keys n w)

  pub c_key : HexKeys → (n : ℕ) (w : World T S) → is_key (c_str (key_of env n w)) ≡ true
  c_key keys n w = rw (plain_key keys n w) (keys n w)

  -- What a callback does to the table, by the state that it finds.
  abbrev pub written : World T S → Event → Table → Table
  written w (message friend_number text) t = told friend_number w (parse_msg text ([], [])) t
  written w (name friend_number text) t =
      altered (with_nick_name (c_str (c_str text)) (env.tox.unixtime w.network))
        (c_str (key_of env friend_number w)) t
  written w (status_message friend_number text) t =
      altered (with_bio (c_str (c_str text)) (env.tox.unixtime w.network))
        (c_str (key_of env friend_number w)) t
  written w _ t = t
