-- ===== src/Assisant/Outage.antt =====
-- The callbacks where the database cannot be reached.
pub mod Callbacks
pub mod Commands
use find_friend_bot.Base.{
  ℕ, ◌≡◌, refl, Bool, true, false, ◌&&◌, and_then, [], ◌∷◌, Option, none, some, is_some, Text,
  codes, text_eq, Run, Cmd, fault, null_pointer, Returns, Returns-bind, if◌then◌else◌,
}
use find_friend_bot.World.{Env, World}
use find_friend_bot.Assisant.Parser.{parse_msg}
use find_friend_bot.Assisant.Callbacks.{connection_none, connection_tcp, connection_udp}
use find_friend_bot.Assisant.Upkeep.{IsUp}
use find_friend_bot.Assisant.Directory.{card}
use find_friend_bot.Assisant.Running.{Event, connection, message, name, status_message}

-- A text that is not empty.
abbrev given : Text → Bool
given [] = false
given (c ∷ cs) = true

-- Whether a command, in lower case, has a query. `tok_id` is the parameter in upper case.
abbrev pub writes : (cmd tok_id param : Text) (known : Bool) → Bool
writes cmd tok_id param known =
    if text_eq (codes "start") cmd
    then given tok_id && known
    else if text_eq (codes "stop") cmd
    then true
    else if text_eq (codes "set") cmd
    then given param
    else false

module _ {T S : Type 0} (env : Env T S) where
  -- A run with a query ends in a null pointer; one without ends up, and leaves the database alone.
  abbrev pub Outcome : {A : Type 0} → World T S → Bool → Run (World T S) A → Type 0
  Outcome w true r = r ≡ fault null_pointer
  Outcome w false r = Returns (λ _ w'. IsUp env w' × (w'.store.db ≡ w.store.db)) r

  abbrev asks : ℕ → World T S → Option (Text × Text) → Bool
  asks friend_number w none = false
  asks friend_number w (some (cmd, param)) =
      writes (env.boost.to_lower cmd) (env.boost.to_upper param) param
        (is_some (card env friend_number w))

  -- Whether a callback has a query.
  abbrev pub queries : World T S → Event → Bool
  queries w (connection friend_number connection_none) = false
  queries w (connection friend_number connection_tcp) = true
  queries w (connection friend_number connection_udp) = true
  queries w (message friend_number text) = asks friend_number w (parse_msg text ([], []))
  queries w (name friend_number text) = true
  queries w (status_message friend_number text) = true
  queries w _ = false

  Outcome-if :
      {A : Type 0} (b : Bool) (p q : Bool) (w : World T S) (x y : Cmd (World T S) A)
      → Outcome w p (x w)
      → Outcome w q (y w)
      → Outcome w (if b then p else q) ((if b then x else y) w)
  Outcome-if true p q w x y h k = h
  Outcome-if false p q w x y h k = k

  -- Both branches are without a query.
  Outcome-same :
      {A : Type 0} (b : Bool) (w : World T S) (x y : Cmd (World T S) A)
      → Outcome w false (x w)
      → Outcome w false (y w)
      → Outcome w false ((if b then x else y) w)
  Outcome-same true w x y h k = h
  Outcome-same false w x y h k = k

  Outcome-bind :
      {A B : Type 0} (b : Bool) (w : World T S) (r : Run (World T S) A) (k : A → Cmd (World T S) B)
      → Outcome w b r
      → ((a : A) (w1 : World T S)
          → IsUp env w1
          → w1.store.db ≡ w.store.db
          → Outcome w false (k a w1))
      → Outcome w b (and_then r k)
  Outcome-bind true w r k e next = rw e refl
  Outcome-bind false w r k h next = Returns-bind h λ a w1 (up1, same). next a w1 up1 same
