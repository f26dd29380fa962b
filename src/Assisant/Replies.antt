-- ===== src/Assisant/Replies.antt =====
-- What the bot answers to a message: an account of the replies by command, from who is online, from
-- the row of the user and from what toxcore knows of the user.
pub mod Answered
use find_friend_bot.Base.{
  ℕ, ◌≡◌, true, false, [], ◌∷◌, Option, none, some, Text, codes, text_eq, c_str, is_some, ◌⊎◌,
  if◌then◌else◌,
}
use find_friend_bot.Member.{Member}
use find_friend_bot.MemberMgr.View.{view}
use find_friend_bot.Sql.{Row}
use find_friend_bot.World.{Env, World}
use find_friend_bot.Assisant.Commands.{Reply, lines}
use find_friend_bot.Assisant.Start.{key_of}
use find_friend_bot.Assisant.Info.{card_of}
use find_friend_bot.Assisant.Info
use find_friend_bot.Assisant.CachedView.{Directory}
use find_friend_bot.Assisant.Directory.{card}

-- What a user can ask for.
pub data Command : Type 0 where
  start stop set get info help readme unknown : Command

-- The command with a name in lower case.
abbrev pub command_of : Text → Command
command_of cmd =
    if text_eq (codes "start") cmd
    then start
    else if text_eq (codes "stop") cmd
    then stop
    else if text_eq (codes "set") cmd
    then set
    else if text_eq (codes "get") cmd
    then get
    else if text_eq (codes "info") cmd
    then info
    else if text_eq (codes "help") cmd
    then help
    else if text_eq (codes "readme") cmd
    then readme
    else unknown

-- Nobody but `key` is in the directory.
abbrev pub Alone : Text → Directory → Type 0
Alone key d = (pk : Text) → text_eq key pk ≡ false → d pk ≡ none

-- Somebody else is in the directory, with these values.
abbrev pub Other : Text → Directory → Member → Type 0
Other key d a = (pk : Text) × (text_eq key pk ≡ false) × (d pk ≡ some a)

module _ {T S : Type 0} (env : Env T S) where
  -- With no id the user is told so; there is no reply to who is not known to toxcore.
  abbrev pub StartReply : Text → Option (Text × Text) → Reply → Type 0
  StartReply [] card reply = reply ≡ (true, env.conf.desc_start_non_tok)
  StartReply (c ∷ cs) none reply = reply.0 ≡ false
  StartReply (c ∷ cs) (some _) reply = reply ≡ (true, env.conf.desc_start)

  -- A signature that is there already may go without a reply too.
  abbrev pub SetReply : Text → Option Row → Reply → Type 0
  SetReply [] row reply = reply ≡ (true, env.conf.desc_set_non_tok)
  SetReply (c ∷ cs) row reply = (reply.1 ≡ env.conf.desc_set) × (row ≡ none → reply.0 ≡ false)

  abbrev pub GetReply : Text → Directory → Reply → Type 0
  GetReply key d reply =
      (reply.0 ≡ true)
      × (((reply.1 ≡ env.conf.desc_get_none) × Alone key d)
          ⊎ ((a : Member) × Other key d a
              × (env.boost.format env.conf.desc_get
                    (a.nick_name ∷ a.bio ∷ a.signature ∷ a.tok_id ∷ [])
                  ≡ some reply.1)))

  module _ (rows : S → Text → Option Row) (friend_number : ℕ) where
    -- The replies to a command with its parameter, and the parameter in upper case.
    abbrev pub Replied : Command → (tok_id param : Text) → World T S → Reply → Type 0
    Replied start tok_id param w = StartReply tok_id (card env friend_number w)
    Replied stop tok_id param w = λ reply. reply ≡ (
      is_some (rows w.store.db.server (c_str (key_of env friend_number w))),
      env.conf.desc_stop,
    )
    Replied set tok_id param w =
        SetReply param (rows w.store.db.server (c_str (key_of env friend_number w)))
    Replied get tok_id param w = GetReply (key_of env friend_number w) (view w.store.member_mgr)
    Replied info tok_id param w = λ reply.
        (reply.0 ≡ true)
        × Info.Shows env friend_number env.conf.desc_unknown_cmd w
            (card_of env friend_number env.conf.desc_unknown_cmd w
              (view w.store.member_mgr (key_of env friend_number w)))
            reply.1
    Replied help tok_id param w = λ reply. reply ≡ (true, env.conf.desc_help)
    Replied readme tok_id param w = λ reply. reply ≡ (true, env.conf.desc_readme)
    Replied unknown tok_id param w = λ reply. reply ≡ (true, env.conf.desc_unknown_cmd)

  -- The reply was handed to toxcore, which queued it or did not.
  abbrev pub Delivered : ℕ → World T S → World T S → Reply → Type 0
  Delivered friend_number w w' (false, msg) = w'.sent ≡ w.sent
  Delivered friend_number w w' (true, msg) =
      (t : T) × (w'.sent ≡ (
        if (env.tox.friend_send_message friend_number (lines env msg) t).0
        then (friend_number, lines env msg) ∷ w.sent
        else w.sent))
