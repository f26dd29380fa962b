-- ===== src/World.antt =====
-- The process: its globals, the disk, and what is around it.
use find_friend_bot.Base.{◌≡◌, ℕ, Bool, Option, List, Text, ok, Cmd, on_part}
use find_friend_bot.LockedQueue.{Locking}
use find_friend_bot.Sql.{Sql}
use find_friend_bot.MemberModel.{Store}
use find_friend_bot.Conf.{Conf}
use find_friend_bot.Toolkit.{Tox, Boost, Sodium}

-- What does not change once the process runs.
pub record Env (T S : Type 0) : Type 0 where
  pub tox : Tox T
  pub boost : Boost
  pub sodium : Sodium
  pub sql : Sql S
  pub locking : Locking
  pub conf : Conf

pub record World (T S : Type 0) : Type 0 where
  pub store : Store S
  pub network : T
  -- the files by name, and the names that can be opened for writing
  pub files : Text → Option Text
  pub writable : Text → Bool
  -- `avatar_data`, null if `none`, and `avatar_data_size`
  pub avatar_data : Option Text
  pub avatar_data_size : ℕ
  -- the messages that were handed to toxcore and queued, the latest first
  pub sent : List (ℕ × Text)

-- What a command leaves alone: the disk, the avatar, and the messages.
abbrev pub SameOutside : {T S : Type 0} → World T S → World T S → Type 0
SameOutside w w' =
    (w'.files ≡ w.files)
    × (w'.writable ≡ w.writable)
    × (w'.avatar_data ≡ w.avatar_data)
    × (w'.avatar_data_size ≡ w.avatar_data_size)
    × (w'.sent ≡ w.sent)

module _ {T S : Type 0} where
  abbrev pub on_store : {A : Type 0} → Cmd (Store S) A → Cmd (World T S) A
  on_store = on_part (λ w. w.store) (λ s w. record w { store = s })

  -- A question to toxcore, and a call that changes its state.
  abbrev pub ask_tox : {A : Type 0} → (T → A) → Cmd (World T S) A
  ask_tox f w = ok (f w.network) w

  abbrev pub call_tox : {A : Type 0} → (T → A × T) → Cmd (World T S) A
  call_tox f w = ok (f w.network).0 (record w { network = (f w.network).1 })

  abbrev pub tell_tox : (T → T) → Cmd (World T S) (Unit {0})
  tell_tox f w = ok tt (record w { network = f w.network })
