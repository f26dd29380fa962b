-- ===== src/Assisant/Agreement/Restart.antt =====
-- A second `/start`, with another id, sets the cache and the table apart.
use find_friend_bot.Base.{
  ℕ, ◌≡◌, ◌≢◌, refl, sym, ap, ◌∙◌, ◌∷◌, some, Text, codes, c_str, arith, text_eq, text_eq_refl,
  true, Returns, Returns-mono, Returns-both,
}
use find_friend_bot.Member.{Member}
use find_friend_bot.MemberModel.Writes.{Table, Confined}
use find_friend_bot.Assisant.Records.{table, HexKeys, plain_key, StartFits}
use find_friend_bot.Sql.Healthy.{Healthy}
use find_friend_bot.World.{Env, World}
use find_friend_bot.Assisant.Commands.{process_cmd}
use find_friend_bot.Assisant.Start.{key_of}
use find_friend_bot.Assisant.Directory.{directory, card, process_cmd-directory}
use find_friend_bot.Assisant.Records.Commands.{process_cmd-table}
use find_friend_bot.Assisant.Upkeep.{IsUp, Formats}
use find_friend_bot.Assisant.Agreement.{kept, c_str_twice}
use find_friend_bot.Assisant.Agreement.Runs.{InStep}
use find_friend_bot.MemberModel.Fetch.{member_in}
use find_friend_bot.Assisant.Start.{started_row}

other_word : text_eq (codes "set") (codes "start") ≢ true
unfolding text_eq
other_word e = ground (arith, e)

module _ {T S : Type 0} (env : Env T S) {rows : S → Table} (h : Healthy env.sql rows)
    (confined : Confined env.sql rows) (shows : Formats env) (keys : HexKeys env) where
  -- From a state that is up, `/start` of a user who is online, with an id that is another one up to
  -- NULs, ends without a fault with a row that does not show what the member online shows: if the
  -- database is up and leaves the rows with other keys alone, toxcore knows the name and the status
  -- of the user, the new row fits into the table, the keys of friends consist of digits and upper
  -- case letters, the two formats fit, and the filter of the log is above `debug`.
  pub restart-InStep :
      (n : ℕ) (cmd param : Text) (w : World T S) (c : ℕ) (cs nick_name bio : Text) (a : Member)
      → env.boost.to_lower cmd ≡ codes "start"
      → env.boost.to_upper param ≡ c ∷ cs
      → card env n w ≡ some (nick_name, bio)
      → StartFits env (key_of env n w) (c ∷ cs) (some (nick_name, bio)) (env.tox.unixtime w.network)
      → directory env w (key_of env n w) ≡ some a
      → c_str (c ∷ cs) ≢ c_str a.tok_id
      → IsUp env w
      → Returns
          (λ _ w'. ¬ InStep env h confined shows keys (key_of env n w) w')
          (process_cmd env n cmd param w)
  restart-InStep n cmd param w c cs nick_name bio a is_start id known fit there new up =
      let key = key_of env n w in
      let plain = plain_key env keys n w in
      Returns-mono
        (Returns-both (process_cmd-directory env h shows n cmd param w up) (
          process_cmd-table env h confined shows keys n w up cmd param
            (λ _. rw (id, known) fit, λ set. absurd (other_word (rw is_start at set)))))
        λ _ w' (follows, writes) agree.
          let cached : directory env w' key ≡ some a =
            follows key
            ∙ rw (is_start, id, known, text_eq_refl (codes "start"), text_eq_refl key, there)
                refl in
          let stored : table rows w' key
              ≡ some (started_row env (c ∷ cs) key nick_name bio (env.tox.unixtime w.network)) =
            writes key
            ∙ rw (is_start, id, known, plain, text_eq_refl (codes "start"), text_eq_refl key)
                refl in
          let same : kept (
                member_in (started_row env (c ∷ cs) key nick_name bio (env.tox.unixtime w.network)))
              ≡ kept a =
            rw (cached, stored) at agree in
          new (sym (c_str_twice (c ∷ cs)) ∙ ap (λ x. x.tok_id) same)
