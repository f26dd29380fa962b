-- ===== src/Bot/Durability.antt =====
-- A process that is killed at any time and started again, on the same database.
use find_friend_bot.Base.{
  ℕ, ◌≡◌, sym, ap, ◌∙◌, subst, Bool, true, List, [], ◌∷◌, none, some, Option, Text, Returns,
  Returns-both, Returns-bind, Returns-mono, ◌>>◌,
}
use find_friend_bot.Map.{find}
use find_friend_bot.Member.{Member}
use find_friend_bot.MemberMgr.View.{view}
use find_friend_bot.MemberModel.Writes.{Table, registered, Confined}
use find_friend_bot.Sql.Healthy.{Healthy}
use find_friend_bot.World.{Env, World}
use find_friend_bot.Assisant.Directory.{directory}
use find_friend_bot.Assisant.Frame.{Keyed, AllElsewhere, run-Spares_at}
use find_friend_bot.Assisant.Running.{Moment, AllInBounds, run}
use find_friend_bot.Assisant.Running.Serving.{run-IsUp}
use find_friend_bot.Assisant.Upkeep.{IsUp, Formats}
use find_friend_bot.Assisant.Agreement.{Matches, kept}
use find_friend_bot.Assisant.Records.{AllStorable, HexKeys, table}
use find_friend_bot.Assisant.Persistence.{found, run_unwritten, returning, Returning, comes_back}
use find_friend_bot.Bot.{Boot, process, start}
use find_friend_bot.Bot.Startup.{NodesFit, process-IsUp, start-IsUp}
use find_friend_bot.Bot.Lifetime.{Reach, Reach-InStep}

module _ {T S : Type 0} (env : Env T S) (boot : Boot T) {rows : S → Table}
    (h : Healthy env.sql rows) (confined : Confined env.sql rows) (shows : Formats env)
    (keys : HexKeys env) (keyed : (s : S) → Keyed (registered rows s)) where
  -- A new process has the table, and nobody online.
  started_anew :
      (files : Text → Option Text) (writable : Text → Bool) (server : S) (pk : Text)
      → writable env.conf.save_data_tmp_file ≡ true
      → NodesFit env boot files
      → Returns
          (λ _ w.
            IsUp env w
            × (directory env w pk ≡ none)
            × (table rows w pk ≡ registered rows server pk))
          (start env boot (process env boot files writable server))
  unfolding process find
  started_anew files writable server pk opens fit =
      Returns-mono
        (start-IsUp env boot (process env boot files writable server) fit
          (process-IsUp env boot files writable server opens))
        λ _ w (up, same).
          (up, ap (λ s. view s.member_mgr pk) same, ap (λ s. registered rows s.db.server pk) same)

  module _ (pk : Text) (n : ℕ) where
    -- If the process is killed in a state that it can get into, in which a member is online with a
    -- key, and is started again on the same database and any disk, and the friend with this key
    -- comes online after any callbacks that are not about a friend with this key, then the member
    -- online shows what it showed before, up to NULs: if no friend with this key has sent `/start`
    -- while online, what the callbacks write fits into the table, both starts can open the
    -- temporary file and find a file of nodes that is missing or has a NUL behind nodes that can be
    -- parsed, the database is up, finds each row with such a key by it and leaves the rows with
    -- other keys alone, the keys of friends consist of digits and upper case letters, the two
    -- formats fit, the filter of the log is above `debug`, and requests for chunks end in 64 bits.
    pub restart-online :
        (files files' : Text → Option Text) (writable writable' : Text → Bool) (server : S)
        (w : World T S) (a : Member) (moments : List (Moment T)) (network : T → T)
        (disk : (Text → Option Text) → Text → Option Text)
        → writable env.conf.save_data_tmp_file ≡ true
        → NodesFit env boot files
        → Reach env boot pk files writable server w
        → directory env w pk ≡ some a
        → writable' env.conf.save_data_tmp_file ≡ true
        → NodesFit env boot files'
        → AllInBounds moments
        → AllElsewhere env pk moments
        → AllStorable env moments
        → Returning env h confined shows keys pk keyed n network
        → Returns
            (λ _ w'. (b : Member) × (directory env w' pk ≡ some b) × (kept b ≡ kept a))
            ((start env boot
                >> (run env moments
                    >> run env (returning env h confined shows keys pk keyed n network disk ∷ [])))
              (process env boot files' writable' w.store.db.server))
    restart-online files files' writable writable' server w a moments network disk opens fit reach
          there opens' fit' b other storable back =
        let (_, in_step) =
          Reach-InStep env boot pk files writable server h confined shows keys keyed opens fit
            reach in
        Returns-bind (started_anew files' writable' w.store.db.server pk opens' fit')
          λ _ w1 (up1, gone, same).
            Returns-bind
              (Returns-both (run-IsUp env h shows moments w1 b up1) (
                Returns-both
                  (run-Spares_at env pk h shows (found env h confined shows keys pk keyed) moments
                    w1 b other up1)
                  (run_unwritten env h confined shows keys pk moments w1 b other storable up1)))
              λ _ w2 (up2, (still_gone, kept_row)).
                comes_back env h confined shows keys pk keyed n network disk w2 a back up2
                  (still_gone ∙ gone)
                  (subst (Matches (some a)) (sym (kept_row ∙ same)) (rw there at in_step))
