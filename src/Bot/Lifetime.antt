-- ===== src/Bot/Lifetime.antt =====
-- Every state of the process from its start on, where the loop of `main` calls back in any order.
use find_friend_bot.Base.{◌≡◌, sym, subst, Bool, true, Option, Text, ok, Returns-both, ended}
use find_friend_bot.MemberModel.Writes.{Table, registered, Confined}
use find_friend_bot.MemberModel.{Store}
use find_friend_bot.MemberMgr.View.{view}
use find_friend_bot.Map.{find}
use find_friend_bot.Sql.Healthy.{Healthy}
use find_friend_bot.World.{Env, World}
use find_friend_bot.Assisant.Directory.{directory}
use find_friend_bot.Assisant.Frame.{Keyed}
use find_friend_bot.Assisant.Running.{Moment, InBounds, handle}
use find_friend_bot.Assisant.Running.Serving.{handle-IsUp}
use find_friend_bot.Assisant.Upkeep.{IsUp, Formats, elsewhere}
use find_friend_bot.Assisant.Agreement.{Agrees}
use find_friend_bot.Assisant.Agreement.Steps.{IsFirst}
use find_friend_bot.Assisant.Records.{Storable, HexKeys}
use find_friend_bot.Assisant.Agreement.Runs.{InStep, handle-InStep}
use find_friend_bot.Bot.{Boot, process, start}
use find_friend_bot.Bot.Startup.{NodesFit, process-IsUp, start-IsUp}

module _ {T S : Type 0} (env : Env T S) (boot : Boot T) (key : Text) (files : Text → Option Text)
    (writable : Text → Bool) (server : S) where
  -- What toxcore and the rest of the system did before a callback.
  abbrev pub moved : Moment T → World T S → World T S
  moved e w = record w { network = e.network w.network; files = e.disk w.files }

  -- The states after the start, and after each callback, as long as no friend with the key sends
  -- `/start` while a member with the key is online, and what the callbacks write fits.
  pub data Reach : World T S → Type 0 where
    started :
        {w : World T S}
        → start env boot (process env boot files writable server) ≡ ok tt w
        → Reach w
    called :
        {w w' : World T S}
        → Reach w
        → (e : Moment T) → InBounds e.event
        → Storable env (moved e w) e.event
        → IsFirst env (moved e w) e.event key (directory env w)
        → handle env e.event (moved e w) ≡ ok tt w'
        → Reach w'

  module _ {rows : S → Table} (h : Healthy env.sql rows) (confined : Confined env.sql rows)
      (shows : Formats env) (keys : HexKeys env) (keyed : (s : S) → Keyed (registered rows s))
      (opens : writable env.conf.save_data_tmp_file ≡ true) (fit : NodesFit env boot files) where
    at_start :
        (s : Store S)
        → (process env boot files writable server).store ≡ s
        → Agrees key (view s.member_mgr) (registered rows s.db.server)
    unfolding process find
    at_start s same =
        subst (λ z. Agrees key (view z.member_mgr) (registered rows z.db.server)) same tt

    started-InStep :
        {w : World T S}
        → start env boot (process env boot files writable server) ≡ ok tt w
        → IsUp env w × InStep env h confined shows keys key w
    unfolding process
    started-InStep {w} e =
        let (up, same) =
          ended
            (start-IsUp env boot (process env boot files writable server) fit
              (process-IsUp env boot files writable server opens))
            e in
        (up, at_start w.store (sym same))

    -- In every state that the process can get into, from its start on and through any callbacks
    -- whose requests for chunks end in 64 bits and whose values fit into the table, the process is
    -- up, and for a key either nobody is online or there is a row that shows the same as the member
    -- online up to NULs, as long as no friend with this key sends `/start` while online: if the
    -- temporary file can be opened, the file of nodes is missing or has a NUL behind nodes that can
    -- be parsed, the database is up, finds each row with such a key by it and leaves the rows with
    -- other keys alone, the keys of friends consist of digits and upper case letters, the two
    -- formats fit, and the filter of the log is above `debug`.
    pub Reach-InStep :
        {w : World T S} → Reach w → IsUp env w × InStep env h confined shows keys key w
    Reach-InStep (started e) = started-InStep e
    Reach-InStep (called {w} r e bounds fit first ran) =
        let (up, old) = Reach-InStep r in
        let up' = elsewhere env up _ _ _ in
        ended
          (Returns-both (handle-IsUp env h shows e.event (moved e w) bounds up') (
            handle-InStep env h confined shows keys keyed e.event (moved e w) key bounds fit first
              up' old))
          ran
