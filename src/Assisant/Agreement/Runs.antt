-- ===== src/Assisant/Agreement/Runs.antt =====
-- The cache and the table agree over any sequence of callbacks.
use find_friend_bot.Base.{
  ℕ, ◌≡◌, ◌≢◌, refl, c_str, List, [], ◌∷◌, Option, none, some, Text, Returns, Returns-mono,
  Returns-bind, Returns-both, returns,
}
use find_friend_bot.MemberModel.Writes.{Table, registered, Confined}
use find_friend_bot.Sql.Healthy.{Healthy}
use find_friend_bot.World.{Env, World}
use find_friend_bot.Assisant.Start.{key_of}
use find_friend_bot.Assisant.Directory.{directory}
use find_friend_bot.Assisant.Events.{connected, effect, handle-Follows}
use find_friend_bot.Assisant.Callbacks.{Connection}
use find_friend_bot.Assisant.CachedView.{Directory}
use find_friend_bot.Assisant.Records.{AllStorable, table, Storable, HexKeys, plain_key, c_key}
use find_friend_bot.Assisant.Frame.{Keyed}
use find_friend_bot.Assisant.Records.Writes.{handle-Writes}
use find_friend_bot.Assisant.Running.{
  Event, connection, request, message, name, status_message, chunk, recv, recv_chunk, timer, Moment,
  InBounds, AllInBounds, handle, run,
}
use find_friend_bot.Assisant.Running.Serving.{handle-IsUp}
use find_friend_bot.Assisant.Upkeep.{IsUp, Formats, elsewhere}
use find_friend_bot.Assisant.Agreement.{Agrees}
use find_friend_bot.Assisant.Agreement.Steps.{IfAny, enrols, IsFirst, effect-Agrees}

module _ {T S : Type 0} (env : Env T S) {rows : S → Table} (h : Healthy env.sql rows)
    (confined : Confined env.sql rows) (shows : Formats env) (keys : HexKeys env) where
  -- The member online with a key and the row with the key show the same.
  abbrev pub InStep : Text → World T S → Type 0
  InStep key w = Agrees key (directory env w) (table rows w)

  connected_registered :
      (status : Connection) (n : ℕ) (w : World T S) (d : Directory) (key : Text)
      → connected status (key_of env n w) (rows w.store.db.server (c_str (key_of env n w))) d key
        ≡ connected status (key_of env n w) (table rows w (c_str (key_of env n w))) d key
  connected_registered status n w d key = rw (c_key env keys n w) refl

  -- Whoever comes online has one of the keys that the bot writes.
  effect_registered :
      (w : World T S) (e : Event) (d : Directory) (key : Text)
      → effect env (rows w.store.db.server) w e d key ≡ effect env (table rows w) w e d key
  effect_registered w (connection n status) d key = connected_registered status n w d key
  effect_registered w (message n text) d key = refl
  effect_registered w (name n text) d key = refl
  effect_registered w (status_message n text) d key = refl
  effect_registered w (request k) d key = refl
  effect_registered w (chunk n f p s) d key = refl
  effect_registered w (recv n f k l path) d key = refl
  effect_registered w (recv_chunk n f p bytes) d key = refl
  effect_registered w (timer n k u) d key = refl

  module _ (keyed : (s : S) → Keyed (registered rows s)) where
    -- From a state that is up: if for a key nobody is online, or there is a row that shows the same
    -- as the member online up to NULs, then so it is after each callback, but for a `/start` of a
    -- friend with this key who is online; provided that the database is up, finds each row by its
    -- own key and leaves the rows with other keys alone, no key of a friend has a NUL, the two
    -- formats fit, and a request for a chunk ends in 64 bits.
    pub handle-InStep :
        (e : Event) (w : World T S) (key : Text)
        → InBounds e
        → Storable env w e
        → IsFirst env w e key (directory env w)
        → IsUp env w
        → InStep key w
        → Returns (λ _ w'. InStep key w') (handle env e w)
    handle-InStep e w key b fit first up old =
        Returns-mono
          (Returns-both (handle-Follows env h shows e w b up)
            (handle-Writes env h confined shows keys e w b fit up))
          λ _ w' (follows, writes).
            rw (follows key, effect_registered w e (directory env w) key, writes key)
              (effect-Agrees env w e key (directory env w) (table rows w) (plain_key env keys)
                (keyed _) first old)

    -- No `/start` comes from a friend with the key.
    abbrev pub AllQuiet : Text → List (Moment T) → Type 0
    AllQuiet key [] = Unit {0}
    AllQuiet key (e ∷ es) =
        IfAny (enrols env e.event) (λ n. (w : World T S) → key_of env n w ≢ key) × AllQuiet key es

    quiet-IsFirst :
        (who : Option ℕ) (w : World T S) (key : Text)
        → IfAny who (λ n. (w' : World T S) → key_of env n w' ≢ key)
        → IfAny who (λ n. key_of env n w ≡ key → directory env w key ≡ none)
    quiet-IsFirst none w key q = tt
    quiet-IsFirst (some n) w key q = λ e. absurd (q w e)

    -- Agreement through any number of callbacks.
    pub run-InStep :
        (moments : List (Moment T)) (w : World T S) (key : Text)
        → AllInBounds moments
        → AllQuiet key moments
        → AllStorable env moments
        → IsUp env w
        → InStep key w
        → Returns (λ _ w'. IsUp env w' × InStep key w') (run env moments w)
    unfolding run
    run-InStep [] w key b q st up old = returns (up, old)
    run-InStep (e ∷ es) w key (b, bs) (q, qs) (st, sts) up old =
        let start = record w { network = e.network w.network; files = e.disk w.files } in
        let start_up = elsewhere env up _ _ _ in
        Returns-bind
          (Returns-both (handle-IsUp env h shows e.event start b start_up) (
            handle-InStep e.event start key b (st w)
              (quiet-IsFirst (enrols env e.event) start key q) start_up old))
          λ _ w1 (up1, now). run-InStep es w1 key bs qs sts up1 now
