-- ===== src/Assisant/Persistence.antt =====
-- A member who goes offline and comes back is the same.
use find_friend_bot.Base.{
  ℕ, ◌≡◌, refl, sym, ◌∙◌, true, false, List, [], ◌∷◌, Option, none, some, Text, codes, c_str,
  text_eq, text_eq_refl, subst, Returns, Returns-mono, Returns-bind, Returns-both, returns,
  Option-cases, inl, inr, ◌>>◌,
}
use find_friend_bot.Member.{Member}
use find_friend_bot.MemberModel.Writes.{Table, registered, Confined, put_row}
use find_friend_bot.Sql.Healthy.{Healthy}
use find_friend_bot.World.{Env, World}
use find_friend_bot.Assisant.Parser.{parse_msg}
use find_friend_bot.Assisant.Start.{key_of}
use find_friend_bot.Assisant.Directory.{directory, card}
use find_friend_bot.MemberModel.Fetch.{member_in}
use find_friend_bot.Sql.{Row, is_key}
use find_friend_bot.Assisant.Callbacks.{connection_none, connection_tcp}
use find_friend_bot.Assisant.Events.{handle-Follows}
use find_friend_bot.Assisant.Agreement.{kept, Matches}
use find_friend_bot.Assisant.Agreement.Runs.{InStep}
use find_friend_bot.Assisant.Frame.{
  Keyed, Spares, if-Spares, IsElsewhere, AllElsewhere, run-Spares_at,
}
use find_friend_bot.Assisant.Records.{
  AllStorable, c_key, enrolled, resigned, noted, written, table, HexKeys, is_key-c_str,
}
use find_friend_bot.Assisant.Records.Writes.{handle-Writes}
use find_friend_bot.Assisant.Running.{
  Event, connection, request, message, name, status_message, chunk, recv, recv_chunk, timer, Moment,
  AllInBounds, handle, run,
}
use find_friend_bot.Assisant.Running.Serving.{handle-IsUp, run-IsUp}
use find_friend_bot.Assisant.Upkeep.{IsUp, Formats, elsewhere}

row_of :
    (a : Member) (r : Option Row)
    → Matches (some a) r
    → (row : Row) × (r ≡ some row) × (kept (member_in row) ≡ kept a)
row_of a none m = absurd m
row_of a (some row) m = (row, refl, m)

module _ {T S : Type 0} (env : Env T S) where
  module _ (pk key : Text) (other : text_eq (c_str key) pk ≡ false) where
    enrolled-Spares :
        (tok_id : Text) (known : Option (Text × Text)) (now : ℕ)
        → Spares pk (enrolled env key tok_id known now)
    enrolled-Spares [] known now t = refl
    enrolled-Spares (c ∷ cs) none now t = refl
    enrolled-Spares (c ∷ cs) (some (n, b)) now t = rw other refl

    resigned-Spares : (param : Text) (now : ℕ) → Spares pk (resigned env key param now)
    resigned-Spares [] now t = refl
    resigned-Spares (c ∷ cs) now t = rw other refl

    noted-Spares :
        (cmd tok_id param : Text) (known : Option (Text × Text)) (now : ℕ)
        → Spares pk (noted env cmd tok_id param key known now)
    noted-Spares cmd tok_id param known now =
        if-Spares pk (text_eq (codes "start") cmd) (enrolled env key tok_id known now) _
          (enrolled-Spares tok_id known now)
          (if-Spares pk (text_eq (codes "stop") cmd) (put_row (c_str key) none) _
            (λ t. rw other refl)
            (if-Spares pk (text_eq (codes "set") cmd) (resigned env key param now) (λ t. t)
              (resigned-Spares param now) (λ t. refl)))

  written-Spares :
      (pk : Text) (w : World T S) (e : Event) → IsElsewhere env pk e w → Spares pk (written env w e)
  written-Spares pk w (connection n status) other t = refl
  written-Spares pk w (message n text) other t = elim (Option-cases (parse_msg text ([], []))) [
    | inl e ↦ rw e refl
    | inr (parts, e) ↦ rw e (noted-Spares pk (key_of env n w) other.1 _ _ _ (card env n w) _ t)
  ]
  written-Spares pk w (name n text) other t = rw (other.1) refl
  written-Spares pk w (status_message n text) other t = rw (other.1) refl
  written-Spares pk w (request k) other t = refl
  written-Spares pk w (chunk n f p s) other t = refl
  written-Spares pk w (recv n f k l path) other t = refl
  written-Spares pk w (recv_chunk n f p bytes) other t = refl
  written-Spares pk w (timer n k u) other t = refl

  module _ {rows : S → Table} (h : Healthy env.sql rows) (confined : Confined env.sql rows)
      (shows : Formats env) (keys : HexKeys env) (pk : Text) where
    -- The row of a key is left alone by the callbacks that are not about its friend.
    pub run_unwritten :
        (moments : List (Moment T)) (w : World T S)
        → AllInBounds moments
        → AllElsewhere env pk moments
        → AllStorable env moments
        → IsUp env w
        → Returns (λ _ w'. table rows w' pk ≡ table rows w pk) (run env moments w)
    unfolding run
    run_unwritten [] w b other fit up = returns refl
    run_unwritten (e ∷ es) w (b, bs) (other, others) (fit, fits_all) up =
        let start = record w { network = e.network w.network; files = e.disk w.files } in
        let start_up = elsewhere env up _ _ _ in
        Returns-bind
          (Returns-both (handle-Writes env h confined shows keys e.event start b (fit w) start_up)
            (handle-IsUp env h shows e.event start b start_up))
          λ _ w1 (first, up1).
            Returns-mono (run_unwritten es w1 bs others fits_all up1) λ _ w' rest.
              rest ∙ first pk ∙ written-Spares pk start e.event (other w) (table rows w)

    -- The keys of friends are found as they are.
    pub found :
        ((s : S) → Keyed (registered rows s))
        → (s : S) (m : ℕ) (w : World T S) (row : Row) → rows s (c_str (key_of env m w)) ≡ some row
        → row.pk ≡ c_str (key_of env m w)
    found keyed s m w row e =
        let is = c_key env keys m w in keyed s (c_str (key_of env m w)) row (rw is e)

    module _ (keyed : (s : S) → Keyed (registered rows s)) (n : ℕ) where
      goes_offline :
          (w : World T S)
          → key_of env n w ≡ pk
          → IsUp env w
          → Returns
              (λ _ w'.
                IsUp env w' × (directory env w' pk ≡ none) × (table rows w' pk ≡ table rows w pk))
              (handle env (connection n connection_none) w)
      goes_offline w mine up =
          Returns-mono
            (Returns-both (handle-IsUp env h shows (connection n connection_none) w tt up) (
              Returns-both (handle-Follows env h shows (connection n connection_none) w tt up) (
                handle-Writes env h confined shows keys (connection n connection_none) w tt tt up)))
            λ _ w' (up', (gone, same)). (up', gone pk ∙ rw (mine, text_eq_refl pk) refl, same pk)

      pub comes_online :
          (w : World T S) (a : Member)
          → key_of env n w ≡ pk
          → IsUp env w
          → directory env w pk ≡ none
          → Matches (some a) (table rows w pk)
          → Returns
              (λ _ w'. (b : Member) × (directory env w' pk ≡ some b) × (kept b ≡ kept a))
              (handle env (connection n connection_tcp) w)
      comes_online w a mine up gone m =
          let is : is_key pk ≡ true = subst (λ k. is_key k ≡ true) mine (keys n w) in
          let plain : c_str pk ≡ pk = is_key-c_str pk is in
          let (row, there, alike) = row_of a (rows w.store.db.server pk) (rw is at m) in
          Returns-mono (handle-Follows env h shows (connection n connection_tcp) w tt up)
            λ _ w' joined. (
              member_in row,
              joined pk
                  ∙ rw
                      (
                        mine,
                        plain,
                        there,
                        keyed w.store.db.server pk row (rw is there),
                        text_eq_refl pk,
                        gone,
                      )
                      refl,
              alike,
            )

      -- The friend is there again, behind what toxcore and the rest of the system did.
      abbrev pub returning : (T → T) → ((Text → Option Text) → Text → Option Text) → Moment T
      returning network disk = record {
        network = network;
        disk = disk;
        event = connection n connection_tcp;
      }

      -- The friend has the key then, whatever toxcore did before.
      abbrev pub Returning : (T → T) → Type 0
      Returning network =
          (v : World T S) → key_of env n (record v { network = network v.network }) ≡ pk

      pub comes_back :
          (network : T → T) (disk : (Text → Option Text) → Text → Option Text) (w : World T S)
          (a : Member)
          → Returning network
          → IsUp env w
          → directory env w pk ≡ none
          → Matches (some a) (table rows w pk)
          → Returns
              (λ _ w'. (b : Member) × (directory env w' pk ≡ some b) × (kept b ≡ kept a))
              (run env (returning network disk ∷ []) w)
      unfolding run
      comes_back network disk w a mine up gone m =
          Returns-bind (comes_online _ a (mine w) (elsewhere env up _ _ _) gone m)
            λ _ w' z. returns z

      -- If the member online with a key and the row with the key show the same up to NULs, and the
      -- friend with this key goes offline and, after any callbacks that are not about a friend with
      -- this key and whose values fit into the table, the friend comes online again, still with
      -- this key, then the member online shows what it showed before, up to NULs: from a state that
      -- is up, if the database is up, finds each row with such a key by it and leaves the rows with
      -- other keys alone, the keys of friends consist of digits and upper case letters, the two
      -- formats fit, the filter of the log is above `debug`, and requests for chunks end in 64
      -- bits.
      pub offline-online :
          (w : World T S) (a : Member) (moments : List (Moment T)) (network : T → T)
          (disk : (Text → Option Text) → Text → Option Text)
          → key_of env n w ≡ pk
          → directory env w pk ≡ some a
          → InStep env h confined shows keys pk w
          → AllInBounds moments
          → AllElsewhere env pk moments
          → AllStorable env moments
          → Returning network
          → IsUp env w
          → Returns
              (λ _ w'. (b : Member) × (directory env w' pk ≡ some b) × (kept b ≡ kept a))
              ((handle env (connection n connection_none)
                  >> (run env moments >> run env (returning network disk ∷ [])))
                w)
      offline-online w a moments network disk mine there in_step b other fit back up =
          Returns-bind (goes_offline w mine up) λ _ w1 (up1, gone, same).
            Returns-bind
              (Returns-both (run-IsUp env h shows moments w1 b up1) (
                Returns-both (run-Spares_at env pk h shows (found keyed) moments w1 b other up1)
                  (run_unwritten moments w1 b other fit up1)))
              λ _ w2 (up2, (still_gone, kept_row)).
                comes_back network disk w2 a back up2 (still_gone ∙ gone)
                  (subst (Matches (some a)) (sym (kept_row ∙ same)) (rw there at in_step))
