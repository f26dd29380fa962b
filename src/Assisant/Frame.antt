-- ===== src/Assisant/Frame.antt =====
-- What no callback touches: the entry of a member in the directory, but for the callbacks of the
-- friend with its key.
use find_friend_bot.Base.{
  ℕ, ◌≡◌, refl, ◌∙◌, Bool, true, false, List, [], ◌∷◌, Option, none, some, Text, codes, c_str,
  text_eq, Returns, Returns-mono, Returns-bind, returns, Returns-both, Option-cases, inl, inr,
  if◌then◌else◌,
}
use find_friend_bot.Sql.{Row}
use find_friend_bot.Sql.Healthy.{Healthy}
use find_friend_bot.World.{Env, World}
use find_friend_bot.Assisant.Parser.{parse_msg}
use find_friend_bot.Assisant.Callbacks.{Connection, connection_none, connection_tcp, connection_udp}
use find_friend_bot.Assisant.Start.{key_of}
use find_friend_bot.Assisant.Upkeep.{IsUp, Formats, elsewhere}
use find_friend_bot.Assisant.CachedView.{put}
use find_friend_bot.Assisant.Directory.{directory, card, started, signed_as, followed}
use find_friend_bot.Assisant.Events.{entered, connected, effect, handle-Follows}
use find_friend_bot.Assisant.Running.{
  Event, connection, request, message, name, status_message, chunk, recv, recv_chunk, timer, Moment,
  AllInBounds, run,
}
use find_friend_bot.Assisant.Running.Serving.{handle-IsUp}

-- The key is another one, up to its first NUL too.
abbrev pub Foreign : Text → Text → Type 0
Foreign pk key = (text_eq key pk ≡ false) × (text_eq (c_str key) pk ≡ false)

-- Each row has the key that it is found by.
abbrev pub Keyed : (Text → Option Row) → Type 0
Keyed table = (key : Text) (row : Row) → table key ≡ some row → row.pk ≡ key

abbrev KeyedAt : (Text → Option Row) → Text → Type 0
KeyedAt table key = (row : Row) → table key ≡ some row → row.pk ≡ key

-- A change of a map that leaves one entry alone.
abbrev pub Spares : {V : Type 0} → Text → ((Text → V) → Text → V) → Type 0
Spares {V} pk f = (d : Text → V) → f d pk ≡ d pk

pub if-Spares :
    {V : Type 0} (pk : Text) (b : Bool) (f g : (Text → V) → Text → V)
    → Spares pk f
    → Spares pk g
    → Spares pk (λ d. if b then f d else g d)
if-Spares pk true f g h k = h
if-Spares pk false f g h k = k

module _ (pk key : Text) (other : text_eq key pk ≡ false) where
  started-Spares :
      (tok_id : Text) (known : Option (Text × Text)) → Spares pk (started key tok_id known)
  started-Spares [] known d = refl
  started-Spares (c ∷ cs) none d = refl
  started-Spares (c ∷ cs) (some (n, b)) d = rw other refl

  signed_as-Spares : (param : Text) → Spares pk (signed_as key param)
  signed_as-Spares [] d = refl
  signed_as-Spares (c ∷ cs) d = rw other refl

  followed-Spares :
      (cmd tok_id param : Text) (known : Option (Text × Text))
      → Spares pk (followed cmd tok_id param key known)
  followed-Spares cmd tok_id param known =
      if-Spares pk (text_eq (codes "start") cmd) _ _ (started-Spares tok_id known) (
        if-Spares pk (text_eq (codes "stop") cmd) (put key none) _ (λ d. rw other refl)
          (if-Spares pk (text_eq (codes "set") cmd) (signed_as key param) (λ d. d)
            (signed_as-Spares param) (λ d. refl)))

entered-Spares :
    (pk key : Text) (table : Text → Option Row)
    → KeyedAt table key
    → text_eq key pk ≡ false
    → Spares pk (entered (table key))
entered-Spares pk key table keyed other d = elim (Option-cases (table key)) [
  | inl e ↦ rw e refl
  | inr (row, e) ↦ rw (e, keyed row e, other) refl
]

connected-Spares :
    (pk key : Text) (status : Connection) (table : Text → Option Row)
    → KeyedAt table (c_str key)
    → Foreign pk key
    → Spares pk (connected status key (table (c_str key)))
connected-Spares pk key connection_none table keyed other d = rw other.0 refl
connected-Spares pk key connection_tcp table keyed other d =
    entered-Spares pk (c_str key) table keyed other.1 d
connected-Spares pk key connection_udp table keyed other d =
    entered-Spares pk (c_str key) table keyed other.1 d

-- The friend that a callback is about.
abbrev pub about_friend : Event → Option ℕ
about_friend (connection friend_number status) = some friend_number
about_friend (message friend_number text) = some friend_number
about_friend (name friend_number text) = some friend_number
about_friend (status_message friend_number text) = some friend_number
about_friend _ = none

module _ {T S : Type 0} (env : Env T S) (pk : Text) where
  abbrev pub IsOfOther : World T S → Option ℕ → Type 0
  IsOfOther w none = Unit {0}
  IsOfOther w (some friend_number) = Foreign pk (key_of env friend_number w)

  -- The callback is not about the friend with the key.
  abbrev pub IsElsewhere : Event → World T S → Type 0
  IsElsewhere e w = IsOfOther w (about_friend e)

  -- So it is with each of the moments, whatever state of toxcore it finds.
  abbrev pub AllElsewhere : List (Moment T) → Type 0
  AllElsewhere [] = Unit {0}
  AllElsewhere (e ∷ es) =
      ((w : World T S)
        → IsElsewhere e.event (record w { network = e.network w.network; files = e.disk w.files }))
      × AllElsewhere es

  effect-Spares :
      (table : Text → Option Row) (w : World T S) (e : Event)
      → ((n : ℕ) → KeyedAt table (c_str (key_of env n w)))
      → IsElsewhere e w
      → Spares pk (effect env table w e)
  effect-Spares table w (connection n status) keyed other d =
      connected-Spares pk (key_of env n w) status table (keyed n) other d
  effect-Spares table w (message n text) keyed other d =
      elim (Option-cases (parse_msg text ([], []))) [
        | inl e ↦ rw e refl
        | inr (parts, e) ↦ rw e (followed-Spares pk _ other.0 _ _ _ (card env n w) d)
      ]
  effect-Spares table w (name n text) keyed other d = rw (other.0) refl
  effect-Spares table w (status_message n text) keyed other d = rw (other.0) refl
  effect-Spares table w (request key) keyed other d = refl
  effect-Spares table w (chunk n f p s) keyed other d = refl
  effect-Spares table w (recv n f k l path) keyed other d = refl
  effect-Spares table w (recv_chunk n f p bytes) keyed other d = refl
  effect-Spares table w (timer n k u) keyed other d = refl

  -- What `run-Spares` says, where only the keys of friends are known to be found as they are.
  pub run-Spares_at :
      {rows : S → Text → Option Row}
      → Healthy env.sql rows
      → Formats env
      → ((s : S) (n : ℕ) (w : World T S) → KeyedAt (rows s) (c_str (key_of env n w)))
      → (moments : List (Moment T)) (w : World T S) → AllInBounds moments
      → AllElsewhere moments
      → IsUp env w
      → Returns (λ _ w'. directory env w' pk ≡ directory env w pk) (run env moments w)
  unfolding run
  run-Spares_at h shows keyed [] w b other up = returns refl
  run-Spares_at {rows} h shows keyed (e ∷ es) w (b, bs) (other, others) up =
      let start = record w { network = e.network w.network; files = e.disk w.files } in
      let start_up = elsewhere env up _ _ _ in
      Returns-bind
        (Returns-both (handle-Follows env h shows e.event start b start_up)
          (handle-IsUp env h shows e.event start b start_up))
        λ _ w1 (first, up1).
          Returns-mono (run-Spares_at h shows keyed es w1 bs others up1) λ _ w' rest.
            rest
            ∙ first pk
            ∙ effect-Spares (rows w.store.db.server) start e.event (λ n. keyed _ n start) (other w)
                _

  -- From a state that is up, any sequence of callbacks leaves the entry of a key as it is, if none
  -- of them is about a friend whose public key is this one, up to a NUL too: if the database is up
  -- and finds each row by its own key, the two formats fit, the filter of the log is above `debug`,
  -- and no request for a chunk ends beyond 64 bits.
  pub run-Spares :
      {rows : S → Text → Option Row}
      → Healthy env.sql rows
      → Formats env
      → ((s : S) → Keyed (rows s))
      → (moments : List (Moment T)) (w : World T S) → AllInBounds moments
      → AllElsewhere moments
      → IsUp env w
      → Returns (λ _ w'. directory env w' pk ≡ directory env w pk) (run env moments w)
  run-Spares h shows keyed = run-Spares_at h shows (λ s n w row. keyed s _ row)
