-- ===== src/Assisant/Agreement/Steps.antt =====
-- What the callbacks do keeps the agreement of the cache and the table.
use find_friend_bot.Base.{
  ℕ, ◌≡◌, refl, sym, ap, ◌∙◌, subst, Bool, true, false, [], ◌∷◌, Option, none, some, Text, codes,
  c_str, text_eq, text_eq_iff, Option-cases, Bool-cases, inl, inr, if◌then◌else◌,
}
use find_friend_bot.Member.{Member}
use find_friend_bot.MemberMgr.View.{or_else}
use find_friend_bot.MemberModel.Fetch.{member_in}
use find_friend_bot.MemberModel.Writes.{Table, put_row}
use find_friend_bot.Sql.{Row}
use find_friend_bot.World.{Env, World}
use find_friend_bot.Assisant.Parser.{parse_msg, parse_msg_total}
use find_friend_bot.Assisant.Callbacks.{Connection, connection_none, connection_tcp, connection_udp}
use find_friend_bot.Assisant.Start.{key_of}
use find_friend_bot.Assisant.CachedView.{Directory, put}
use find_friend_bot.Assisant.Directory.{card, started, signed_as, followed}
use find_friend_bot.Assisant.Events.{entered, connected, effect}
use find_friend_bot.Assisant.Frame.{Keyed}
use find_friend_bot.Assisant.Records.{enrolled, resigned, noted, written}
use find_friend_bot.Assisant.Running.{
  Event, connection, request, message, name, status_message, chunk, recv, recv_chunk, timer,
}
use find_friend_bot.Assisant.Agreement.{
  Matches, Agrees, c_str_twice, Agrees-put, Agrees-alter, signed_alike, named_alike, bio_alike,
}

-- Whoever has the row that is there now agrees with it, and whoever was there before agrees still.
entered-Matches :
    (x : Option Member) (r : Option Row) (row : Row)
    → r ≡ some row
    → Matches x r
    → Matches (or_else x (some (member_in row))) r
entered-Matches none r row e m = rw e refl
entered-Matches (some a) r row e m = m

module _ {T S : Type 0} (env : Env T S) (key : Text) (d : Directory) (t : Table)
    (old : Agrees key d t) where
  entered-Agrees : (k : Text) → Keyed t → Agrees key (entered (t k) d) t
  entered-Agrees k keyed = elim (Option-cases (t k)) [
    | inl e ↦ rw e old
    | inr (row, e) ↦ elim (Bool-cases (text_eq row.pk key)) [
      | inr f ↦ rw (e, f) old
      | inl f ↦
          let there : row.pk ≡ key = (text_eq_iff row.pk key).0 f in
          let here : t key ≡ some row = ap t (sym there ∙ keyed k row e) ∙ e in
          let both : Matches (or_else (d key) (some (member_in row))) (t key) =
            entered-Matches (d key) (t key) row here old in
          rw (e, f)
            (subst (λ z. Matches (or_else (d z) (some (member_in row))) (t key)) (sym there) both)
    ]
  ]

  connected-Agrees :
      (status : Connection) (k : Text) → Keyed t → Agrees key (connected status k (t (c_str k)) d) t
  connected-Agrees connection_none k keyed = elim (Bool-cases (text_eq k key)) [
    | inl e ↦ rw e tt
    | inr e ↦ rw e old
  ]
  connected-Agrees connection_tcp k keyed = entered-Agrees (c_str k) keyed
  connected-Agrees connection_udp k keyed = entered-Agrees (c_str k) keyed

  -- A first `/start`.
  started-Agrees :
      (tok_id k : Text) (known : Option (Text × Text)) (now : ℕ)
      → c_str k ≡ k
      → (k ≡ key → d key ≡ none)
      → Agrees key (started k tok_id known d) (enrolled env k tok_id known now t)
  started-Agrees [] k known now plain first = old
  started-Agrees (c ∷ cs) k none now plain first = old
  started-Agrees (c ∷ cs) k (some (nick_name, bio)) now plain first =
      Agrees-put key k _ _ d t plain
        (λ e.
          let free : d k ≡ none = ap d e ∙ first e in
          rw free
            (rw (c_str_twice k, c_str_twice (c ∷ cs), c_str_twice nick_name, c_str_twice bio) refl))
        old

  signed_as-Agrees :
      (k param : Text) (now : ℕ)
      → c_str k ≡ k
      → Agrees key (signed_as k param d) (resigned env k param now t)
  signed_as-Agrees k [] now plain = old
  signed_as-Agrees k (c ∷ cs) now plain =
      Agrees-alter key k _ _ d t (signed_alike (c ∷ cs) now) plain old

  if-Agrees :
      (b : Bool) (d1 d2 : Directory) (t1 t2 : Table)
      → (b ≡ true → Agrees key d1 t1)
      → Agrees key d2 t2
      → Agrees key (if b then d1 else d2) (if b then t1 else t2)
  if-Agrees true d1 d2 t1 t2 h k = h refl
  if-Agrees false d1 d2 t1 t2 h k = k

  followed-Agrees :
      (cmd tok_id param k : Text) (known : Option (Text × Text)) (now : ℕ)
      → c_str k ≡ k
      → (text_eq (codes "start") cmd ≡ true → k ≡ key → d key ≡ none)
      → Agrees key (followed cmd tok_id param k known d) (noted env cmd tok_id param k known now t)
  followed-Agrees cmd tok_id param k known now plain first =
      if-Agrees (text_eq (codes "start") cmd) (started k tok_id known d) _
        (enrolled env k tok_id known now t) _
        (λ e. started-Agrees tok_id k known now plain (first e))
        (if-Agrees (text_eq (codes "stop") cmd) (put k none d) _ (put_row (c_str k) none t) _
          (λ _. Agrees-put key k none none d t plain (λ _. tt) old)
          (if-Agrees (text_eq (codes "set") cmd) (signed_as k param d) d
            (resigned env k param now t) t (λ _. signed_as-Agrees k param now plain) old))

-- What is to hold of the friend, if there is one.
abbrev pub IfAny : Option ℕ → (ℕ → Type 0) → Type 0
IfAny none P = Unit {0}
IfAny (some n) P = P n

module _ {T S : Type 0} (env : Env T S) where
  abbrev start_by : ℕ → Option (Text × Text) → Option ℕ
  start_by friend_number none = none
  start_by friend_number (some (cmd, param)) =
      if text_eq (codes "start") (env.boost.to_lower cmd) then some friend_number else none

  -- The friend whose `/start` a callback is.
  abbrev pub enrols : Event → Option ℕ
  enrols (message friend_number text) = start_by friend_number (parse_msg text ([], []))
  enrols _ = none

  -- No friend whose key is online already.
  abbrev pub IsFirst : World T S → Event → Text → Directory → Type 0
  IsFirst w e key d = IfAny (enrols e) (λ n. key_of env n w ≡ key → d key ≡ none)

  -- No key of a friend has a NUL; it is written in hexadecimal digits.
  abbrev pub PlainKeys : Type 0
  PlainKeys = (n : ℕ) (w : World T S) → c_str (key_of env n w) ≡ key_of env n w

  start_by-started :
      (n : ℕ) (cmd param : Text) (P : ℕ → Type 0)
      → IfAny (start_by n (some (cmd, param))) P
      → text_eq (codes "start") (env.boost.to_lower cmd) ≡ true
      → P n
  start_by-started n cmd param P i e = rw e at i

  pub effect-Agrees :
      (w : World T S) (e : Event) (key : Text) (d : Directory) (t : Table)
      → PlainKeys
      → Keyed t
      → IsFirst w e key d
      → Agrees key d t
      → Agrees key (effect env t w e d) (written env w e t)
  effect-Agrees w (connection n status) key d t plain keyed first old =
      connected-Agrees env key d t old status (key_of env n w) keyed
  effect-Agrees w (message n text) key d t plain keyed first old =
      let (parts, parsed) = parse_msg_total text ([], []) in
      rw parsed (
        followed-Agrees env key d t old _ _ _ (key_of env n w) (card env n w) _ (plain n w) (
          start_by-started n parts.0 parts.1 (λ m. key_of env m w ≡ key → d key ≡ none)
            (rw parsed at first)))
  effect-Agrees w (name n text) key d t plain keyed first old =
      Agrees-alter key (key_of env n w) _ _ d t
        (named_alike (c_str text) (env.tox.unixtime w.network)) (plain n w) old
  effect-Agrees w (status_message n text) key d t plain keyed first old =
      Agrees-alter key (key_of env n w) _ _ d t
        (bio_alike (c_str text) (env.tox.unixtime w.network)) (plain n w) old
  effect-Agrees w (request k) key d t plain keyed first old = old
  effect-Agrees w (chunk n f p s) key d t plain keyed first old = old
  effect-Agrees w (recv n f k l path) key d t plain keyed first old = old
  effect-Agrees w (recv_chunk n f p bytes) key d t plain keyed first old = old
  effect-Agrees w (timer n k u) key d t plain keyed first old = old
