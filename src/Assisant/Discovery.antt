-- ===== src/Assisant/Discovery.antt =====
-- What `/start`, `/set` and `/stop` of one user mean for `/get` of the others.
use find_friend_bot.Base.{
  ℕ, ◌≡◌, refl, true, false, List, [], ◌∷◌, Option, none, some, Text, text_eq, text_eq_refl, ◌==◌,
  arith, Returns, returns, Returns-mono, ap, ◌∙◌, ◌⊎◌, inl, inr,
}
use find_friend_bot.Map.{find, erase}
use find_friend_bot.LockedQueue.{Ptr, null}
use find_friend_bot.Member.{Member, member, set_signature}
use find_friend_bot.MemberMgr.Invariant.{IsValid}
use find_friend_bot.MemberMgr.Lookup.{random_member_reaches}
use find_friend_bot.MemberMgr.Filling.{Joined-free}
use find_friend_bot.Sql.{Row}
use find_friend_bot.Sql.Healthy.{Healthy}
use find_friend_bot.World.{Env, World}
use find_friend_bot.Assisant.Commands.{
  Reply, cmd_start, cmd_get, cmd_set, cmd_stop, draw, formatted,
}
use find_friend_bot.Assisant.Answers.{cmd_set-Signed, cmd_stop-Deleted, cmd_get-IsOther}
use find_friend_bot.Assisant.Start.{IsRunning, key_of, name_of, status_of, cmd_start-Started}

module _ {T S : Type 0} (env : Env T S) where
  -- The reply for this member.
  abbrev pub Shows : Member → Reply → Type 0
  Shows a reply =
      (reply.0 ≡ true)
      × (env.boost.format env.conf.desc_get (a.nick_name ∷ a.bio ∷ a.signature ∷ a.tok_id ∷ [])
          ≡ some reply.1)

  -- Some result of `rand()` makes `/get` show the member to who asks with this key.
  abbrev pub CanShow : World T S → Member → Text → Type 0
  CanShow w a pk =
      (r : ℕ) × ((asker : ℕ) (t : T)
        → key_of env asker (record w { network = t }) ≡ pk
        → (env.tox.rand t).0 ≡ r
        → Returns (λ reply _. Shows a reply) (cmd_get env asker (record w { network = t })))

  shown :
      (w : World T S) {loose : List Ptr} (key pk : Text) (q : Ptr) (a : Member)
      → ((a b c d : Text)
          → (msg : Text) × (env.boost.format env.conf.desc_get (a ∷ b ∷ c ∷ d ∷ []) ≡ some msg))
      → IsValid loose w.store.member_mgr
      → find key w.store.member_mgr.online_member ≡ some q
      → w.store.member_mgr.free_list.cell q ≡ some a
      → text_eq pk key ≡ false
      → CanShow w a pk
  unfolding cmd_get draw formatted
  shown w key pk q a shows v there object other =
      let (r, others, ran) = random_member_reaches v pk key {q = q} there other in
      let (msg, e) = shows a.nick_name a.bio a.signature a.tok_id in
      let some_object : (q == null) ≡ false = ground (arith, v.owned.null_dead, object) in
      (
        r,
        λ asker t mine drawn.
            rw (mine, others, drawn, ran, some_object, object, some_object, formatted, e)
              (returns (refl, refl)),
      )

  -- Where the database is up, the process is running, the format of `/get` fits, toxcore knows the
  -- name and the status of the user, and the user is not online: after `/start` with an id, for
  -- each other key there is a result of `rand()` with which `/get` of a friend with that key shows
  -- the new member with this id, name and status and no signature, whatever toxcore does in
  -- between.
  pub cmd_start-cmd_get :
      {rows : S → Text → Option Row}
      → (h : Healthy env.sql rows)
      → (friend_number c : ℕ) (cs msg_res : Text) (w : World T S) (n l : ℕ) {loose : List Ptr}
      → env.tox.friend_get_name_size friend_number w.network ≡ some n
      → env.tox.friend_get_status_message_size friend_number w.network ≡ some l
      → IsRunning env loose w
      → ((a b c d : Text)
          → (msg : Text) × (env.boost.format env.conf.desc_get (a ∷ b ∷ c ∷ d ∷ []) ≡ some msg))
      → find (key_of env friend_number w) w.store.member_mgr.online_member ≡ none
      → Returns
          (λ _ w'.
            (pk : Text)
            → text_eq pk (key_of env friend_number w) ≡ false
            → CanShow w'
                (member
                  (key_of env friend_number w)
                  (c ∷ cs)
                  (name_of env h friend_number c cs msg_res w n)
                  (status_of env h friend_number c cs msg_res w l)
                  [])
                pk)
          (cmd_start env friend_number (c ∷ cs) msg_res w)
  cmd_start-cmd_get h friend_number c cs msg_res w n l e f v shows free =
      Returns-mono (cmd_start-Started env h friend_number c cs msg_res w n l e f v)
        λ _ w' (_, _, _, _, (q, j)) pk other.
          let (valid, there, object) = Joined-free j free in
          shown w' (key_of env friend_number w) pk q _ shows valid there object other

  -- Where the database is up, the process is running and the format of `/get` fits: after `/set`
  -- with a text by a user who is online, for each other key there is a result of `rand()` with
  -- which `/get` of a friend with that key shows the member with the text as signature.
  pub cmd_set-cmd_get :
      {rows : S → Text → Option Row}
      → Healthy env.sql rows
      → (friend_number c : ℕ) (cs : Text) (w : World T S) {loose : List Ptr} {q : Ptr} {a : Member}
      → IsRunning env loose w
      → ((a b c d : Text)
          → (msg : Text) × (env.boost.format env.conf.desc_get (a ∷ b ∷ c ∷ d ∷ []) ≡ some msg))
      → find (key_of env friend_number w) w.store.member_mgr.online_member ≡ some q
      → w.store.member_mgr.free_list.cell q ≡ some a
      → Returns
          (λ _ w'.
            (pk : Text)
            → text_eq pk (key_of env friend_number w) ≡ false
            → CanShow w' (set_signature (c ∷ cs) a) pk)
          (cmd_set env friend_number (c ∷ cs) w)
  cmd_set-cmd_get h friend_number c cs w {loose} {q} {a} v shows there object =
      Returns-mono (cmd_set-Signed env h friend_number c cs w v)
        λ _ w' (_, _, _, _, _, (valid, same, signed, _)) pk other.
          shown w' (key_of env friend_number w) pk q _ shows valid
            (ap (find (key_of env friend_number w)) same ∙ there) (signed q a there object) other

  -- Nobody is online with this key, and whatever `rand()` gives, `/get` shows to whoever asks a member
  -- that is online with another key, or the text for nobody if no other member is online.
  abbrev pub Hides : World T S → Text → Type 0
  Hides w key =
      (find key w.store.member_mgr.online_member ≡ none)
      × ((asker : ℕ) (t : T)
          → Returns
              (λ reply _.
                ((reply.1 ≡ env.conf.desc_get_none)
                  × (erase (key_of env asker (record w { network = t }))
                        w.store.member_mgr.online_member
                      ≡ []))
                ⊎ ((pk : Text) × (q : Ptr) × (a : Member) × (text_eq key pk ≡ false)
                    × (find pk w.store.member_mgr.online_member ≡ some q)
                    × (w.store.member_mgr.free_list.cell q ≡ some a)
                    × Shows a reply))
              (cmd_get env asker (record w { network = t })))

  -- Where the database is up, the process is running and the format of `/get` fits: after `/stop`
  -- of a user nobody is online with this key, and whoever asks and whatever `rand()` gives, `/get`
  -- replies with the values of a member who is online with another key, or with the text for nobody
  -- if nobody but the one who asks is online.
  pub cmd_stop-cmd_get :
      {rows : S → Text → Option Row}
      → Healthy env.sql rows
      → (friend_number : ℕ) (w : World T S) {loose : List Ptr} → IsRunning env loose w
      → ((a b c d : Text)
          → (msg : Text) × (env.boost.format env.conf.desc_get (a ∷ b ∷ c ∷ d ∷ []) ≡ some msg))
      → Returns (λ _ w'. Hides w' (key_of env friend_number w)) (cmd_stop env friend_number w)
  cmd_stop-cmd_get h friend_number w {loose} v shows =
      Returns-mono (cmd_stop-Deleted env h friend_number w v)
        λ _ w' (_, _, ready, (valid, entries, _), _). (
          rw (entries (key_of env friend_number w), text_eq_refl (key_of env friend_number w)) refl,
          λ asker t.
              Returns-mono
                (cmd_get-IsOther env asker (record w' { network = t }) shows
                  (record { ready = ready; valid = valid }))
                λ reply _ (_, _, replied, answer). elim answer [
                  | inl alone ↦ inl alone
                  | inr (q, (key, a, _, there, object, _), e) ↦
                      inr
                        (key, q, a, ground (arith, entries key, there), there, object, (replied, e))
                ],
        )
