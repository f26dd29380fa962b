-- ===== src/Assisant/Info.antt =====
-- `/info`: from the cache for who is online, else from toxcore.
use find_friend_bot.Base.{
  Option, ℕ, ◌≡◌, refl, true, false, List, [], ◌∷◌, none, some, Text, ◌==◌, arith, ok, Option-cases,
  inl, inr, ◌⊎◌,
}
use find_friend_bot.Map.{find}
use find_friend_bot.LockedQueue.{Ptr, null}
use find_friend_bot.LockedQueue
use find_friend_bot.Member.{Member}
use find_friend_bot.MemberMgr.{find_member}
use find_friend_bot.MemberMgr.Removal.{online_ne_null}
use find_friend_bot.MemberMgr.View.{view}
use find_friend_bot.World.{Env, World}
use find_friend_bot.Assisant.Commands.{
  cmd_info, formatted, get_name, get_status_message, text_of_buffer,
}
use find_friend_bot.Assisant.Start.{IsRunning, key_of}

module _ {T S : Type 0} (env : Env T S) (friend_number : ℕ) (msg_res : Text) (w : World T S) where
  -- In a running process whose format fits, `/info` of a user who is online replies with the name,
  -- the bio and the signature of the cached object, and changes nothing.
  pub cmd_info_online :
      {loose : List Ptr} {q : Ptr} {a : Member} {msg : Text}
      → IsRunning env loose w
      → find (key_of env friend_number w) w.store.member_mgr.online_member ≡ some q
      → w.store.member_mgr.free_list.cell q ≡ some a
      → env.boost.format env.conf.desc_info (a.nick_name ∷ a.bio ∷ a.signature ∷ []) ≡ some msg
      → cmd_info env friend_number msg_res w ≡ ok (true, msg) w
  unfolding cmd_info find_member formatted LockedQueue.load
  cmd_info_online {loose} {q} v e c shown =
      let some_object : (q == null) ≡ false =
        ground (arith, online_ne_null v.valid (key_of env friend_number w) e) in
      rw (e, some_object, c, some_object, formatted, shown) refl

  -- For a user who is not online and whose name and status toxcore knows, with a format that fits,
  -- `/info` replies with these and an empty signature, and changes nothing.
  pub cmd_info_offline :
      {msg : Text} (n l : ℕ)
      → find (key_of env friend_number w) w.store.member_mgr.online_member ≡ none
      → env.tox.friend_get_name_size friend_number w.network ≡ some n
      → env.tox.friend_get_status_message_size friend_number w.network ≡ some l
      → env.boost.format env.conf.desc_info (
          text_of_buffer n (env.tox.friend_get_name friend_number w.network)
          ∷ text_of_buffer l (env.tox.friend_get_status_message friend_number w.network)
          ∷ []
          ∷ [])
        ≡ some msg
      → cmd_info env friend_number msg_res w ≡ ok (true, msg) w
  unfolding cmd_info find_member formatted get_name get_status_message
  cmd_info_offline n l e f g shown = rw (e, f, g, formatted, shown) refl

  -- Where toxcore does not know the name or the status either, the reply is the one it came with.
  pub cmd_info_unknown :
      find (key_of env friend_number w) w.store.member_mgr.online_member ≡ none
      → (env.tox.friend_get_name_size friend_number w.network ≡ none)
        ⊎ (env.tox.friend_get_status_message_size friend_number w.network ≡ none)
      → cmd_info env friend_number msg_res w ≡ ok (true, msg_res) w
  unfolding cmd_info find_member formatted get_name get_status_message
  cmd_info_unknown e (inl f) =
      rw (e, f)
        (elim (Option-cases (env.tox.friend_get_status_message_size friend_number w.network)) [
          | inl g ↦ rw g refl
          | inr (l, g) ↦ rw g refl
        ])
  cmd_info_unknown e (inr f) =
      elim (Option-cases (env.tox.friend_get_name_size friend_number w.network)) [
        | inl g ↦ rw (e, g, f) refl
        | inr (l, g) ↦ rw (e, g, f) refl
      ]

  -- What toxcore has of the user, without a signature.
  abbrev pub tox_card : Option (List Text)
  tox_card = elim (env.tox.friend_get_name_size friend_number w.network) [
    | none ↦ none
    | some n ↦ elim (env.tox.friend_get_status_message_size friend_number w.network) [
      | none ↦ none
      | some l ↦ some (
          text_of_buffer n (env.tox.friend_get_name friend_number w.network)
          ∷ text_of_buffer l (env.tox.friend_get_status_message friend_number w.network)
          ∷ []
          ∷ [])
    ]
  ]

  -- What there is to show: the online member, or else what toxcore has.
  abbrev pub card_of : Option Member → Option (List Text)
  card_of none = tox_card
  card_of (some a) = some (a.nick_name ∷ a.bio ∷ a.signature ∷ [])

  -- The reply that shows a card, and the one that it came with where there is none.
  abbrev pub Shows : Option (List Text) → Text → Type 0
  Shows none reply = reply ≡ msg_res
  Shows (some fields) reply = env.boost.format env.conf.desc_info fields ≡ some reply

  -- In a running process whose format for it fits, `/info` changes nothing and replies with the
  -- name, the bio and the signature of the online member with the key of the user, else with what
  -- toxcore has and no signature, else with the text it came with.
  pub cmd_info-Shows :
      {loose : List Ptr}
      → IsRunning env loose w
      → ((a b c : Text)
          → (msg : Text) × (env.boost.format env.conf.desc_info (a ∷ b ∷ c ∷ []) ≡ some msg))
      → (reply : Text) × (cmd_info env friend_number msg_res w ≡ ok (true, reply) w)
        × Shows (card_of (view w.store.member_mgr (key_of env friend_number w))) reply
  cmd_info-Shows v shown =
      elim (Option-cases (find (key_of env friend_number w) w.store.member_mgr.online_member)) [
        | inr (q, e) ↦
            let (a, c, _) = v.valid.keyed (key_of env friend_number w) q e in
            let (msg, f) = shown a.nick_name a.bio a.signature in
            (msg, cmd_info_online v e c f, rw (e, c) f)
        | inl e ↦ elim (Option-cases (env.tox.friend_get_name_size friend_number w.network)) [
          | inl f ↦ (msg_res, cmd_info_unknown e (inl f), rw (e, tox_card, f) refl)
          | inr (n, f) ↦
              elim (Option-cases (env.tox.friend_get_status_message_size friend_number w.network)) [
                | inl g ↦ (msg_res, cmd_info_unknown e (inr g), rw (e, tox_card, f, g) refl)
                | inr (l, g) ↦
                    let (msg, s) = shown _ _ _ in
                    (msg, cmd_info_offline n l e f g s, rw (e, tox_card, f, g) s)
              ]
        ]
      ]
