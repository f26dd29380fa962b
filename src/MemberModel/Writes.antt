-- ===== src/MemberModel/Writes.antt =====
-- What the queries do to the table as a whole: a map from keys to rows, of which each query changes
-- one entry.
use mathlib.Core.Option
use find_friend_bot.Base.{
  ℕ, ◌≡◌, sym, ap, ◌∙◌, true, false, refl, Option, none, some, [], Text, c_str, text_eq,
  text_eq_iff, Returns, Returns-mono, Returns-both, Bool-cases, inl, inr, if◌then◌else◌,
}
use find_friend_bot.LockedQueue.{Locking}
use find_friend_bot.Sql.{
  Sql, Row, Statement, replace_into, delete_where, set_signature_where, set_bio_where,
  set_nick_name_where, select_where, fits, is_key,
}
use find_friend_bot.Sql.Healthy.{Healthy, signed, with_bio, with_nick_name}
use find_friend_bot.DbConn.{Db}
use find_friend_bot.DbConn.Laws.{IsReady}
use find_friend_bot.MemberModel.{
  run_update, add_friend, del_friend, update_friend_signature, update_friend_bio,
  update_friend_name,
}
use find_friend_bot.MemberModel.Table.{
  run_update-Executed, add_friend-row, del_friend-row, update_friend_signature-row,
  update_friend_bio-row, update_friend_name-row,
}

abbrev pub Table : Type 0
Table = Text → Option Row

abbrev pub put_row : Text → Option Row → Table → Table
put_row pk row t key = if text_eq pk key then row else t key

-- The key that a statement names.
abbrev pub named : Statement → Text
named (replace_into tok_id pk nick_name bio created updated) = pk
named (delete_where pk) = pk
named (set_signature_where signature now pk) = pk
named (set_bio_where bio now pk) = pk
named (set_nick_name_where nick_name now pk) = pk
named (select_where pk) = pk

-- A statement with `WHERE pk = …`, and a `REPLACE`, where `pk` is the only unique column that it
-- names, leave the rows with other keys alone: those of the form in which the bot writes keys, so that
-- it is no matter how the server compares letters and blanks.
pub record Confined {S : Type 0} (sql : Sql S) (rows : S → Table) : Type 0 where
  pub others :
      (c : ℕ) (statement : Statement) (s : S) (key : Text)
      → is_key (named statement) ≡ true
      → is_key key ≡ true
      → text_eq (named statement) key ≡ false
      → rows (sql.execute_update c statement s).1 key ≡ rows s key

-- The rows with a key of the form in which the bot writes keys.
abbrev pub registered : {S : Type 0} → (S → Table) → S → Table
registered rows s key = if is_key key then rows s key else none

put_row_intro :
    (pk : Text) (row : Option Row) (t t' : Table)
    → t' pk ≡ row
    → ((key : Text) → text_eq pk key ≡ false → t' key ≡ t key)
    → (key : Text) → t' key ≡ put_row pk row t key
put_row_intro pk row t t' at_pk others key = elim (Bool-cases (text_eq pk key)) [
  | inl e ↦ rw e (ap t' (sym ((text_eq_iff pk key).0 e)) ∙ at_pk)
  | inr e ↦ rw e (others key e)
]

module _ {S : Type 0} {sql : Sql S} {rows : S → Table} (h : Healthy sql rows)
    (confined : Confined sql rows) (k : Locking) where
  -- The table is what it was but for one entry.
  abbrev pub Puts : Text → Option Row → Db S → Db S → Type 0
  Puts pk row d d' =
      (key : Text) → registered rows d'.server key ≡ put_row pk row (registered rows d.server) key

  run_update-others :
      (statement : Statement) {d : Db S}
      → IsReady d.pool
      → is_key (named statement) ≡ true
      → Returns
          (λ _ d'.
            (key : Text)
            → is_key key ≡ true
            → text_eq (named statement) key ≡ false
            → rows d'.server key ≡ rows d.server key)
          (run_update sql k statement d)
  run_update-others statement v named_key =
      Returns-mono (run_update-Executed h k statement v)
        λ _ d' (_, (c, s, same, _, e)) key is other.
          rw e (confined.others c statement s key named_key is other)
          ∙ ap (λ (f : Table). f key) same

  other_rows :
      (d d' : Db S) (pk : Text)
      → ((key : Text)
          → is_key key ≡ true
          → text_eq pk key ≡ false
          → rows d'.server key ≡ rows d.server key)
      → (key : Text) → text_eq pk key ≡ false
      → registered rows d'.server key ≡ registered rows d.server key
  other_rows d d' pk others key other = elim (Bool-cases (is_key key)) [
    | inl is ↦ rw is (others key is other)
    | inr e ↦ rw e refl
  ]

  run_update-Puts :
      (statement : Statement) (row : Option Row) (d : Db S)
      → IsReady d.pool
      → is_key (named statement) ≡ true
      → Returns (λ _ d'. rows d'.server (named statement) ≡ row) (run_update sql k statement d)
      → Returns (λ _. Puts (named statement) row d) (run_update sql k statement d)
  run_update-Puts statement row d v named_key wrote =
      Returns-mono (Returns-both wrote (run_update-others statement v named_key))
        λ _ d' (at_pk, others).
          put_row_intro _ _ (registered rows d.server) (registered rows d'.server)
            (rw named_key at_pk) (other_rows d d' (named statement) others)

  pub add_friend-Puts :
      (tok_id pk nick_name bio : Text) (created updated : ℕ) (d : Db S)
      → IsReady d.pool
      → is_key (c_str pk) ≡ true
      → fits (replace_into (c_str tok_id) (c_str pk) (c_str nick_name) (c_str bio) created updated)
        ≡ true
      → Returns
          (λ _.
            Puts
              (c_str pk)
              (some (record {
                tok_id = c_str tok_id;
                pk = c_str pk;
                nick_name = c_str nick_name;
                bio = c_str bio;
                signature = [];
                create_time = created;
                update_time = updated;
              }))
              d)
          (add_friend sql k tok_id pk nick_name bio created updated d)
  unfolding add_friend
  add_friend-Puts tok_id pk nick_name bio created updated d v key fit =
      run_update-Puts _ _ d v key (
        Returns-mono (add_friend-row h k tok_id pk nick_name bio created updated d v)
          λ _ d' row. row.1 fit)

  pub del_friend-Puts :
      (pk : Text) (d : Db S)
      → IsReady d.pool
      → is_key (c_str pk) ≡ true
      → Returns (λ _. Puts (c_str pk) none d) (del_friend sql k pk d)
  unfolding del_friend
  del_friend-Puts pk d v key =
      run_update-Puts _ _ d v key (Returns-mono (del_friend-row h k pk d v) λ _ d' row. row.1)

  -- A change of the row with a key, if there is one.
  abbrev pub Alters : (Row → Row) → Text → Db S → Db S → Type 0
  Alters change pk d = Puts pk (Option.map change (registered rows d.server pk)) d

  pub update_friend_signature-Puts :
      (pk signature : Text) (now : ℕ) (d : Db S)
      → IsReady d.pool
      → is_key (c_str pk) ≡ true
      → fits (set_signature_where (c_str signature) now (c_str pk)) ≡ true
      → Returns
          (λ _. Alters (signed (c_str signature) now) (c_str pk) d)
          (update_friend_signature sql k pk signature now d)
  unfolding update_friend_signature
  update_friend_signature-Puts pk signature now d v key fit = run_update-Puts _ _ d v key (
      Returns-mono (update_friend_signature-row h k pk signature now d v)
        λ _ d' row. rw key (row.1 fit))

  pub update_friend_bio-Puts :
      (pk bio : Text) (now : ℕ) (d : Db S)
      → IsReady d.pool
      → is_key (c_str pk) ≡ true
      → fits (set_bio_where (c_str bio) now (c_str pk)) ≡ true
      → Returns
          (λ _. Alters (with_bio (c_str bio) now) (c_str pk) d)
          (update_friend_bio sql k pk bio now d)
  unfolding update_friend_bio
  update_friend_bio-Puts pk bio now d v key fit =
      run_update-Puts _ _ d v key
        (Returns-mono (update_friend_bio-row h k pk bio now d v) λ _ d' row. rw key (row.1 fit))

  pub update_friend_name-Puts :
      (pk name : Text) (now : ℕ) (d : Db S)
      → IsReady d.pool
      → is_key (c_str pk) ≡ true
      → fits (set_nick_name_where (c_str name) now (c_str pk)) ≡ true
      → Returns
          (λ _. Alters (with_nick_name (c_str name) now) (c_str pk) d)
          (update_friend_name sql k pk name now d)
  unfolding update_friend_name
  update_friend_name-Puts pk name now d v key fit =
      run_update-Puts _ _ d v key
        (Returns-mono (update_friend_name-row h k pk name now d v) λ _ d' row. rw key (row.1 fit))
