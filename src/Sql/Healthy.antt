-- ===== src/Sql/Healthy.antt =====
-- What the program relies on where the database is up: no call throws but
-- for a value that does not fit, and the statements do to the
-- table `t_tokme_member` what SQL says. The key `pk` is unique.
use find_friend_bot.Base.{
  ℕ, Bool, true, ◌≡◌, ◌≢◌, Option, none, some, [], Text, is_some, if◌then◌else◌,
}
use mathlib.Core.Option
use find_friend_bot.Sql.{
  Sql, Row, replace_into, delete_where, set_signature_where, set_bio_where, set_nick_name_where,
  select_where, Statement, fits,
}

-- A call that succeeds and leaves the table alone.
abbrev pub Keeps : {S : Type 0} → (S → Text → Option Row) → S → Bool × S → Type 0
Keeps rows s r = (r.0 ≡ true) × (rows r.1 ≡ rows s)

abbrev pub signed : Text → ℕ → Row → Row
signed signature now row = record row { signature = signature; update_time = now }

abbrev pub with_bio : Text → ℕ → Row → Row
with_bio bio now row = record row { bio = bio; update_time = now }

abbrev pub with_nick_name : Text → ℕ → Row → Row
with_nick_name nick_name now row = record row { nick_name = nick_name; update_time = now }

-- What an `UPDATE … WHERE pk = …` does. It says that it changed no row where there is none; it may
-- say so elsewhere too. It is only known to store what fits, and may throw at the rest.
abbrev pub Updates :
    {S : Type 0}
    → Sql S
    → (S → Text → Option Row)
    → (Text → ℕ → Text → Statement)
    → (Text → ℕ → Row → Row)
    → Type 0
Updates {S} sql rows statement change =
    (c : ℕ) (value : Text) (now : ℕ) (pk : Text) (s : S)
    → let r = sql.execute_update c (statement value now pk) s in
      (rows s pk ≡ none → (n : ℕ) → r.0 ≡ some n → n ≡ 0)
      × (fits (statement value now pk) ≡ true
          → rows r.1 pk ≡ Option.map (change value now) (rows s pk))

-- `rows s pk` is the row with the key `pk`.
pub record Healthy {S : Type 0} (sql : Sql S) (rows : S → Text → Option Row) : Type 0 where
  pub connects :
      (host user passwd schema : Text) (s : S)
      → (c : ℕ) × ((sql.connect host user passwd schema s).0 ≡ some c)
        × (c ≢ 0)
        × (rows (sql.connect host user passwd schema s).1 ≡ rows s)
  pub names : (c : ℕ) (s : S) → Keeps rows s (sql.set_names c s)
  pub schemas : (c : ℕ) (name : Text) (s : S) → Keeps rows s (sql.set_schema c name s)
  pub commits : (c : ℕ) (s : S) → Keeps rows s (sql.set_auto_commit c s)
  pub closes : (c : ℕ) (s : S) → Keeps rows s (sql.close c s)
  pub disposes : (c : ℕ) (s : S) → rows (sql.dispose c s) ≡ rows s
  pub prepares : (c : ℕ) (statement : Statement) (s : S) → Keeps rows s (sql.prepare c statement s)
  -- `REPLACE` sets the columns that it does not name to their defaults. It too is only known to store
  -- what fits.
  pub replaces :
      (c : ℕ) (tok_id pk nick_name bio : Text) (created updated : ℕ) (s : S)
      → let statement = replace_into tok_id pk nick_name bio created updated in
        fits statement ≡ true
        → rows (sql.execute_update c statement s).1 pk
          ≡ some (record {
            tok_id = tok_id;
            pk = pk;
            nick_name = nick_name;
            bio = bio;
            signature = [];
            create_time = created;
            update_time = updated;
          })
  pub deletes :
      (c : ℕ) (pk : Text) (s : S)
      → let r = sql.execute_update c (delete_where pk) s in
        (r.0 ≡ some (if is_some (rows s pk) then 1 else 0)) × (rows r.1 pk ≡ none)
  pub signs : Updates sql rows set_signature_where signed
  pub bios : Updates sql rows set_bio_where with_bio
  pub nick_names : Updates sql rows set_nick_name_where with_nick_name
  pub selects :
      (c : ℕ) (pk : Text) (s : S)
      → let r = sql.execute_query c (select_where pk) s in
        (r.0 ≡ some (rows s pk)) × (rows r.1 ≡ rows s)
