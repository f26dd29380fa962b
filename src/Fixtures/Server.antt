-- ===== src/Fixtures/Server.antt =====
-- A database server for the tests.
use mathlib.Core.Option
use mathlib.Core.Option.{some-injective}
use find_friend_bot.Base.{
  ℕ, ◌≡◌, sym, refl, true, false, Option, none, some, [], Text, text_eq, text_eq_refl,
  if◌then◌else◌, is_some, arith,
}
use find_friend_bot.Sql.{
  Sql, Row, Statement, replace_into, delete_where, set_signature_where, set_bio_where,
  set_nick_name_where, select_where,
}
use find_friend_bot.Sql.Healthy.{Healthy, signed, with_bio, with_nick_name}

-- A table as a function, and a server that never throws.
abbrev pub Table : Type 0
Table = Text → Option Row

abbrev pub set_row : Text → Option Row → Table → Table
set_row pk row s k = if text_eq k pk then row else s k

abbrev changed : (Row → Row) → Text → Table → Option ℕ × Table
changed f pk s = (some (if is_some (s pk) then 1 else 0), set_row pk (Option.map f (s pk)) s)

abbrev execute : Statement → Table → Option ℕ × Table
execute (replace_into tok_id pk nick_name bio created updated) s = (
  some 1,
  set_row pk
      (some (record {
        tok_id = tok_id;
        pk = pk;
        nick_name = nick_name;
        bio = bio;
        signature = [];
        create_time = created;
        update_time = updated;
      }))
      s,
)
execute (delete_where pk) s = (some (if is_some (s pk) then 1 else 0), set_row pk none s)
execute (set_signature_where signature now pk) s = changed (signed signature now) pk s
execute (set_bio_where bio now pk) s = changed (with_bio bio now) pk s
execute (set_nick_name_where nick_name now pk) s = changed (with_nick_name nick_name now) pk s
execute (select_where pk) s = (none, s)

abbrev query : Statement → Table → Option (Option Row) × Table
query (select_where pk) s = (some (s pk), s)
query _ s = (none, s)

abbrev pub server : Sql Table
server = record {
  connect = λ _ _ _ _ s. (some 1, s);
  is_valid = λ _ _. true;
  set_names = λ _ s. (true, s);
  set_schema = λ _ _ s. (true, s);
  set_auto_commit = λ _ s. (true, s);
  is_closed = λ _ _. false;
  close = λ _ s. (true, s);
  dispose = λ _ s. s;
  prepare = λ _ _ s. (true, s);
  execute_update = λ _ statement s. execute statement s;
  execute_query = λ _ statement s. query statement s;
}

changed_none :
    (s : Table) (pk : Text)
    → s pk ≡ none
    → (n : ℕ) → ◌≡◌ {A = Option ℕ} (some (if is_some (s pk) then 1 else 0)) (some n)
    → n ≡ 0
changed_none s pk e n f = sym (rw e at (some-injective _ _ f))

pub set_row_at : (pk : Text) (row : Option Row) (s : Table) → set_row pk row s pk ≡ row
set_row_at pk row s = rw (text_eq_refl pk) refl

pub server-Healthy : Healthy server (λ s. s)
server-Healthy = record {
  connects = λ _ _ _ _ s. (1, refl, λ z. omega (arith, z), refl);
  names = λ _ s. (refl, refl);
  schemas = λ _ _ s. (refl, refl);
  commits = λ _ s. (refl, refl);
  closes = λ _ s. (refl, refl);
  disposes = λ _ s. refl;
  prepares = λ _ _ s. (refl, refl);
  replaces = λ _ tok_id pk nick_name bio created updated s _. set_row_at pk _ s;
  deletes = λ _ pk s. (refl, set_row_at pk none s);
  signs = λ _ signature now pk s.
      (changed_none s pk, λ _. set_row_at pk (Option.map (signed signature now) (s pk)) s);
  bios = λ _ bio now pk s.
      (changed_none s pk, λ _. set_row_at pk (Option.map (with_bio bio now) (s pk)) s);
  nick_names = λ _ nick_name now pk s.
      (changed_none s pk, λ _. set_row_at pk (Option.map (with_nick_name nick_name now) (s pk)) s);
  selects = λ _ pk s. (refl, refl);
}
