-- ===== src/Tests/Filed.antt =====
-- A database whose rows have the keys that they are found by.
use mathlib.Core.Option
use mathlib.Core.Option.{some-injective, some-ne-none}
use find_friend_bot.Base.{
  Bool-cases, inl, inr, Bool, true, false, text_eq_iff, sym, ap, ◌∙◌, is_some, if◌then◌else◌, ℕ,
  ◌≡◌, refl, Option, none, some, Text, text_eq, arith,
}
use find_friend_bot.Sql.{
  Sql, Row, Statement, select_where, replace_into, delete_where, set_signature_where, set_bio_where,
  set_nick_name_where, is_key,
}
use find_friend_bot.Sql.Healthy.{Healthy, signed, with_bio, with_nick_name}
use find_friend_bot.World.{Env}
use find_friend_bot.Assisant.Upkeep.{Formats}
use find_friend_bot.Assisant.Frame.{Keyed}
use find_friend_bot.Fixtures.{
  Net, Table, env, server, world, world-IsUp, set_row, set_row_at, env-Formats,
}
use find_friend_bot.MemberModel.Writes.{Confined, named, registered}
use find_friend_bot.Assisant.Records.{HexKeys}
use find_friend_bot.Assisant.Upkeep.{IsUp}

-- The table with the key of each row as it is found.
abbrev pub file_as : Text → Option Row → Option Row
file_as pk none = none
file_as pk (some row) = some (record row { pk = pk })

abbrev pub filed : Table → Text → Option Row
filed s pk = file_as pk (s pk)

abbrev pub filed_query : Statement → Table → Option (Option Row) × Table
filed_query (select_where pk) s = (some (filed s pk), s)
filed_query _ s = (none, s)

abbrev pub filed_server : Sql Table
filed_server = record server { execute_query = λ _ statement s. filed_query statement s }

pub filed-Keyed : (s : Table) → Keyed (filed s)
filed-Keyed s key row e = at_row (s key) e
  where
    at_row : (x : Option Row) → file_as key x ≡ some row → row.pk ≡ key
    at_row none f = absurd (some-ne-none row (sym f))
    at_row (some r) f = ap (λ x. x.pk) (sym (some-injective _ _ f))

pub registered-Keyed : (s : Table) → Keyed (registered filed s)
registered-Keyed s key row e = elim (Bool-cases (is_key key)) [
  | inl f ↦ filed-Keyed s key row (rw f at e)
  | inr f ↦ absurd (some-ne-none row (sym (rw f at e)))
]

filed_at : (pk : Text) (row : Option Row) (s : Table) → filed (set_row pk row s) pk ≡ file_as pk row
filed_at pk row s = ap (file_as pk) (set_row_at pk row s)

one_row : (pk : Text) (x : Option Row) → is_some x ≡ is_some (file_as pk x)
one_row pk none = refl
one_row pk (some row) = refl

-- A change that keeps the key.
change_filed :
    (f : Row → Row) (pk : Text) (x : Option Row)
    → ((row : Row) → f (record row { pk = pk }) ≡ record (f row) { pk = pk })
    → file_as pk (Option.map f x) ≡ Option.map f (file_as pk x)
change_filed f pk none keeps = refl
change_filed f pk (some row) keeps = ap some (sym (keeps row))

no_row :
    (pk : Text) (x : Option Row)
    → file_as pk x ≡ none
    → (n : ℕ) → ◌≡◌ {A = Option ℕ} (some (if is_some x then 1 else 0)) (some n)
    → n ≡ 0
no_row pk none e n f = sym (some-injective _ _ f)
no_row pk (some row) e n f = absurd (some-ne-none (record row { pk = pk }) e)

pub filed-Healthy : Healthy filed_server filed
filed-Healthy = record {
  connects = λ _ _ _ _ s. (1, refl, λ z. omega (arith, z), refl);
  names = λ _ s. (refl, refl);
  schemas = λ _ _ s. (refl, refl);
  commits = λ _ s. (refl, refl);
  closes = λ _ s. (refl, refl);
  disposes = λ _ s. refl;
  prepares = λ _ _ s. (refl, refl);
  replaces = λ _ tok_id pk nick_name bio created updated s _. filed_at pk _ s;
  deletes = λ _ pk s.
      (ap (λ (b : Bool). some (if b then 1 else 0)) (one_row pk (s pk)), filed_at pk none s);
  signs = λ _ signature now pk s. (
    no_row pk (s pk),
    λ _. filed_at pk _ s ∙ change_filed (signed signature now) pk (s pk) (λ row. refl),
  );
  bios = λ _ bio now pk s. (
    no_row pk (s pk),
    λ _. filed_at pk _ s ∙ change_filed (with_bio bio now) pk (s pk) (λ row. refl),
  );
  nick_names = λ _ nick_name now pk s. (
    no_row pk (s pk),
    λ _. filed_at pk _ s ∙ change_filed (with_nick_name nick_name now) pk (s pk) (λ row. refl),
  );
  selects = λ _ pk s. (refl, refl);
}

abbrev pub filed_env : Env Net Table
filed_env = record env { sql = filed_server }

pub filed-Formats : Formats filed_env
filed-Formats = record {
  quiet = env-Formats.quiet;
  get_shows = env-Formats.get_shows;
  info_shows = env-Formats.info_shows;
}

pub filed-IsUp : IsUp filed_env world
filed-IsUp = record {
  loose = world-IsUp.loose;
  running = record { ready = world-IsUp.running.ready; valid = world-IsUp.running.valid };
  tmp_opens = world-IsUp.tmp_opens;
  avatar = world-IsUp.avatar;
}

elsewhere_in :
    (pk key : Text) (row : Option Row) (s : Table)
    → text_eq pk key ≡ false
    → filed (set_row pk row s) key ≡ filed s key
elsewhere_in pk key row s other =
    let back : text_eq key pk ≡ false = grind (arith, text_eq_iff, other) in rw back refl

pub filed-Confined : Confined filed_server filed
filed-Confined = record { others = others }
  where
    others :
        (c : ℕ) (statement : Statement) (s : Table) (key : Text)
        → is_key (named statement) ≡ true
        → is_key key ≡ true
        → text_eq (named statement) key ≡ false
        → filed (filed_server.execute_update c statement s).1 key ≡ filed s key
    others c (replace_into tok_id pk nick_name bio created updated) s key _ _ other =
        elsewhere_in pk key _ s other
    others c (delete_where pk) s key _ _ other = elsewhere_in pk key _ s other
    others c (set_signature_where signature now pk) s key _ _ other = elsewhere_in pk key _ s other
    others c (set_bio_where bio now pk) s key _ _ other = elsewhere_in pk key _ s other
    others c (set_nick_name_where nick_name now pk) s key _ _ other = elsewhere_in pk key _ s other
    others c (select_where pk) s key _ _ other = refl

pub filed-HexKeys : HexKeys filed_env
filed-HexKeys n w = ground arith
