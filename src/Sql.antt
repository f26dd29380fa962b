-- ===== src/Sql.antt =====
-- MySQL Connector/C++ and the server behind it, which src/DBConn.cpp and src/MemberModel.cpp call:
-- a parameter. `S` is the state of both; a pointer to a connection is a number, 0 if it is null.
pub mod Healthy
use find_friend_bot.Base.{
  ℕ, Bool, true, not, ◌&&◌, ◌||◌, Option, [], ◌∷◌, Text, length, ltb, leb, ◌==◌,
}

-- A row of the table `t_tokme_member`, less its `id`.
pub record Row : Type 0 where
  pub tok_id : Text
  pub pk : Text
  pub nick_name : Text
  pub bio : Text
  pub signature : Text
  pub create_time : ℕ
  pub update_time : ℕ

-- The statements of src/MemberModel.cpp, with the values that are bound to their parameters.
pub data Statement : Type 0 where
  replace_into : (tok_id pk nick_name bio : Text) (create_time update_time : ℕ) → Statement
  delete_where : (pk : Text) → Statement
  set_signature_where : (signature : Text) (update_time : ℕ) (pk : Text) → Statement
  set_bio_where : (bio : Text) (update_time : ℕ) (pk : Text) → Statement
  set_nick_name_where : (nick_name : Text) (update_time : ℕ) (pk : Text) → Statement
  select_where : (pk : Text) → Statement

-- A text in ASCII that does not end in a blank, as a `char` column keeps it.
abbrev is_plain : Text → Bool
is_plain [] = true
is_plain (c ∷ []) = ltb c 128 && not (c == 32)
is_plain (c ∷ d ∷ cs) = ltb c 128 && is_plain (d ∷ cs)

-- The values have room in the columns of `t_tokme_member` and stay what they are there. A value that
-- is too long makes the server throw, or is cut.
unfoldable pub fits : Statement → Bool
fits (replace_into tok_id pk nick_name bio create_time update_time) =
    leb (length tok_id) 77
    && is_plain tok_id
    && leb (length pk) 65
    && is_plain pk
    && leb (length nick_name) 128
    && leb (length bio) 1024
fits (delete_where pk) = true
fits (set_signature_where signature update_time pk) = leb (length signature) 1024
fits (set_bio_where bio update_time pk) = leb (length bio) 1024
fits (set_nick_name_where nick_name update_time pk) = leb (length nick_name) 128
fits (select_where pk) = true

-- A key as the bot writes it: hexadecimal digits in upper case, which the server compares as they are.
abbrev pub is_key : Text → Bool
is_key [] = true
is_key (c ∷ cs) = ((leb 48 c && leb c 57) || (leb 65 c && leb c 90)) && is_key cs

-- The calls. `false` and `none` stand for an `sql::SQLException`.
pub record Sql (S : Type 0) : Type 0 where
  -- `driver->connect(…)`, with host, user, password and schema
  pub connect : Text → Text → Text → Text → S → Option ℕ × S
  pub is_valid : ℕ → S → Bool
  -- `createStatement()->execute("SET names 'utf8mb4'")`
  pub set_names : ℕ → S → Bool × S
  pub set_schema : ℕ → Text → S → Bool × S
  pub set_auto_commit : ℕ → S → Bool × S
  pub is_closed : ℕ → S → Bool
  pub close : ℕ → S → Bool × S
  -- `delete conn`
  pub dispose : ℕ → S → S
  pub prepare : ℕ → Statement → S → Bool × S
  -- the number of rows that were affected
  pub execute_update : ℕ → Statement → S → Option ℕ × S
  -- the first row of the result, if there is one
  pub execute_query : ℕ → Statement → S → Option (Option Row) × S
