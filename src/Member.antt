-- ===== src/Member.antt =====
-- src/Member.h and src/Member.cpp: what the bot keeps of a user. The getters are the fields.
use find_friend_bot.Base.{ℕ, [], Text}
use find_friend_bot.LockedQueue.{Pooled}

pub record Member : Type 0 where
  pub pk : Text
  pub tok_id : Text
  pub nick_name : Text
  pub bio : Text
  pub signature : Text
  pub recommand_times : ℕ

-- `Member::MAX_POOL_SIZE`
abbrev pub max_pool_size : ℕ
max_pool_size = 1024

-- `Member(pk, tok_id, nick_name, bio, signature)`
abbrev pub member : (pk tok_id nick_name bio signature : Text) → Member
member pk tok_id nick_name bio signature = record {
  pk = pk;
  tok_id = tok_id;
  nick_name = nick_name;
  bio = bio;
  signature = signature;
  recommand_times = 0;
}

-- `Member()`
abbrev pub blank_member : Member
blank_member = member [] [] [] [] []

abbrev pub set_pk : Text → Member → Member
set_pk pk a = record a { pk = pk }

abbrev pub set_tok_id : Text → Member → Member
set_tok_id tok_id a = record a { tok_id = tok_id }

abbrev pub set_nick_name : Text → Member → Member
set_nick_name nick_name a = record a { nick_name = nick_name }

abbrev pub set_bio : Text → Member → Member
set_bio bio a = record a { bio = bio }

abbrev pub set_signature : Text → Member → Member
set_signature signature a = record a { signature = signature }

abbrev pub set_recommand_times : ℕ → Member → Member
set_recommand_times recommand_times a = record a { recommand_times = recommand_times }

abbrev pub clear_member : Member → Member
clear_member a =
    set_recommand_times 0
      (set_signature [] (set_bio [] (set_nick_name [] (set_tok_id [] (set_pk [] a)))))

instance abbrev pub pooled_member : Pooled Member
pooled_member = record { blank = blank_member; wiped = clear_member; max_pool_size = max_pool_size }
