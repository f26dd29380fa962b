-- ===== src/Fixtures.antt =====
-- A small world to run the program in: toxcore, Boost and the database as concrete functions, and
-- two members online.
pub mod Server
pub use Server.*
use find_friend_bot.Base.{
  ℕ, suc, ◌%◌, ◌+◌, ◌-◌, ◌≡◌, refl, true, false, not, ◌&&◌, Option, none, some, List, [], ◌∷◌, ◌++◌,
  Text, codes, text_eq, text_eq_iff, text_lt, take, ◌==◌, leb, if◌then◌else◌, arith, Bool-cases,
  inl, inr,
}
use find_friend_bot.Lock.{pthread, unlocked}
use find_friend_bot.LockedQueue.{Ptr, Locking}
use find_friend_bot.Member.{Member, member}
use find_friend_bot.Map.{find, assign}
use find_friend_bot.Logger.{severity_of, fill_map_severity}
use find_friend_bot.Assisant.Commands.{logs_debug}
use find_friend_bot.MemberMgr.{MemberMgr}
use find_friend_bot.MemberMgr.Invariant.{IsValid}
use find_friend_bot.DbConn.{DbConn, no_connections, init}
use find_friend_bot.DbConn.Laws.{IsReady}
use find_friend_bot.Conf.{Conf, empty_conf}
use find_friend_bot.Toolkit.{Tox, Boost, Sodium}
use find_friend_bot.World.{Env, World}
use find_friend_bot.Assisant.Start.{IsRunning}
use find_friend_bot.Assisant.Upkeep.{IsUp, Formats}

-- toxcore's state: what `rand()` gives next, and the chunks it was sent.
pub record Net : Type 0 where
  pub next_rand : ℕ
  pub chunks : List Text

abbrev pub tox : Tox Net
tox = record {
  friend_get_public_key = λ n _. (true, (97 + n % 26) ∷ []);
  friend_by_public_key = λ _ _. some 3;
  friend_get_name_size = λ n _. if n == 9 then none else some 3;
  friend_get_name = λ _ _. some (codes "bob");
  friend_get_status_message_size = λ _ _. some 5;
  friend_get_status_message = λ _ _. some (codes "hello");
  friend_send_message = λ n _ t. (not (n == 7), t);
  friend_add_norequest = λ _ t. t;
  add_timer_event = λ _ _ _ t. t;
  hash = λ bytes. take 2 bytes;
  file_send = λ _ _ _ _ t. (true, t);
  file_send_chunk = λ _ _ _ bytes t. (true, record t { chunks = bytes ∷ t.chunks });
  get_savedata = λ t. t.next_rand ∷ [];
  unixtime = λ _. 1500000000;
  rand = λ t. (t.next_rand, record t { next_rand = suc t.next_rand });
}

abbrev upper : Text → Text
upper [] = []
upper (c ∷ cs) = (if leb 97 c && leb c 122 then c - 32 else c) ∷ upper cs

abbrev lower : Text → Text
lower [] = []
lower (c ∷ cs) = (if leb 65 c && leb c 90 then c + 32 else c) ∷ lower cs

abbrev all_of : List Text → Text
all_of [] = []
all_of (a ∷ rest) = a ++ all_of rest

abbrev pub boost : Boost
boost = record {
  to_lower = lower;
  to_upper = upper;
  replace_all = λ s _ _. s;
  format = λ pattern args. some (pattern ++ all_of args);
}

abbrev pub sodium : Sodium
sodium = record { bin2hex = λ bytes. bytes; hex2bin = λ hex. hex }

abbrev pub locking : Locking
locking = record { threads = pthread; self = 1 }

abbrev pub conf : Conf
conf = record (empty_conf) {
  log_level = codes "info";
  save_data_file = codes "tox";
  save_data_tmp_file = codes "tmp";
  avatar_filename = codes "png";
  desc_start = codes "started";
  desc_help = codes "help";
  desc_get_none = codes "nobody";
}

abbrev pub env : Env Net Table
env = record {
  tox = tox;
  boost = boost;
  sodium = sodium;
  sql = server;
  locking = locking;
  conf = conf;
}

-- The keys of friends 0 and 1, who are online, and of friend 2, who is not.
abbrev pub ann : Text
ann = codes "A"

abbrev pub ben : Text
ben = codes "B"

abbrev pub cat : Text
cat = codes "C"

abbrev pub ann_object : Member
ann_object = member ann (codes "T1") (codes "ann") (codes "hi") []

abbrev pub ben_object : Member
ben_object = member ben (codes "T2") (codes "ben") (codes "yo") (codes "sig")

abbrev pub two_cells : Ptr → Option Member
two_cells q = if q == 1 then some ann_object else if q == 2 then some ben_object else none

-- The third object is in the pool.
abbrev pub two_online : MemberMgr
two_online = record {
  online_member = (ann, 1) ∷ (ben, 2) ∷ [];
  free_list = record {
    next = 4;
    cell = λ q. if q == 3 then some (member [] [] [] [] []) else two_cells q;
    free_list = 3 ∷ [];
    lock = unlocked;
  };
}

keyed_two :
    (pk : Text) (q : Ptr)
    → find pk two_online.online_member ≡ some q
    → (a : Member) × (two_online.free_list.cell q ≡ some a) × (a.pk ≡ pk)
unfolding find
keyed_two pk q e = elim (Bool-cases (text_eq ann pk)) [
  | inl f ↦ (ann_object, ground (arith), (text_eq_iff ann pk).0 f)
  | inr f ↦ elim (Bool-cases (text_eq ben pk)) [
    | inl g ↦ (ben_object, ground (arith), (text_eq_iff ben pk).0 g)
    | inr g ↦ absurd (ground arith)
  ]
]

pub two_online-IsValid : IsValid [] two_online
unfolding text_lt
two_online-IsValid = record {
  owned = record {
    one_owner = λ q. ground arith;
    null_dead = refl;
    fresh = λ q h. ground (arith, h);
    started = omega arith;
    lock_free = refl;
    bounded = omega arith;
  };
  sorted = ((refl, tt), (tt, tt));
  keyed = keyed_two;
}

abbrev pub pool : DbConn
pool = init (codes "h") (codes "u") (codes "p") (codes "d") 2 no_connections

pub pool-IsReady : IsReady pool
pool-IsReady = record { set_up = refl; lock_free = refl; no_null = tt; bounded = omega arith }

abbrev pub avatar : Text
avatar = codes "avatar"

abbrev pub world : World Net Table
world = record {
  store = record { db = record { pool = pool; server = λ _. none }; member_mgr = two_online };
  network = record { next_rand = 5; chunks = [] };
  files = λ name. if text_eq name (codes "png") then some avatar else none;
  writable = λ _. true;
  avatar_data = none;
  avatar_data_size = 0;
  sent = [];
}

pub world-IsRunning : IsRunning env [] world
world-IsRunning = record { ready = pool-IsReady; valid = two_online-IsValid }

pub world-IsUp : IsUp env world
world-IsUp = record { loose = []; running = world-IsRunning; tmp_opens = refl; avatar = refl }

pub env-Formats : Formats env
unfolding logs_debug severity_of fill_map_severity find assign text_eq text_lt
env-Formats = record {
  quiet = refl;
  get_shows = λ a b c d. (_, refl);
  info_shows = λ a b c. (_, refl);
}
