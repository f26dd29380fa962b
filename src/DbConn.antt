-- ===== src/DbConn.antt =====
-- src/DBConn.h and src/DBConn.cpp: the pool of database connections. The head of `free_list` is the
-- back of the `std::list`.
pub mod Laws
pub mod Outage
use find_friend_bot.Base.{
  ℕ, Bool, not, true, false, Option, none, some, List, [], ◌∷◌, Text, ◌==◌, ltb, if◌then◌else◌,
  length, Run, ok, fault, Cmd, null_pointer, deadlock, out_of_range, pure, ◌>>=◌, ◌>>◌,
}
use find_friend_bot.Lock.{Mutex, unlocked, acquire_lock, release_lock}
use find_friend_bot.LockedQueue.{Locking}
use find_friend_bot.Sql.{Sql}

pub record DbConn : Type 0 where
  -- whether `driver_` is set
  pub driver : Bool
  pub db_host : Text
  pub db_user : Text
  pub db_passwd : Text
  pub db_name : Text
  pub max_conn : ℕ
  pub free_list : List ℕ
  pub lock : Mutex

-- `DBConn()`
abbrev pub no_connections : DbConn
no_connections = record {
  driver = false;
  db_host = [];
  db_user = [];
  db_passwd = [];
  db_name = [];
  max_conn = 0;
  free_list = [];
  lock = unlocked;
}

-- `init(…)`
abbrev pub init : Text → Text → Text → Text → ℕ → DbConn → DbConn
init db_host db_user db_passwd db_name max_conn c = record c {
  driver = true;
  db_host = db_host;
  db_user = db_user;
  db_passwd = db_passwd;
  db_name = db_name;
  max_conn = max_conn;
}

-- The pool, and what is behind the connections.
pub record Db (S : Type 0) : Type 0 where
  pub pool : DbConn
  pub server : S

module _ {S : Type 0} where
  -- A call that may throw, and one that does not.
  abbrev pub call : {A : Type 0} → (S → A × S) → Cmd (Db S) A
  call f d = ok (f d.server).0 (record d { server = (f d.server).1 })

  abbrev pub ask : {A : Type 0} → (S → A) → Cmd (Db S) A
  ask f d = ok (f d.server) d

  abbrev set_lock : Mutex → Db S → Db S
  set_lock m d = record d { pool = record (d.pool) { lock = m } }

  abbrev set_free_list : List ℕ → Db S → Db S
  set_free_list cs d = record d { pool = record (d.pool) { free_list = cs } }

  module _ (k : Locking) where
    unfoldable pub acquire : Cmd (Db S) (Unit {0})
    unfolding acquire_lock
    acquire d = elim (acquire_lock k.threads k.self d.pool.lock) [
      | none ↦ fault deadlock
      | some (_, m) ↦ ok tt (set_lock m d)
    ]

    unfoldable pub release_it : Cmd (Db S) (Unit {0})
    unfolding release_lock
    release_it d = ok tt (set_lock (release_lock k.threads d.pool.lock).1 d)

  module _ (sql : Sql S) where
    -- `delete conn`
    abbrev disposed : ℕ → Cmd (Db S) (Unit {0})
    disposed c d = ok tt (record d { server = sql.dispose c d.server })

    -- The handler: `delete conn; conn = nullptr`.
    give_up : ℕ → Cmd (Db S) ℕ
    give_up c = disposed c >> pure 0

    -- The statements of the `try` block behind `isValid`, each of which may throw.
    set_up : ℕ → Cmd (Db S) ℕ
    unfolding give_up
    set_up c = do
      named ← call (sql.set_names c)
      if not named then give_up c else do
        chosen ← (λ d. call (sql.set_schema c d.pool.db_name) d)
        if not chosen then give_up c else do
          committing ← call (sql.set_auto_commit c)
          if committing then pure c else give_up c

    connected : Option ℕ → Cmd (Db S) ℕ
    unfolding set_up
    connected none = pure 0
    connected (some c) = do valid ← ask (sql.is_valid c); if valid then set_up c else pure c

    pub dial : Cmd (Db S) ℕ
    unfolding connected
    dial d =
        (call (sql.connect d.pool.db_host d.pool.db_user d.pool.db_passwd d.pool.db_name)
            >>= connected)
          d

    -- Before `init` the driver is a null pointer.
    unfoldable pub create_connection : Cmd (Db S) ℕ
    unfolding dial
    create_connection d = if d.pool.driver then dial d else fault null_pointer

    unfoldable pub destroy : ℕ → Cmd (Db S) (Unit {0})
    destroy c =
        if c == 0
        then (λ _. fault null_pointer)
        else do closed ← call (sql.close c); if closed then disposed c else pure tt

    -- A connection from the list; one that is closed is replaced.
    reuse : ℕ → Cmd (Db S) ℕ
    unfolding create_connection
    reuse c = if c == 0 then (λ _. fault null_pointer) else do
      closed ← ask (sql.is_closed c)
      if closed then disposed c >> create_connection else pure c

    pub take_or_create : Cmd (Db S) ℕ
    unfolding reuse create_connection
    take_or_create d = elim d.pool.free_list [
      | [] ↦ create_connection d
      | c ∷ rest ↦ reuse c (set_free_list rest d)
    ]

    unfoldable pub allocate : Locking → Cmd (Db S) ℕ
    unfolding acquire release_it take_or_create
    allocate k = do acquire k; conn ← take_or_create; release_it k; pure conn

    push_back : Locking → ℕ → Cmd (Db S) (Unit {0})
    unfolding acquire release_it
    push_back k c = do
      acquire k
      (λ d. ok tt (set_free_list (c ∷ d.pool.free_list) d))
      release_it k

    unfoldable pub release : Locking → ℕ → Cmd (Db S) (Unit {0})
    unfolding destroy push_back
    release k c d =
        if ltb d.pool.max_conn (length d.pool.free_list) then destroy c d else push_back k c d

    -- `~DBConn()`: the list itself goes with the object.
    unfoldable pub destroy_each : List ℕ → Cmd (Db S) (Unit {0})
    unfolding destroy
    destroy_each [] = pure tt
    destroy_each (c ∷ cs) = destroy_each cs >> (if c == 0 then pure tt else destroy c)
