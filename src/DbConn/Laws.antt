-- ===== src/DbConn/Laws.antt =====
-- The pool of connections where the database is up.
use find_friend_bot.Base.{
  ℕ, suc, ◌≤◌, ◌≡◌, ◌≢◌, refl, ◌∙◌, true, false, Option, some, List, [], ◌∷◌, Text, arith, ◌==◌,
  length, ok, Returns, returns, Returns-bind, Returns-mono, sym, subst, ◌>>=◌, Bool-cases, inl, inr,
}
use find_friend_bot.Lock.{unlocked, locked_by, acquire_free, release_taken}
use find_friend_bot.LockedQueue.{Locking}
use find_friend_bot.Sql.{Sql, Row}
use find_friend_bot.Sql.Healthy.{Healthy}
use find_friend_bot.DbConn.{
  DbConn, Db, set_up, connected, dial, create_connection, set_lock, set_free_list, reuse,
  take_or_create, allocate, release, acquire,
}

abbrev pub NoNull : List ℕ → Type 0
NoNull [] = Unit {0}
NoNull (c ∷ cs) = (c ≢ 0) × NoNull cs

-- The pool was set up, its lock is free, and it holds at most one connection more than `max_conn`.
pub record IsReady (p : DbConn) : Type 0 where
  pub set_up : p.driver ≡ true
  pub lock_free : p.lock ≡ unlocked
  pub no_null : NoNull p.free_list
  pub bounded : length p.free_list ≤ suc p.max_conn

pub create_connection_eq :
    {S : Type 0} (sql : Sql S) (d : Db S)
    → d.pool.driver ≡ true
    → create_connection sql d ≡ dial sql d
unfolding create_connection
create_connection_eq sql d e = ground arith

pub take_nil :
    {S : Type 0} (sql : Sql S) (d : Db S)
    → d.pool.free_list ≡ []
    → take_or_create sql d ≡ create_connection sql d
unfolding take_or_create
take_nil sql d e = ground arith

take_cons :
    {S : Type 0} (sql : Sql S) (d : Db S) (c : ℕ) (cs : List ℕ)
    → d.pool.free_list ≡ c ∷ cs
    → take_or_create sql d ≡ reuse sql c (set_free_list cs d)
unfolding take_or_create
take_cons sql d c cs e = ground arith

pub acquire_eq :
    {S : Type 0} (k : Locking) (d : Db S)
    → d.pool.lock ≡ unlocked
    → acquire k d ≡ ok tt (set_lock (locked_by k.threads k.self) d)
unfolding acquire
acquire_eq k d l = ground (arith, acquire_free k.threads k.self)

-- A connection is put back where the list has room.
release_room :
    {S : Type 0} (sql : Sql S) (k : Locking) (c : ℕ) (d : Db S)
    → d.pool.lock ≡ unlocked
    → length d.pool.free_list ≤ d.pool.max_conn
    → release sql k c d ≡ ok tt (set_free_list (c ∷ d.pool.free_list) d)
unfolding release
release_room sql k c d l room = ground (arith, acquire_eq k d l, release_taken k.threads k.self)

module _ {S : Type 0} {sql : Sql S} {rows : S → Text → Option Row} (h : Healthy sql rows) where
  -- A connection that is not null, with the table as it was.
  abbrev Created : Db S → ℕ → Db S → Type 0
  Created d c d' = (c ≢ 0) × (d'.pool ≡ d.pool) × (rows d'.server ≡ rows d.server)

  set_up-Created : (c : ℕ) (d : Db S) → c ≢ 0 → Returns (Created d) (set_up sql c d)
  unfolding set_up
  set_up-Created c d n =
      let (named, same) = h.names c d.server in
      let (chosen, same') = h.schemas c d.pool.db_name (sql.set_names c d.server).1 in
      let (committing, same'') =
        h.commits c (sql.set_schema c d.pool.db_name (sql.set_names c d.server).1).1 in
      rw (named, chosen, committing) (returns (n, refl, same'' ∙ same' ∙ same))

  connected-Created : (c : ℕ) (d : Db S) → c ≢ 0 → Returns (Created d) (connected sql (some c) d)
  unfolding connected
  connected-Created c d n = elim (Bool-cases (sql.is_valid c d.server)) [
    | inl e ↦ rw e (set_up-Created c d n)
    | inr e ↦ rw e (returns (n, refl, refl))
  ]

  dial-Created : (d : Db S) → Returns (Created d) (dial sql d)
  unfolding dial
  dial-Created d =
      let (c, got, n, same) =
        h.connects d.pool.db_host d.pool.db_user d.pool.db_passwd d.pool.db_name d.server in
      rw got (Returns-mono (connected-Created c _ n) λ c' d' (n', p, r). (n', p, r ∙ same))

  create_connection-Created :
      (d : Db S) → d.pool.driver ≡ true → Returns (Created d) (create_connection sql d)
  create_connection-Created d e =
      subst (Returns (Created d)) (sym (create_connection_eq sql d e)) (dial-Created d)

  reuse-Created :
      (c : ℕ) (d : Db S) → d.pool.driver ≡ true → c ≢ 0 → Returns (Created d) (reuse sql c d)
  unfolding reuse
  reuse-Created c d e n =
      let some_conn : (c == 0) ≡ false = ground arith in
      elim (Bool-cases (sql.is_closed c d.server)) [
        | inl k ↦
            rw (some_conn, k)
              (Returns-mono (create_connection-Created _ e)
                λ c' d' (n', p, r). (n', p, r ∙ h.disposes c d.server))
        | inr k ↦ rw (some_conn, k) (returns (n, refl, refl))
      ]

  -- A connection out of the pool or new; the pool has room for it.
  abbrev pub Taken : Db S → ℕ → Db S → Type 0
  Taken d c d' =
      (c ≢ 0)
      × IsReady d'.pool
      × (length d'.pool.free_list ≤ d'.pool.max_conn)
      × (rows d'.server ≡ rows d.server)

  -- The same while the lock is held.
  record Holds (d : Db S) (c : ℕ) (d' : Db S) : Type 0 where
    some_conn : c ≢ 0
    set_up_still : d'.pool.driver ≡ true
    no_null_left : NoNull d'.pool.free_list
    room : length d'.pool.free_list ≤ d'.pool.max_conn
    lock_kept : d'.pool.lock ≡ d.pool.lock
    table : rows d'.server ≡ rows d.server

  take_or_create-Holds :
      (cs : List ℕ) (d : Db S)
      → d.pool.free_list ≡ cs
      → d.pool.driver ≡ true
      → NoNull cs
      → length cs ≤ suc d.pool.max_conn
      → Returns (Holds d) (take_or_create sql d)
  take_or_create-Holds [] d e u n b = subst (Returns (Holds d)) (sym (take_nil sql d e)) (
      Returns-mono (create_connection-Created d u) λ c d' (some_conn, p, r). record {
        some_conn = some_conn;
        set_up_still = rw p u;
        no_null_left = rw (p, e) tt;
        room = rw (p, e) (omega arith);
        lock_kept = rw p refl;
        table = r;
      })
  take_or_create-Holds (c ∷ cs) d e u n b =
      subst (Returns (Holds d)) (sym (take_cons sql d c cs e)) (
        Returns-mono (reuse-Created c (set_free_list cs d) u n.0) λ c' d' (some_conn, p, r).
          record {
            some_conn = some_conn;
            set_up_still = rw p u;
            no_null_left = rw p (n.1);
            room = rw p (omega arith);
            lock_kept = rw p refl;
            table = r;
          })

  module _ (k : Locking) where
    -- `allocate` gives a connection.
    pub allocate-Taken : {d : Db S} → IsReady d.pool → Returns (Taken d) (allocate sql k d)
    unfolding allocate
    allocate-Taken {d} v = rw (acquire_eq k d v.lock_free) (
        Returns-bind
          (take_or_create-Holds d.pool.free_list (set_lock (locked_by k.threads k.self) d) refl
            v.set_up v.no_null v.bounded)
          λ c d' w. returns (
            w.some_conn,
            record {
              set_up = w.set_up_still;
              lock_free = rw w.lock_kept (release_taken k.threads k.self);
              no_null = w.no_null_left;
              bounded = omega (arith, w.room);
            },
            w.room,
            w.table,
          ))

-- `release` puts it back, and asks nothing of the server.
pub release-IsReady :
    {S : Type 0} (sql : Sql S) (k : Locking) {d : Db S} {c : ℕ}
    → IsReady d.pool
    → length d.pool.free_list ≤ d.pool.max_conn
    → c ≢ 0
    → Returns (λ _ d'. IsReady d'.pool × (d'.server ≡ d.server)) (release sql k c d)
release-IsReady sql k {d} {c} v room n = rw (release_room sql k c d v.lock_free room) (
    returns (
      record {
        set_up = v.set_up;
        lock_free = v.lock_free;
        no_null = (n, v.no_null);
        bounded = omega arith;
      },
      refl,
    ))

-- In a pool that was set up and has room, a connection that is released while it is open is the
-- next that `allocate` gives, and the pool and the server are as they were.
pub allocate-release :
    {S : Type 0} (sql : Sql S) (k : Locking) {d : Db S} {c : ℕ}
    → IsReady d.pool
    → length d.pool.free_list ≤ d.pool.max_conn
    → c ≢ 0
    → sql.is_closed c d.server ≡ false
    → (release sql k c >>= λ _. allocate sql k) d ≡ ok c d
unfolding allocate reuse
allocate-release sql k {d} {c} v room n open_still = rw (release_room sql k c d v.lock_free room) (
    ground (
      arith,
      acquire_eq k (set_free_list (c ∷ d.pool.free_list) d),
      release_taken k.threads k.self,
      take_cons sql (set_lock (locked_by k.threads k.self) (set_free_list (c ∷ d.pool.free_list) d))
          c d.pool.free_list,
    ))
