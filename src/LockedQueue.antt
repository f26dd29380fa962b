-- ===== src/LockedQueue.antt =====
-- src/LockedQueue.h: `lock_queue`, the pool of objects behind a lock, with the heap that its
-- objects live on. The head of `free_list` is the back of the `std::list`.
pub mod Clear
pub mod Container
pub mod Contained
pub mod Threads
pub mod Holders
pub mod Knowing
pub mod Keyed
pub mod Limit
pub mod Handing
pub mod Totals
pub mod Ownership
pub mod Races
pub mod Rekeyed
use find_friend_bot.Base.{
  ℕ, suc, ◌≡◌, Option, none, some, List, [], ◌∷◌, ◌==◌, ltb, if◌then◌else◌, length, Run, ok, fault,
  Cmd, Fault, null_pointer, dangling, deadlock, out_of_range, pure, ◌>>=◌, ◌>>◌,
}
use find_friend_bot.Lock.{Threading, Mutex, unlocked, acquire_lock, release_lock}

-- A pointer to an object; 0 is the null pointer.
abbrev pub Ptr : Type 0
Ptr = ℕ

abbrev pub null : Ptr
null = 0

-- What the template asks of `_Type`.
pub record Pooled (A : Type 0) : Type 0 where
  pub blank : A
  pub wiped : A → A
  pub max_pool_size : ℕ

-- The build's threads, and the calling one.
pub record Locking : Type 0 where
  pub threads : Threading
  pub self : ℕ

pub record Pool (A : Type 0) : Type 0 where
  pub next : Ptr
  pub cell : Ptr → Option A
  pub free_list : List Ptr
  pub lock : Mutex

abbrev pub empty_pool : (A : Type 0) → Pool A
empty_pool A = record { next = 1; cell = λ _. none; free_list = []; lock = unlocked }

module _ {A : Type 0} where
  -- `*q`
  unfoldable pub load : Ptr → Cmd (Pool A) A
  load q p =
      if q == null
      then fault null_pointer
      else elim (p.cell q) [ none ↦ fault dangling | some a ↦ ok a p ]

  abbrev pub write : (Ptr → Option A) → Ptr → Option A → Ptr → Option A
  write h q c r = if r == q then c else h r

  -- `*q = a`
  unfoldable pub store : Ptr → A → Cmd (Pool A) (Unit {0})
  store q a p = if q == null then fault null_pointer else elim (p.cell q) [
    | none ↦ fault dangling
    | some _ ↦ ok tt (record p { cell = write p.cell q (some a) })
  ]

  -- `new _Type(…)`, at an address that was never used.
  unfoldable pub new : A → Cmd (Pool A) Ptr
  new a p = ok p.next (record p { next = suc p.next; cell = write p.cell p.next (some a) })

  -- `delete q`
  unfoldable pub delete : Ptr → Cmd (Pool A) (Unit {0})
  delete q p = if q == null then ok tt p else elim (p.cell q) [
    | none ↦ fault dangling
    | some _ ↦ ok tt (record p { cell = write p.cell q none })
  ]

  abbrev back : Cmd (Pool A) Ptr
  back p = elim p.free_list [ [] ↦ fault out_of_range | q ∷ rest ↦ ok q p ]

  abbrev pop_back : Cmd (Pool A) (Unit {0})
  pop_back p = elim p.free_list [
    | [] ↦ fault out_of_range
    | q ∷ rest ↦ ok tt (record p { free_list = rest })
  ]

  abbrev push_back : Ptr → Cmd (Pool A) (Unit {0})
  push_back q p = ok tt (record p { free_list = q ∷ p.free_list })

  module _ ⦃t : Pooled A⦄ where
    pub clear_one : Ptr → Cmd (Pool A) (Unit {0})
    unfolding load store delete
    clear_one q = if q == null then pure tt else do a ← load q; store q (t.wiped a); delete q

    -- The loop of `clear`, from `begin()` to `end()`.
    clear_each : List Ptr → Cmd (Pool A) (Unit {0})
    unfolding clear_one
    clear_each [] = pure tt
    clear_each (q ∷ qs) = clear_each qs >> clear_one q

  module _ (k : Locking) where
    -- `lock_.acquire_lock()`; a wait with no one to end it is a deadlock.
    unfoldable pub acquire : Cmd (Pool A) (Unit {0})
    unfolding acquire_lock
    acquire p = elim (acquire_lock k.threads k.self p.lock) [
      | none ↦ fault deadlock
      | some (_, m) ↦ ok tt (record p { lock = m })
    ]

    -- `lock_.release_lock()`
    unfoldable pub release : Cmd (Pool A) (Unit {0})
    unfolding release_lock
    release p = ok tt (record p { lock = (release_lock k.threads p.lock).1 })

    take_back : Cmd (Pool A) Ptr
    take_back = do acquire; ret ← back; pop_back; release; pure ret

    put_back_of_list : Ptr → Cmd (Pool A) (Unit {0})
    put_back_of_list q = do acquire; push_back q; release

    module _ ⦃t : Pooled A⦄ where
      unfoldable pub allocate : Cmd (Pool A) Ptr
      unfolding take_back acquire release new
      allocate p = elim p.free_list [ [] ↦ new t.blank p | q ∷ rest ↦ take_back p ]

      unfoldable pub deallcate : Ptr → Cmd (Pool A) (Unit {0})
      unfolding put_back_of_list acquire release delete
      deallcate v p =
          if v == null
          then ok tt p
          else if ltb t.max_pool_size (length p.free_list)
          then delete v p
          else put_back_of_list v p

    unfoldable pub free_size : Cmd (Pool A) ℕ
    unfolding acquire release
    free_size = do acquire; size ← (λ p. ok (length p.free_list) p); release; pure size

    module _ ⦃t : Pooled A⦄ where
      unfoldable pub clear : Cmd (Pool A) (Unit {0})
      unfolding clear_each acquire release
      clear = do
        acquire
        qs ← (λ p. ok p.free_list p)
        clear_each qs
        (λ p. ok tt (record p { free_list = [] }))
        release
