-- ===== src/LockedQueue/Threads.antt =====
-- src/LockedQueue.h: `allocate` and `deallcate` in steps, of which any thread may make the next. Both
-- look at the free list before they take the lock.
use find_friend_bot.Base.{
  ℕ, ◌≡◌, Option, none, some, [], ◌∷◌, at, ◌==◌, ltb, if◌then◌else◌, length, Run, ok, fault,
  out_of_range,
}
use find_friend_bot.Lock.{Threading, Mutex, acquire_lock, release_lock}
use find_friend_bot.LockedQueue.{Ptr, null, Pooled, Pool, new, delete}

pub data Call : Type 0 where
  allocate : Call
  deallcate : Ptr → Call

-- Where a thread is: outside; in `allocate`, behind the test, behind the lock and behind `back()`;
-- in `deallcate`, behind the tests and behind the lock; or in front of the unlock.
pub data Pc : Type 0 where
  idle : Pc
  tested : Pc
  locked : Pc
  popping : Ptr → Pc
  returning : Ptr → Pc
  pushing : Ptr → Pc
  leaving : Pc

pub record System (A : Type 0) : Type 0 where
  pub pool : Pool A
  pub pc : ℕ → Pc

module _ {A : Type 0} where
  abbrev pub and_then_idle : {B : Type 0} → Run (Pool A) B → Run (Pool A) Pc
  and_then_idle (ok b p) = ok idle p
  and_then_idle (fault e) = fault e

  -- A thread in front of the lock; `none` if it waits.
  abbrev pub lock_and : Pc → Pool A → Option (ℕ × Mutex) → Option (Run (Pool A) Pc)
  lock_and pc p none = none
  lock_and pc p (some (_, m)) = some (ok pc (record p { lock = m }))

  module _ ⦃c : Pooled A⦄ where
    -- The next step of the thread `t`, which makes the call if it is outside.
    unfoldable pub next : Threading → ℕ → Call → Pool A → Pc → Option (Run (Pool A) Pc)
    next k t allocate p idle =
        some (elim p.free_list [ [] ↦ and_then_idle (new c.blank p) | q ∷ rest ↦ ok tested p ])
    next k t (deallcate v) p idle = some (
        if v == null
        then ok idle p
        else if ltb c.max_pool_size (length p.free_list)
        then and_then_idle (delete v p)
        else ok (returning v) p)
    next k t call p tested = lock_and locked p (acquire_lock k t p.lock)
    next k t call p locked =
        some (elim p.free_list [ [] ↦ fault out_of_range | q ∷ rest ↦ ok (popping q) p ])
    next k t call p (popping q) = some (elim p.free_list [
      | [] ↦ fault out_of_range
      | _ ∷ rest ↦ ok leaving (record p { free_list = rest })
    ])
    next k t call p (returning v) = lock_and (pushing v) p (acquire_lock k t p.lock)
    next k t call p (pushing v) = some (ok leaving (record p { free_list = v ∷ p.free_list }))
    next k t call p leaving = some (ok idle (record p { lock = (release_lock k p.lock).1 }))

  module _ ⦃c : Pooled A⦄ where
    pub data Step (k : Threading) (s : System A) : System A → Type 0 where
      pick :
          (t : ℕ) (call : Call) {p : Pool A} {pc : Pc}
          → next k t call s.pool (s.pc t) ≡ some (ok pc p)
          → Step k s (record { pool = p; pc = at s.pc t pc })

    -- From a pool that no thread is at.
    pub data Reach (k : Threading) (p : Pool A) : System A → Type 0 where
      start : Reach k p (record { pool = p; pc = λ _. idle })
      later : {s s' : System A} → Reach k p s → Step k s s' → Reach k p s'
