-- ===== src/LockedQueue/Container.antt =====
-- src/LockedQueue.h: `lock_container`, a map of pointers behind a lock, with the heap that its
-- objects live on. Its keys are texts.
use find_friend_bot.Base.{
  Option, none, some, List, [], ◌∷◌, Text, ◌==◌, if◌then◌else◌, ok, fault, Cmd, dangling, deadlock,
  pure, ◌>>=◌, ◌>>◌,
}
use find_friend_bot.Map
use find_friend_bot.Map.{assign, erase, values}
use find_friend_bot.Lock.{Mutex, acquire_lock, release_lock}
use find_friend_bot.LockedQueue.{Ptr, null, Locking, write}

pub record Container (A : Type 0) : Type 0 where
  pub cell : Ptr → Option A
  pub container : List (Text × Ptr)
  pub lock : Mutex

-- `container_.find(key)`; null if it is `end()`.
abbrev pub found : Option Ptr → Ptr
found none = null
found (some q) = q

module _ {A : Type 0} where
  -- `delete q`
  unfoldable pub delete : Ptr → Cmd (Container A) (Unit {0})
  delete q c = if q == null then ok tt c else elim (c.cell q) [
    | none ↦ fault dangling
    | some _ ↦ ok tt (record c { cell = write c.cell q none })
  ]

  -- The loop of `clear`.
  unfoldable pub delete_each : List Ptr → Cmd (Container A) (Unit {0})
  delete_each [] = pure tt
  delete_each (q ∷ qs) = delete q >> delete_each qs

  module _ (k : Locking) where
    unfoldable pub acquire : Cmd (Container A) (Unit {0})
    unfolding acquire_lock
    acquire c = elim (acquire_lock k.threads k.self c.lock) [
      | none ↦ fault deadlock
      | some (_, m) ↦ ok tt (record c { lock = m })
    ]

    unfoldable pub release : Cmd (Container A) (Unit {0})
    unfolding release_lock
    release c = ok tt (record c { lock = (release_lock k.threads c.lock).1 })

    unfoldable pub insert : Text → Ptr → Cmd (Container A) (Unit {0})
    unfolding acquire release
    insert key val = do
      acquire
      (λ c. ok tt (record c { container = assign key val c.container }))
      release

    unfoldable pub remove : Text → Cmd (Container A) (Unit {0})
    unfolding acquire release
    remove key = do acquire; (λ c. ok tt (record c { container = erase key c.container })); release

    unfoldable pub find : Text → Cmd (Container A) Ptr
    unfolding acquire release
    find key = do acquire; type ← (λ c. ok (found (Map.find key c.container)) c); release; pure type

    -- Each value is set to null behind its `delete`, and then the map is emptied.
    unfoldable pub clear : Cmd (Container A) (Unit {0})
    unfolding delete_each acquire release
    clear = do
      acquire
      qs ← (λ c. ok (values c.container) c)
      delete_each qs
      (λ c. ok tt (record c { container = [] }))
      release
