-- ===== src/LockedQueue/Keyed.antt =====
-- src/LockedQueue.h: the specialization of `lock_queue` for `std::list`, under the macro
-- `__TOK_USE_EXPLCIT_SPECIALIZATION`. Its objects are made from a key.
use find_friend_bot.Base.{
  ℕ, List, [], ◌∷◌, ◌==◌, ltb, if◌then◌else◌, length, ok, Cmd, pure, ◌>>=◌, ◌>>◌,
}
use find_friend_bot.LockedQueue.{
  Ptr, null, Pool, Locking, new, delete, acquire, release, take_back, put_back_of_list,
}

-- What the template asks of `_Type`: the constructor `_Type(key)` and the limit.
pub record KeyedType (Key A : Type 0) : Type 0 where
  pub of_key : Key → A
  pub max_pool_size : ℕ

module _ {A : Type 0} where
  -- The loop of `clear`, from `begin()` to `end()`: nothing is wiped.
  unfoldable pub delete_each : List Ptr → Cmd (Pool A) (Unit {0})
  unfolding delete
  delete_each [] = pure tt
  delete_each (q ∷ qs) = delete_each qs >> (if q == null then pure tt else delete q)

module _ {Key A : Type 0} (t : KeyedType Key A) (k : Locking) where
  -- An object from the list is handed out as it is.
  unfoldable pub allocate : Key → Cmd (Pool A) Ptr
  unfolding take_back acquire release new
  allocate key p = elim p.free_list [ [] ↦ new (t.of_key key) p | q ∷ rest ↦ take_back k p ]

  unfoldable pub deallcate : Ptr → Cmd (Pool A) (Unit {0})
  unfolding put_back_of_list acquire release delete
  deallcate v p =
      if v == null
      then ok tt p
      else if ltb t.max_pool_size (length p.free_list)
      then delete v p
      else put_back_of_list k v p

module _ {A : Type 0} (k : Locking) where
  unfoldable pub free_size : Cmd (Pool A) ℕ
  unfolding acquire release
  free_size = do acquire k; size ← (λ p. ok (length p.free_list) p); release k; pure size

  unfoldable pub clear : Cmd (Pool A) (Unit {0})
  unfolding delete_each acquire release
  clear = do
    acquire k
    qs ← (λ p. ok p.free_list p)
    delete_each qs
    (λ p. ok tt (record p { free_list = [] }))
    release k

  -- `~lock_queue()`
  unfoldable pub destroy : Cmd (Pool A) (Unit {0})
  unfolding clear
  destroy = clear
