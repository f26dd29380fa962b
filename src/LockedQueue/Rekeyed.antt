-- ===== src/LockedQueue/Rekeyed.antt =====
-- The specialization of `lock_queue` beside the generic template.
use find_friend_bot.Base.{
  ◌≡◌, ◌≤◌, ◌≢◌, refl, sym, ap, ◌∙◌, fun_ext, false, Option, none, some, List, [], ◌∷◌, ◌==◌,
  if◌then◌else◌, length, ok, Cmd, arith, ◌>>=◌, ◌>>◌, Option-cases, Bool-cases, inl, inr,
}
use find_friend_bot.Lock.{unlocked}
use find_friend_bot.LockedQueue
use find_friend_bot.LockedQueue.{
  Ptr, null, Pool, Pooled, Locking, acquire, release, clear_one, clear_each, write,
}
use find_friend_bot.LockedQueue.Clear.{clear_one_lem}
use find_friend_bot.LockedQueue.Keyed
use find_friend_bot.LockedQueue.Keyed.{KeyedType, delete_each}

module _ {A : Type 0} ⦃t : Pooled A⦄ where
  -- To wipe an object that is deleted at once makes no difference.
  write_twice :
      (h : Ptr → Option A) (q : Ptr) (c d : Option A) → write h q d ≡ write (write h q c) q d
  write_twice h q c d =
      fun_ext λ r. elim (Bool-cases (r == q)) [ inl e ↦ rw e refl | inr e ↦ rw e refl ]

  delete_lem :
      (q : Ptr) (p : Pool A) (a : A)
      → (q == null) ≡ false
      → p.cell q ≡ some a
      → (if q == null then ok tt else LockedQueue.delete q) p
        ≡ ok tt (record p { cell = write p.cell q none })
  unfolding LockedQueue.delete
  delete_lem q p a e f = rw (e, f, e) refl

  clear_one_same :
      (q : Ptr) (p : Pool A) → (if q == null then ok tt else LockedQueue.delete q) p ≡ clear_one q p
  unfolding clear_one LockedQueue.delete
  clear_one_same q p = elim (Bool-cases (q == null)) [
    | inl e ↦ rw e refl
    | inr e ↦ elim (Option-cases (p.cell q)) [
      | inl f ↦ rw (e, f, e) refl
      | inr (a, f) ↦
          let some_object : q ≢ null = ground (arith, e) in
          delete_lem q p a e f
          ∙ ap (λ (h : Ptr → Option A). ok tt (record p { cell = h }))
              (write_twice p.cell q (some (t.wiped a)) none)
          ∙ sym (clear_one_lem p q a some_object f)
    ]
  ]

  delete_each-clear_each : (qs : List Ptr) → delete_each {A = A} qs ≡ clear_each qs
  unfolding delete_each clear_each
  delete_each-clear_each [] = refl
  delete_each-clear_each (q ∷ qs) =
      rw (delete_each-clear_each qs)
        (ap (λ (x : Cmd (Pool A) (Unit {0})). clear_each qs >> x) (fun_ext (clear_one_same q)))

  -- `clear` of the specialization for `std::list` ends in the same state, or in the same fault, as
  -- `clear` of the template, although it wipes no object.
  pub clear-clear : (k : Locking) → Keyed.clear {A = A} k ≡ LockedQueue.clear k
  unfolding Keyed.clear LockedQueue.clear
  clear-clear k = rw (fun_ext delete_each-clear_each) refl

module _ {Key A : Type 0} (t : KeyedType Key A) (k : Locking) where
  -- The object that was put back is handed out next, for any key: the key does not count.
  pub deallcate-allocate :
      (p : Pool A) (v : Ptr) (key : Key)
      → p.lock ≡ unlocked
      → v ≢ null
      → length p.free_list ≤ t.max_pool_size
      → (Keyed.deallcate t k v >>= λ _. Keyed.allocate t k key) p ≡ ok v p
  unfolding Keyed.deallcate Keyed.allocate
  deallcate-allocate p v key free n room = ground arith
