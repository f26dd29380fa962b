-- ===== src/LockedQueue/Clear.antt =====
-- `lock_queue::clear`, which the destructor calls.
use find_friend_bot.Base.{
  ◌≤◌, ◌≡◌, ◌≢◌, refl, none, some, List, [], ◌∷◌, ◌==◌, arith, if◌then◌else◌, count, is_some,
  Returns, returns, Returns-bind, Option-cases, inl, inr, true, ok,
}
use find_friend_bot.Lock.{unlocked, locked_by, acquire_free, release_taken}
use find_friend_bot.LockedQueue.{
  Ptr, null, Pooled, Locking, Pool, write, clear_one, clear_each, clear, acquire,
}
use find_friend_bot.LockedQueue.Ownership.{Owned}

module _ {A : Type 0} ⦃t : Pooled A⦄ where
  pub clear_one_lem :
      (p : Pool A) (q : Ptr) (a : A)
      → q ≢ null
      → p.cell q ≡ some a
      → clear_one q p ≡ ok tt (record p { cell = write (write p.cell q (some (t.wiped a))) q none })
  unfolding clear_one
  clear_one_lem p q a n e = ground arith

  -- `p'` is `p` less the objects of `qs`.
  abbrev Without : List Ptr → Pool A → Pool A → Type 0
  Without qs p p' =
      (p'.free_list ≡ p.free_list)
      × (p'.next ≡ p.next)
      × (p'.lock ≡ p.lock)
      × ((q : Ptr) → p'.cell q ≡ (if count q qs == 0 then p.cell q else none))

  clear_each-Without :
      (qs : List Ptr) (p : Pool A)
      → ((q : Ptr) → (count q qs ≤ 1) × (count q qs ≢ 0 → is_some (p.cell q) ≡ true))
      → p.cell null ≡ none
      → Returns (λ _ p'. Without qs p p') (clear_each qs p)
  unfolding clear_each
  clear_each-Without [] p h z = returns (refl, refl, refl, λ q. refl)
  clear_each-Without (q ∷ qs) p h z =
      Returns-bind (clear_each-Without qs p (λ r. ground (arith, h r)) z) λ _ s (f, n, l, c).
        elim (Option-cases (s.cell q)) [
          | inl e ↦ absurd (ground (arith, h q, c q))
          | inr (a, e) ↦
              rw (clear_one_lem s q a (λ x. ground (arith, c q)) e)
                (returns (f, n, l, λ r. ground (arith, c r, h r)))
        ]

module _ {A : Type 0} (k : Locking) ⦃t : Pooled A⦄ where
  acquire_eq :
      (p : Pool A)
      → p.lock ≡ unlocked
      → acquire k p ≡ ok tt (record p { lock = locked_by k.threads k.self })
  unfolding acquire
  acquire_eq p l = ground (arith, acquire_free k.threads k.self)

  -- In a pool whose objects each have one owner, `clear` ends without a fault, empties the free
  -- list, and keeps that each live object has one owner.
  pub clear-Owned :
      {p : Pool A} {held : List Ptr}
      → Owned t.max_pool_size p held
      → Returns (λ _ p'. (p'.free_list ≡ []) × Owned t.max_pool_size p' held) (clear k p)
  unfolding clear
  clear-Owned {p} {held} o = rw (acquire_eq p o.lock_free) (
      Returns-bind
        (clear_each-Without p.free_list (record p { lock = locked_by k.threads k.self })
          (λ q. ground (arith, o.one_owner q)) o.null_dead)
        λ _ s (f, n, l, c). returns (
          refl,
          record {
            one_owner = λ q. ground (arith, o.one_owner q, c q);
            null_dead = ground (arith, o.null_dead, c null);
            fresh = λ q h. ground (arith, o.fresh q, c q, n);
            started = ground (arith, o.started, n);
            lock_free = rw l (release_taken k.threads k.self);
            bounded = omega arith;
          },
        ))
