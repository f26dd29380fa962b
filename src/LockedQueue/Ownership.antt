-- ===== src/LockedQueue/Ownership.antt =====
-- Who owns the objects of a pool.
use find_friend_bot.Base.{
  ℕ, suc, ◌+◌, ◌≤◌, ◌<◌, ◌≡◌, ◌≢◌, refl, none, some, List, [], ◌∷◌, arith, if◌then◌else◌, length,
  count, is_some, ok, Returns, returns, Option-cases, inl, inr, ◌⊎◌, ◌>>=◌, le_or_lt,
}
use find_friend_bot.Lock.{unlocked}
use find_friend_bot.LockedQueue.{Ptr, null, Pooled, Locking, Pool, write, allocate, deallcate}

module _ {A : Type 0} (k : Locking) ⦃t : Pooled A⦄ where
  pub allocate-nil :
      (p : Pool A)
      → p.free_list ≡ []
      → allocate k p
        ≡ ok p.next (record p { next = suc p.next; cell = write p.cell p.next (some t.blank) })
  unfolding allocate
  allocate-nil p e = ground arith

  pub allocate-cons :
      (p : Pool A) (q : Ptr) (rest : List Ptr)
      → p.lock ≡ unlocked
      → p.free_list ≡ q ∷ rest
      → allocate k p ≡ ok q (record p { free_list = rest })
  unfolding allocate
  allocate-cons p q rest l e = ground arith

  pub deallcate-room :
      (p : Pool A) (v : Ptr)
      → p.lock ≡ unlocked
      → v ≢ null
      → length p.free_list ≤ t.max_pool_size
      → deallcate k v p ≡ ok tt (record p { free_list = v ∷ p.free_list })
  unfolding deallcate
  deallcate-room p v l n h = ground arith

  pub deallcate-full :
      (p : Pool A) (v : Ptr) (a : A)
      → p.cell v ≡ some a
      → v ≢ null
      → t.max_pool_size < length p.free_list
      → deallcate k v p ≡ ok tt (record p { cell = write p.cell v none })
  unfolding deallcate
  deallcate-full p v a e n h = ground arith

-- Each live object is on the free list or with one of the pointers of `held`, once, and no dead
-- object is; the lock is free, and the free list is within one of `limit`.
pub record Owned {A : Type 0} (limit : ℕ) (p : Pool A) (held : List Ptr) : Type 0 where
  pub one_owner :
      (q : Ptr) → count q held + count q p.free_list ≡ (if is_some (p.cell q) then 1 else 0)
  pub null_dead : p.cell null ≡ none
  pub fresh : (q : Ptr) → p.next ≤ q → p.cell q ≡ none
  pub started : 0 < p.next
  pub lock_free : p.lock ≡ unlocked
  pub bounded : length p.free_list ≤ suc limit

-- Only how often a pointer is held matters.
pub Owned-count :
    {A : Type 0} {limit : ℕ} {p : Pool A} {xs ys : List Ptr}
    → ((q : Ptr) → count q xs ≡ count q ys)
    → Owned limit p xs
    → Owned limit p ys
Owned-count e o = record {
  one_owner = λ q. omega (arith, e q, o.one_owner q);
  null_dead = o.null_dead;
  fresh = o.fresh;
  started = o.started;
  lock_free = o.lock_free;
  bounded = o.bounded;
}

-- Only the object at `v` may differ.
abbrev pub SameBut : {A : Type 0} → Ptr → Pool A → Pool A → Type 0
SameBut v p p' = (r : Ptr) → r ≢ v → p'.cell r ≡ p.cell r

module _ {A : Type 0} ⦃t : Pooled A⦄ where
  -- What `allocate` promises: an object that nobody else has.
  abbrev pub Allocated : Pool A → List Ptr → Ptr → Pool A → Type 0
  Allocated p held q p' =
      Owned t.max_pool_size p' (q ∷ held) × (count q held ≡ 0) × (q ≢ null) × SameBut q p p'

  -- What `deallcate` promises: the object is no longer the caller's.
  abbrev pub Deallcated : Pool A → Ptr → List Ptr → Pool A → Type 0
  Deallcated p v held p' = Owned t.max_pool_size p' held × SameBut v p p'

module _ {A : Type 0} (k : Locking) ⦃t : Pooled A⦄ where
  allocate_cases :
      (p : Pool A) (held free : List Ptr)
      → p.free_list ≡ free
      → Owned t.max_pool_size p held
      → Returns (Allocated p held) (allocate k p)
  allocate_cases p held [] e o = rw (allocate-nil k p e) (
      returns (
        record {
          one_owner = λ q. ground (arith, o.one_owner q, o.fresh q);
          null_dead = ground (arith, o.started, o.null_dead);
          fresh = λ q h. ground (arith, o.fresh q);
          started = omega arith;
          lock_free = o.lock_free;
          bounded = o.bounded;
        },
        ground (arith, o.one_owner p.next, o.fresh p.next),
        ground (arith, o.started),
        λ r n. ground arith,
      ))
  allocate_cases p held (q ∷ rest) e o = rw (allocate-cons k p q rest o.lock_free e) (
      returns (
        record {
          one_owner = λ r. ground (arith, o.one_owner r);
          null_dead = o.null_dead;
          fresh = o.fresh;
          started = o.started;
          lock_free = o.lock_free;
          bounded = ground (arith, o.bounded);
        },
        ground (arith, o.one_owner q),
        λ z. ground (arith, o.one_owner null, o.null_dead),
        λ r n. refl,
      ))

  pub allocate-Owned :
      {p : Pool A} {held : List Ptr}
      → Owned t.max_pool_size p held
      → Returns (Allocated p held) (allocate k p)
  allocate-Owned {p} {held} o = allocate_cases p held p.free_list refl o

  -- A pointer that is held is not null, and its object is live.
  pub held_live :
      {p : Pool A} {v : Ptr} {held : List Ptr}
      → Owned t.max_pool_size p (v ∷ held)
      → (v ≢ null) × ((a : A) × (p.cell v ≡ some a))
  held_live {p} {v} o = elim (Option-cases (p.cell v)) [
    | inl e ↦ absurd (ground (arith, o.one_owner v))
    | inr (a, e) ↦ (λ z. ground (arith, o.one_owner v, o.null_dead), (a, e))
  ]

  deallcate_cases :
      (p : Pool A) (v : Ptr) (held : List Ptr)
      → Owned t.max_pool_size p (v ∷ held)
      → (v ≢ null) × ((a : A) × (p.cell v ≡ some a))
      → (length p.free_list ≤ t.max_pool_size) ⊎ (t.max_pool_size < length p.free_list)
      → Returns (λ _. Deallcated p v held) (deallcate k v p)
  deallcate_cases p v held o (n, (a, e)) (inl h) = rw (deallcate-room k p v o.lock_free n h) (
      returns (
        record {
          one_owner = λ q. ground (arith, o.one_owner q);
          null_dead = o.null_dead;
          fresh = o.fresh;
          started = o.started;
          lock_free = o.lock_free;
          bounded = omega arith;
        },
        λ r _. refl,
      ))
  deallcate_cases p v held o (n, (a, e)) (inr h) = rw (deallcate-full k p v a e n h) (
      returns (
        record {
          one_owner = λ q. ground (arith, o.one_owner q);
          null_dead = ground (arith, o.null_dead);
          fresh = λ q l. ground (arith, o.fresh q);
          started = o.started;
          lock_free = o.lock_free;
          bounded = o.bounded;
        },
        λ r m. ground arith,
      ))

  pub deallcate-Owned :
      {p : Pool A} {v : Ptr} {held : List Ptr}
      → Owned t.max_pool_size p (v ∷ held)
      → Returns (λ _. Deallcated p v held) (deallcate k v p)
  deallcate-Owned {p} {v} {held} o =
      deallcate_cases p v held o (held_live o) (le_or_lt (length p.free_list) t.max_pool_size)

  -- Where an object is held and the free list has room, `deallcate` and then `allocate` give the
  -- same object back and leave the pool as it was.
  pub allocate-deallcate :
      {p : Pool A} {v : Ptr} {held : List Ptr}
      → Owned t.max_pool_size p (v ∷ held)
      → length p.free_list ≤ t.max_pool_size
      → (deallcate k v >>= λ _. allocate k) p ≡ ok v p
  allocate-deallcate {p} {v} o h =
      rw (deallcate-room k p v o.lock_free (held_live o).0 h)
        (allocate-cons k _ v p.free_list o.lock_free refl)
