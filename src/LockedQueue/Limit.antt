-- ===== src/LockedQueue/Limit.antt =====
-- How long the free list can get where threads put objects back at the same time: each may have seen
-- room for its own.
use find_friend_bot.Base.{
  ℕ, ◌+◌, ◌<◌, ◌≤◌, ◌≡◌, refl, Option, none, some, List, [], ◌∷◌, ◌⊎◌, ◌==◌, ltb, at, length, Run,
  arith, subst, sym, ap, Bool-cases, Option-cases, inl, inr,
}
use find_friend_bot.Lock.{Threading, Mutex, acquire_lock}
use find_friend_bot.LockedQueue.{Ptr, null, Pooled, Pool, new, delete}
use find_friend_bot.LockedQueue.Holders.{AfterStep}
use find_friend_bot.LockedQueue.Totals.{total, total_idle, total_le, total-at}
use find_friend_bot.LockedQueue.Threads.{
  Call, allocate, deallcate, Pc, idle, tested, locked, popping, returning, pushing, leaving,
  lock_and, next, System, pick, Reach, start, later,
}

-- A thread that is to put one object on the list.
abbrev pending : Pc → ℕ
pending (returning v) = 1
pending (pushing v) = 1
pending _ = 0

pending_le : (pc : Pc) → pending pc ≤ 1
pending_le idle = omega arith
pending_le tested = omega arith
pending_le locked = omega arith
pending_le (popping q) = omega arith
pending_le (returning v) = omega arith
pending_le (pushing v) = omega arith
pending_le leaving = omega arith

-- One step, in numbers.
step_total :
    (max n t length0 length1 : ℕ) (pc : ℕ → Pc) (pc' : Pc)
    → t < n
    → length0 + total pending n pc ≤ max + n
    → (length1 + pending pc' ≤ length0 + pending (pc t))
      ⊎ ((pending (pc t) ≡ 0) × (length1 ≤ max) × (pending pc' ≡ 1))
    → length1 + total pending n (at pc t pc') ≤ max + n
step_total max n t length0 length1 pc pc' l h (inl g) =
    omega (arith, total-at pending n t pc pc' l, h, g)
step_total max n t length0 length1 pc pc' l h (inr (_, room, _)) =
    omega (arith, total_le pending n (at pc t pc') pending_le, room)

module _ {A : Type 0} ⦃c : Pooled A⦄ where
  -- What a step does to the length of the list and what its thread is to put there: they do not grow
  -- together, or there was room.
  abbrev Bounded : ℕ → Pc → Pool A → Pc → Type 0
  Bounded before pc p' pc' =
      (length p'.free_list + pending pc' ≤ before + pending pc)
      ⊎ ((pending pc ≡ 0) × (length p'.free_list ≤ c.max_pool_size) × (pending pc' ≡ 1))

  abbrev Grows : ℕ → Pc → Option (Run (Pool A) Pc) → Type 0
  Grows before pc = AfterStep (λ p' pc'. Bounded before pc p' pc')

  locking-Grows :
      (p : Pool A) (pc pc' : Pc) (r : Option (ℕ × Mutex))
      → pending pc' ≤ pending pc
      → Grows (length p.free_list) pc (lock_and pc' p r)
  locking-Grows p pc pc' none h = tt
  locking-Grows p pc pc' (some (_, m)) h = inl (omega (arith, h))

  allocating :
      (k : Threading) (t : ℕ) (p : Pool A) (free : List Ptr)
      → Grows (length free) idle (next k t allocate (record p { free_list = free }) idle)
  unfolding next new
  allocating k t p [] = inl (omega arith)
  allocating k t p (q ∷ rest) = inl (omega arith)

  deallcating :
      (k : Threading) (t : ℕ) (p : Pool A) (v : Ptr)
      → Grows (length p.free_list) idle (next k t (deallcate v) p idle)
  unfolding next delete
  deallcating k t p v = elim (Bool-cases (v == null)) [
    | inl e ↦ rw e (inl (omega arith))
    | inr e ↦ elim (Bool-cases (ltb c.max_pool_size (length p.free_list))) [
      | inl f ↦ elim (Option-cases (p.cell v)) [
        | inl g ↦ rw (e, f, g) tt
        | inr (a, g) ↦ rw (e, f, g) (inl (omega arith))
      ]
      | inr f ↦ rw (e, f) (inr (refl, ground (arith, f), refl))
    ]
  ]

  next-Grows :
      (k : Threading) (t : ℕ) (call : Call) (p : Pool A) (free : List Ptr) (pc : Pc)
      → p.free_list ≡ free
      → Grows (length free) pc (next k t call p pc)
  unfolding next
  next-Grows k t allocate p free idle e =
      subst (λ f. Grows (length f) idle (next k t allocate p idle)) e (allocating k t p p.free_list)
  next-Grows k t (deallcate v) p free idle e = rw (sym e) (deallcating k t p v)
  next-Grows k t call p free tested e =
      rw (sym e) (locking-Grows p tested locked (acquire_lock k t p.lock) (omega arith))
  next-Grows k t call p free (returning v) e =
      rw (sym e) (locking-Grows p (returning v) (pushing v) (acquire_lock k t p.lock) (omega arith))
  next-Grows k t call p [] locked e = rw e tt
  next-Grows k t call p (q ∷ rest) locked e = rw e (inl (omega (arith, ap length e)))
  next-Grows k t call p [] (popping r) e = rw e tt
  next-Grows k t call p (q ∷ rest) (popping r) e = rw e (inl (omega arith))
  next-Grows k t call p free (pushing v) e = rw e (inl (omega arith))
  next-Grows k t call p free leaving e = rw e (inl (omega arith))

  -- The steps were made by the first `n` threads.
  abbrev pub OfFirst : {k : Threading} {p : Pool A} {s : System A} → ℕ → Reach k p s → Type 0
  OfFirst n start = Unit {0}
  OfFirst n (later r (pick t call e)) = (t < n) × OfFirst n r

  Reach-total :
      {k : Threading} {p : Pool A} {s : System A} (n : ℕ) (r : Reach k p s)
      → OfFirst n r
      → length p.free_list ≤ c.max_pool_size + n
      → length s.pool.free_list + total pending n s.pc ≤ c.max_pool_size + n
  Reach-total {k} {p} n start f h = omega (arith, total_idle pending n refl, h)
  Reach-total {k} {p} n (later {s} r (pick t call {p = p'} {pc = pc'} e)) (l, f) h =
      let before = Reach-total n r f h in
      let grew : Bounded (length s.pool.free_list) (s.pc t) p' pc' =
        rw e at (next-Grows k t call s.pool s.pool.free_list (s.pc t) refl) in
      step_total c.max_pool_size n t (length s.pool.free_list) (length p'.free_list) s.pc pc' l
        before grew

  -- In every build, however the steps of `n` threads interleave, a free list that has at most `n`
  -- objects more than the limit when no thread is at the pool never gets longer than that.
  pub Reach-length :
      {k : Threading} {p : Pool A} {s : System A} (n : ℕ) (r : Reach k p s)
      → OfFirst n r
      → length p.free_list ≤ c.max_pool_size + n
      → length s.pool.free_list ≤ c.max_pool_size + n
  Reach-length {s = s} n r f h = omega (arith, Reach-total n r f h)
