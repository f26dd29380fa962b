-- ===== src/LockedQueue/Handing.antt =====
-- What threads take from a pool against what they give it: nothing is handed out twice.
use find_friend_bot.Base.{
  ℕ, ◌+◌, ◌≡◌, ◌≢◌, refl, Option, none, some, List, [], ◌∷◌, ◌==◌, ltb, length, count, Run, arith,
  ap, Bool-cases, Option-cases, inl, inr, if◌then◌else◌,
}
use find_friend_bot.Lock.{Threading, Mutex, no_threads, unlocked, acquire_lock}
use find_friend_bot.LockedQueue.{Ptr, null, Pooled, Pool, new, delete}
use find_friend_bot.LockedQueue.Holders.{AfterStep, Reach-popping}
use find_friend_bot.LockedQueue.Knowing.{head}
use find_friend_bot.LockedQueue.Limit.{OfFirst}
use find_friend_bot.LockedQueue.Totals.{total, total_idle, total-at}
use find_friend_bot.LockedQueue.Threads.{
  Call, allocate, deallcate, Pc, idle, tested, locked, popping, returning, pushing, leaving,
  lock_and, next, System, pick, Reach, start, later,
}

module _ (q : Ptr) where
  abbrev is_it : Ptr → ℕ
  is_it v = if v == q then 1 else 0

  -- The thread is to put the object on the list.
  abbrev pub carried : Pc → ℕ
  carried (returning v) = is_it v
  carried (pushing v) = is_it v
  carried _ = 0

  -- The thread takes the object with its next step.
  abbrev taken : Pc → ℕ
  taken (popping v) = is_it v
  taken _ = 0

  -- The thread has just come to `deallcate` with the object, and goes on to put it on the list.
  abbrev brought : Pc → Pc → ℕ
  brought idle (returning v) = is_it v
  brought idle _ = 0
  brought _ _ = 0

module _ {A : Type 0} ⦃c : Pooled A⦄ (q : Ptr) where
  -- A step keeps the books.
  abbrev Balanced : ℕ → Pc → Pool A → Pc → Type 0
  Balanced before pc p' pc' =
      count q p'.free_list + carried q pc' + taken q pc ≡ before + carried q pc + brought q pc pc'

  abbrev Balances : ℕ → Pc → Option (Run (Pool A) Pc) → Type 0
  Balances before pc = AfterStep (λ p' pc'. Balanced before pc p' pc')

  tested-Balances :
      (p : Pool A) (r : Option (ℕ × Mutex))
      → Balances (count q p.free_list) tested (lock_and locked p r)
  tested-Balances p none = tt
  tested-Balances p (some (_, m)) = omega arith

  returning-Balances :
      (p : Pool A) (v : Ptr) (r : Option (ℕ × Mutex))
      → Balances (count q p.free_list) (returning v) (lock_and (pushing v) p r)
  returning-Balances p v none = tt
  returning-Balances p v (some (_, m)) = omega arith

  allocating :
      (k : Threading) (t : ℕ) (p : Pool A) (free : List Ptr)
      → Balances (count q free) idle (next k t allocate (record p { free_list = free }) idle)
  unfolding next new
  allocating k t p [] = omega arith
  allocating k t p (r ∷ rest) = omega arith

  deallcating :
      (k : Threading) (t : ℕ) (p : Pool A) (v : Ptr)
      → Balances (count q p.free_list) idle (next k t (deallcate v) p idle)
  unfolding next delete
  deallcating k t p v = elim (Bool-cases (v == null)) [
    | inl e ↦ rw e (omega arith)
    | inr e ↦ elim (Bool-cases (ltb c.max_pool_size (length p.free_list))) [
      | inl f ↦ elim (Option-cases (p.cell v)) [
        | inl g ↦ rw (e, f, g) tt
        | inr (a, g) ↦ rw (e, f, g) (omega arith)
      ]
      | inr f ↦ rw (e, f) (omega arith)
    ]
  ]

  removing :
      (k : Threading) (t : ℕ) (call : Call) (p : Pool A) (free : List Ptr) (v : Ptr)
      → head free ≡ some v
      → Balances
          (count q free)
          (popping v)
          (next k t call (record p { free_list = free }) (popping v))
  unfolding next
  removing k t call p [] v e = tt
  removing k t call p (r ∷ rest) v e =
      let same : r ≡ v = ground (arith, e) in omega (arith, ap (is_it q) same)

  reading :
      (k : Threading) (t : ℕ) (call : Call) (p : Pool A) (free : List Ptr)
      → Balances (count q free) locked (next k t call (record p { free_list = free }) locked)
  unfolding next
  reading k t call p [] = tt
  reading k t call p (r ∷ rest) = omega arith

  next-Balances :
      (k : Threading) (t : ℕ) (call : Call) (p : Pool A) (pc : Pc)
      → ((v : Ptr) → pc ≡ popping v → head p.free_list ≡ some v)
      → Balances (count q p.free_list) pc (next k t call p pc)
  unfolding next
  next-Balances k t allocate p idle h = allocating k t p p.free_list
  next-Balances k t (deallcate v) p idle h = deallcating k t p v
  next-Balances k t call p tested h = tested-Balances p (acquire_lock k t p.lock)
  next-Balances k t call p (returning v) h = returning-Balances p v (acquire_lock k t p.lock)
  next-Balances k t call p locked h = reading k t call p p.free_list
  next-Balances k t call p (popping v) h = removing k t call p p.free_list v (h v refl)
  next-Balances k t call p (pushing v) h = omega arith
  next-Balances k t call p leaving h = omega arith

  -- How often a thread took the object from the list.
  abbrev pub gets : {k : Threading} {p : Pool A} {s : System A} → Reach k p s → ℕ
  gets start = 0
  gets (later {s} r (pick t call e)) = gets r + taken q (s.pc t)

  -- How often a thread came to put the object on the list.
  abbrev pub puts : {k : Threading} {p : Pool A} {s : System A} → Reach k p s → ℕ
  puts start = 0
  puts (later {s} r (pick t call {pc = pc'} e)) = puts r + brought q (s.pc t) pc'

  -- In a build with threads, from a pool that no thread is at and whose lock is free, however the
  -- steps of `n` threads interleave: for each object, the times it was taken from the free list, it
  -- is on the free list and it is on the way there add up to the times it was on the list at first
  -- and was accepted by `deallcate`.
  pub Reach-count :
      {k : Threading} {p : Pool A} {s : System A} (n : ℕ)
      → k ≢ no_threads
      → p.lock ≡ unlocked
      → (r : Reach k p s) → OfFirst n r
      → count q s.pool.free_list + total (carried q) n s.pc + gets r ≡ count q p.free_list + puts r
  Reach-count n d free start f = omega (arith, total_idle (carried q) n refl)
  Reach-count {k} {p} n d free (later {s} r (pick t call {p = p'} {pc = pc'} e)) (l, f) =
      let before = Reach-count n d free r f in
      let first : (v : Ptr) → s.pc t ≡ popping v → head s.pool.free_list ≡ some v =
        λ v g. (Reach-popping {t = t} {u = t} {r = v} d free r g).0 in
      let step : Balanced (count q s.pool.free_list) (s.pc t) p' pc' =
        rw e at (next-Balances k t call s.pool (s.pc t) first) in
      omega (arith, before, step, total-at (carried q) n t s.pc pc' l)
