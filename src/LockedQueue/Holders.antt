-- ===== src/LockedQueue/Holders.antt =====
-- What the lock of a pool keeps in order: one thread at a time is behind it.
use find_friend_bot.Base.{
  ℕ, ◌≡◌, ◌≢◌, refl, Option, none, some, List, [], ◌∷◌, ◌==◌, ltb, length, Run, ok, fault, ap, sym,
  ◌∙◌, arith, Bool-cases, Option-cases, inl, inr, subst,
}
use find_friend_bot.Lock.{Threading, no_threads, unlocked, held, acquire_lock, release_lock}
use find_friend_bot.LockedQueue.{Ptr, null, Pooled, Pool, new, delete}
use find_friend_bot.LockedQueue.Threads.{
  Call, allocate, deallcate, Pc, idle, tested, locked, popping, returning, pushing, leaving,
  lock_and, and_then_idle, next, System, Step, pick, Reach, start, later,
}
use find_friend_bot.LockedQueue.Knowing.{
  head, Knows, outsider, acquired, released, some_other, Keeps, still, holding,
}

module _ {A : Type 0} where
  abbrev pub AfterStep : (Pool A → Pc → Type 0) → Option (Run (Pool A) Pc) → Type 0
  AfterStep P none = Unit {0}
  AfterStep P (some (fault e)) = Unit {0}
  AfterStep P (some (ok pc p)) = P p pc

  abbrev Kept : ℕ → Pool A → Option (Run (Pool A) Pc) → Type 0
  Kept t p = AfterStep (λ p' pc. Keeps t p.lock p.free_list p'.lock p'.free_list pc)

  locking-Keeps :
      (k : Threading) (t : ℕ) (p : Pool A) (pc : Pc)
      → k ≢ no_threads
      → p.lock.holder ≢ some t
      → Knows (held t 1) p.free_list t pc
      → Kept t p (lock_and pc p (acquire_lock k t p.lock))
  locking-Keeps k t p pc d n h = elim (acquired k t p.lock d n) [
    | inl e ↦ rw e tt
    | inr (e, free) ↦ rw e (
      h,
      λ u q c.
          outsider t u p.lock (held t 1) p.free_list p.free_list q c
            (λ e. ground (arith, ap (λ l. l.holder) e, free)) (some_other t u c),
    )
  ]

  module _ ⦃c : Pooled A⦄ where
    -- The steps that look at the free list, by what it is.
    allocating :
        (k : Threading) (t : ℕ) (p : Pool A) (free : List Ptr)
        → p.lock.holder ≢ some t
        → Kept t
            (record p { free_list = free })
            (next k t allocate (record p { free_list = free }) idle)
    unfolding next new
    allocating k t p [] h = still t p.lock [] idle h
    allocating k t p (q ∷ rest) h = still t p.lock (q ∷ rest) tested h

    reading :
        (k : Threading) (t : ℕ) (call : Call) (p : Pool A) (free : List Ptr)
        → p.lock ≡ held t 1
        → Kept t
            (record p { free_list = free })
            (next k t call (record p { free_list = free }) locked)
    unfolding next
    reading k t call p [] h = tt
    reading k t call p (q ∷ rest) h = still t p.lock (q ∷ rest) (popping q) (h, refl)

    removing :
        (k : Threading) (t : ℕ) (call : Call) (p : Pool A) (free : List Ptr) (q : Ptr)
        → p.lock ≡ held t 1
        → Kept t
            (record p { free_list = free })
            (next k t call (record p { free_list = free }) (popping q))
    unfolding next
    removing k t call p [] q h = tt
    removing k t call p (r ∷ rest) q h = holding t p.lock p.lock (r ∷ rest) rest leaving h (inl h) h

    deleting :
        (t : ℕ) (p : Pool A) (v : Ptr)
        → p.lock.holder ≢ some t
        → Kept t p (some (and_then_idle (delete v p)))
    unfolding delete
    deleting t p v h = elim (Bool-cases (v == null)) [
      | inl e ↦ rw e (still t p.lock p.free_list idle h)
      | inr e ↦ elim (Option-cases (p.cell v)) [
        | inl f ↦ rw (e, f) tt
        | inr (a, f) ↦ rw (e, f) (still t p.lock p.free_list idle h)
      ]
    ]

    next-Keeps :
        (k : Threading) (t : ℕ) (call : Call) (p : Pool A) (pc : Pc)
        → k ≢ no_threads
        → Knows p.lock p.free_list t pc
        → Kept t p (next k t call p pc)
    unfolding next
    next-Keeps k t allocate p idle d h = allocating k t p p.free_list h
    next-Keeps k t (deallcate v) p idle d h = elim (Bool-cases (v == null)) [
      | inl e ↦ rw e (still t p.lock p.free_list idle h)
      | inr e ↦ elim (Bool-cases (ltb c.max_pool_size (length p.free_list))) [
        | inl f ↦ rw (e, f) (deleting t p v h)
        | inr f ↦ rw (e, f) (still t p.lock p.free_list (returning v) h)
      ]
    ]
    next-Keeps k t call p tested d h = locking-Keeps k t p locked d h refl
    next-Keeps k t call p locked d h = reading k t call p p.free_list h
    next-Keeps k t call p (popping q) d (h, e) = removing k t call p p.free_list q h
    next-Keeps k t call p (returning v) d h = locking-Keeps k t p (pushing v) d h refl
    next-Keeps k t call p (pushing v) d h =
        holding t p.lock p.lock p.free_list (v ∷ p.free_list) leaving h (inl h) h
    next-Keeps k t call p leaving d h =
        holding t p.lock (release_lock k p.lock).1 p.free_list p.free_list idle h
          (inr (rw h (released k t d))) (rw h (rw (released k t d) (ground arith)))

    Step-Knows :
        {k : Threading} {s s' : System A}
        → k ≢ no_threads
        → ((u : ℕ) → Knows s.pool.lock s.pool.free_list u (s.pc u))
        → Step k s s'
        → (u : ℕ) → Knows s'.pool.lock s'.pool.free_list u (s'.pc u)
    Step-Knows {k} {s} d h (pick t call {p} {pc} e) u =
        let kept : Keeps t s.pool.lock s.pool.free_list p.lock p.free_list pc =
          subst (Kept t s.pool) e (next-Keeps k t call s.pool (s.pc t) d (h t)) in
        elim (Bool-cases (u == t)) [
          | inl f ↦ rw f (subst (λ v. Knows p.lock p.free_list v pc) (ground (arith, f)) kept.0)
          | inr f ↦ rw f (kept.1 u (s.pc u) f (h u))
        ]

    Reach-Knows :
        {k : Threading} {p : Pool A} {s : System A}
        → k ≢ no_threads
        → p.lock ≡ unlocked
        → Reach k p s
        → (u : ℕ) → Knows s.pool.lock s.pool.free_list u (s.pc u)
    Reach-Knows d free start = λ u. rw free (ground arith)
    Reach-Knows d free (later r move) = Step-Knows d (Reach-Knows d free r) move

    -- In a build with threads, from a free lock on, the object that a thread in `allocate` has read
    -- is still the back of the free list when it is taken off, and no other thread is at that
    -- place.
    pub Reach-popping :
        {k : Threading} {p : Pool A} {s : System A} {t u : ℕ} {q r : Ptr}
        → k ≢ no_threads
        → p.lock ≡ unlocked
        → Reach k p s
        → s.pc t ≡ popping q
        → (head s.pool.free_list ≡ some q) × (s.pc u ≡ popping r → u ≡ t)
    Reach-popping {k} {p} {s} {t} {u} {q} {r} d free reach e =
        let known : Knows s.pool.lock s.pool.free_list t (popping q) =
          subst (Knows s.pool.lock s.pool.free_list t) e (Reach-Knows d free reach t) in
        let mine : held t 1 ≡ held u 1 → u ≡ t = λ l. ground (arith, ap (λ m. m.holder) l) in
        (
          known.1,
          λ f.
              let theirs : Knows s.pool.lock s.pool.free_list u (popping r) =
                subst (Knows s.pool.lock s.pool.free_list u) f (Reach-Knows d free reach u) in
              mine (sym known.0 ∙ theirs.0),
        )
