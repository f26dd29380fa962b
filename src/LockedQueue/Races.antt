-- ===== src/LockedQueue/Races.antt =====
-- Two threads of a pool that both looked before they locked.
use find_friend_bot.Base.{
  ℕ, ◌≡◌, refl, false, some, [], ◌∷◌, at, ◌==◌, ok, fault, out_of_range, arith,
}
use find_friend_bot.Lock.{Threading, unlocked, locked_by, acquire_free, release_taken}
use find_friend_bot.LockedQueue.{Pooled, Pool}
use find_friend_bot.LockedQueue.Threads.{
  allocate, Pc, idle, tested, locked, popping, leaving, next, System, pick, Reach, start, later,
}

module _ {A : Type 0} where
  module _ ⦃c : Pooled A⦄ where
    locks :
        (k : Threading) (t : ℕ) (p : Pool A)
        → p.lock ≡ unlocked
        → next k t allocate p tested ≡ some (ok locked (record p { lock = locked_by k t }))
    unfolding next
    locks k t p free = rw (next, free, acquire_free k t) refl

    unlocks :
        (k : Threading) (t : ℕ) (p : Pool A)
        → p.lock ≡ locked_by k t
        → next k t allocate p leaving ≡ some (ok idle (record p { lock = unlocked }))
    unfolding next
    unlocks k t p own = rw (next, own, release_taken k t) refl

    -- A step of a thread that is at a known place.
    move_on :
        {k : Threading} {p p' : Pool A} {s : System A} {pc' : Pc} (t : ℕ)
        → Reach k p s
        → (pc : Pc) → s.pc t ≡ pc
        → next k t allocate s.pool pc ≡ some (ok pc' p')
        → Reach k p (record { pool = p'; pc = at s.pc t pc' })
    move_on t r pc e f = later r (pick t allocate (rw e f))

    -- In every build, from a pool with one object and a free lock, two threads can reach a state
    -- where one of them calls `back()` on an empty list: both looked at the list before they took
    -- the lock.
    pub allocate_races :
        (k : Threading) (p : Pool A) (q t u : ℕ)
        → (u == t) ≡ false
        → (s : System A) × Reach k (record p { free_list = q ∷ []; lock = unlocked }) s
          × (next k u allocate s.pool (s.pc u) ≡ some (fault out_of_range))
    unfolding next
    allocate_races k p q t u d =
        let t_tested = move_on t start idle refl refl in
        let u_tested = move_on u t_tested idle (ground (arith, d)) refl in
        let t_locked = move_on t u_tested tested (ground (arith, d)) (locks k t _ refl) in
        let t_read = move_on t t_locked locked (ground (arith, d)) refl in
        let t_popped = move_on t t_read (popping q) (ground (arith, d)) refl in
        let t_done = move_on t t_popped leaving (ground (arith, d)) (unlocks k t _ refl) in
        let u_locked = move_on u t_done tested (ground (arith, d)) (locks k u _ refl) in
        (_, u_locked, ground (arith, d))
