-- ===== src/LockedQueue/Knowing.antt =====
-- What a thread of the pool knows of the lock and of the free list, at each of its places.
use find_friend_bot.Base.{
  ℕ, ◌≡◌, ◌≢◌, refl, false, Option, none, some, List, [], ◌∷◌, ◌⊎◌, ◌==◌, ap, arith, Option-cases,
  inl, inr,
}
use find_friend_bot.Lock.{
  Threading, pthread, win_thread, no_threads, Mutex, unlocked, held, acquire_lock, release_lock,
}
use find_friend_bot.LockedQueue.{Ptr}
use find_friend_bot.LockedQueue.Threads.{
  Pc, idle, tested, locked, popping, returning, pushing, leaving,
}

abbrev pub head : List Ptr → Option Ptr
head [] = none
head (q ∷ qs) = some q

-- What a thread knows of the lock and of the back of the free list.
abbrev pub Knows : Mutex → List Ptr → ℕ → Pc → Type 0
Knows lock free t idle = lock.holder ≢ some t
Knows lock free t tested = lock.holder ≢ some t
Knows lock free t (returning v) = lock.holder ≢ some t
Knows lock free t locked = lock ≡ held t 1
Knows lock free t (popping q) = (lock ≡ held t 1) × (head free ≡ some q)
Knows lock free t (pushing v) = lock ≡ held t 1
Knows lock free t leaving = lock ≡ held t 1

-- A lock that another thread acquires, or releases.
pub outsider :
    (t u : ℕ) (lock lock' : Mutex) (free free' : List Ptr) (q : Pc)
    → (u == t) ≡ false
    → (lock ≢ held u 1)
    → (lock'.holder ≢ some u)
    → Knows lock free u q
    → Knows lock' free' u q
outsider t u lock lock' free free' idle d n o h = o
outsider t u lock lock' free free' tested d n o h = o
outsider t u lock lock' free free' (returning v) d n o h = o
outsider t u lock lock' free free' locked d n o h = absurd (n h)
outsider t u lock lock' free free' (popping q) d n o h = absurd (n h.0)
outsider t u lock lock' free free' (pushing v) d n o h = absurd (n h)
outsider t u lock lock' free free' leaving d n o h = absurd (n h)

-- A thread waits, or it has a lock that was free.
pub acquired :
    (k : Threading) (t : ℕ) (lock : Mutex)
    → k ≢ no_threads
    → lock.holder ≢ some t
    → (acquire_lock k t lock ≡ none)
      ⊎ ((acquire_lock k t lock ≡ some (0, held t 1)) × (lock.holder ≡ none))
unfolding acquire_lock
acquired pthread t lock d n = elim (Option-cases lock.holder) [
  | inl e ↦ inr (rw (acquire_lock, e) refl, e)
  | inr (u, e) ↦ inl (rw (acquire_lock, e) refl)
]
acquired win_thread t lock d n = elim (Option-cases lock.holder) [
  | inl e ↦ inr (rw (acquire_lock, e) refl, e)
  | inr (u, e) ↦
      let other : (u == t) ≡ false = ground (arith, n, e) in inl (rw (acquire_lock, e, other) refl)
]
acquired no_threads t lock d n = absurd (d refl)

pub released : (k : Threading) (t : ℕ) → k ≢ no_threads → (release_lock k (held t 1)).1 ≡ unlocked
unfolding release_lock
released pthread t d = refl
released win_thread t d = refl
released no_threads t d = absurd (d refl)

pub some_other : (t u : ℕ) → (u == t) ≡ false → ◌≢◌ {A = Option ℕ} (some t) (some u)
some_other t u d = ground arith

not_held : (t u : ℕ) → (u == t) ≡ false → held t 1 ≢ held u 1
not_held t u d e = some_other t u d (ap (λ l. l.holder) e)

-- What a step of `t` leaves for `t` and for another thread.
abbrev pub Keeps : ℕ → Mutex → List Ptr → Mutex → List Ptr → Pc → Type 0
Keeps t lock free lock' free' pc =
    Knows lock' free' t pc
    × ((u : ℕ) (q : Pc) → (u == t) ≡ false → Knows lock free u q → Knows lock' free' u q)

-- A step that touches neither the lock nor the free list.
pub still :
    (t : ℕ) (lock : Mutex) (free : List Ptr) (pc : Pc)
    → Knows lock free t pc
    → Keeps t lock free lock free pc
still t lock free pc h = (h, λ u q _ k. k)

-- A step of the holder.
pub holding :
    (t : ℕ) (lock lock' : Mutex) (free free' : List Ptr) (pc : Pc)
    → lock ≡ held t 1
    → (lock' ≡ held t 1) ⊎ (lock' ≡ unlocked)
    → Knows lock' free' t pc
    → Keeps t lock free lock' free' pc
holding t lock lock' free free' pc l l' h = (
  h,
  λ u q d.
      outsider t u lock lock' free free' q d (rw l (not_held t u d))
        (elim l' [ inl e ↦ rw e (some_other t u d) | inr e ↦ rw e (ground arith) ]),
)
