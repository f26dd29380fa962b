-- ===== src/Lock/Scoped.antt =====
-- src/Lock.h: `auto_lock`, which holds a `mutex_lock` for the length of a scope.
use find_friend_bot.Base.{ℕ, ◌≡◌, refl, Option, none, some, arith}
use find_friend_bot.Lock.{
  Threading, pthread, win_thread, no_threads, Mutex, unlocked, acquire_lock, release_lock,
  acquire_free, release_taken,
}

-- What a scope gives and leaves, with the constructor before it and the destructor behind it; `none`
-- if its thread waits for ever.
abbrev release_behind : {A : Type 0} → Threading → Option (A × Mutex) → Option (A × Mutex)
release_behind k none = none
release_behind k (some (a, m)) = some (a, (release_lock k m).1)

unfoldable pub auto_lock :
    {A : Type 0} → Threading → ℕ → (Mutex → Option (A × Mutex)) → Mutex → Option (A × Mutex)
unfolding acquire_lock release_lock
auto_lock k t scope m = elim (acquire_lock k t m) [
  | none ↦ none
  | some (_, m') ↦ release_behind k (scope m')
]

-- A scope that leaves the lock as it is.
abbrev pub quiet : {A : Type 0} → A → Mutex → Option (A × Mutex)
quiet a m = some (a, m)

pub auto_lock_free :
    {A : Type 0} (k : Threading) (t : ℕ) (a : A)
    → auto_lock k t (quiet a) unlocked ≡ some (a, unlocked)
unfolding auto_lock
auto_lock_free k t a = rw (auto_lock, acquire_free k t, release_taken k t) refl

-- What one scope inside another of the same thread and lock comes to.
abbrev pub nested : {A : Type 0} → Threading → A → Option (A × Mutex)
nested pthread a = none
nested win_thread a = some (a, unlocked)
nested no_threads a = some (a, unlocked)

-- One scope inside another on a free lock: its thread waits for itself with pthreads, and else ends
-- with the lock free.
pub auto_lock-auto_lock :
    {A : Type 0} (k : Threading) (t : ℕ) (a : A)
    → auto_lock k t (auto_lock k t (quiet a)) unlocked ≡ nested k a
unfolding auto_lock acquire_lock release_lock
auto_lock-auto_lock pthread t a = refl
auto_lock-auto_lock win_thread t a = ground arith
auto_lock-auto_lock no_threads t a = refl
