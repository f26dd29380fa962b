-- ===== src/Lock/Spin.antt =====
-- src/Lock.h: `spin_lock`.
use find_friend_bot.Base.{
  ℕ, ◌≡◌, refl, Bool, true, false, not, ◌&&◌, Option, none, some, if◌then◌else◌, arith,
}
use find_friend_bot.Lock.{Defines, Threading, pthread, win_thread, no_threads, threading}

-- `pthread_spin_lock` is there under `__LINUX` only; the others do nothing.
unfoldable pub spins : Threading → Defines → Bool
spins pthread d = d.linux
spins win_thread d = false
spins no_threads d = false

-- The lock is who holds it. What the call returns and leaves; `none` if the caller spins.
unfoldable pub acquire_lock : Bool → ℕ → Option ℕ → Option (ℕ × Option ℕ)
acquire_lock true t none = some (0, some t)
acquire_lock true t (some u) = none
acquire_lock false t holder = some (0, holder)

unfoldable pub release_lock : Bool → Option ℕ → ℕ × Option ℕ
release_lock true holder = (0, none)
release_lock false holder = (0, holder)

-- The lock that spins has no such member.
unfoldable pub tryacquire_lock : Bool → Option ℕ
tryacquire_lock true = none
tryacquire_lock false = some 0

-- What a second thread meets behind the first.
abbrev pub second : Bool → ℕ → ℕ → Option (ℕ × Option ℕ)
second b t u = elim (acquire_lock b t none) [ none ↦ none | some (_, h) ↦ acquire_lock b u h ]

second_spins : (b : Bool) (t u : ℕ) → second b t u ≡ (if b then none else some (0, none))
unfolding acquire_lock
second_spins true t u = refl
second_spins false t u = refl

spins-threading :
    (win32 windows linux macx no_thread : Bool)
    → (let d : Defines = record {
      win32 = win32;
      windows = windows;
      linux = linux;
      macx = macx;
      no_thread = no_thread;
    } in
        spins (threading d) d)
      ≡ (linux && not no_thread)
unfolding spins threading
spins-threading win32 windows linux macx no_thread = ground arith

-- The second thread spins if the build has pthreads and Linux, and else gets the lock at once.
pub second-threading :
    (d : Defines) (t u : ℕ)
    → second (spins (threading d) d) t u
      ≡ (if d.linux && not d.no_thread then none else some (0, none))
second-threading d t u =
    rw
      (
        second_spins (spins (threading d) d) t u,
        spins-threading d.win32 d.windows d.linux d.macx d.no_thread,
      )
      refl
