-- ===== src/Lock/Exclusion.antt =====
-- Which builds have locks that exclude.
use find_friend_bot.Base.{
  ℕ, ◌≡◌, refl, Bool, true, false, not, ◌&&◌, ◌||◌, none, some, ◌==◌, if◌then◌else◌, arith,
}
use find_friend_bot.Lock.{
  Defines, Threading, pthread, win_thread, no_threads, threading, unlocked, acquire_lock, locked_by,
}

-- Another thread waits for a lock that is held, or not.
abbrev excludes : Threading → Bool
excludes pthread = true
excludes win_thread = true
excludes no_threads = false

acquire_excludes :
    (k : Threading) (t u : ℕ)
    → (t == u) ≡ false
    → acquire_lock k u (locked_by k t) ≡ (if excludes k then none else some (0, unlocked))
unfolding acquire_lock locked_by
acquire_excludes pthread t u n = refl
acquire_excludes win_thread t u n = rw n refl
acquire_excludes no_threads t u n = refl

excludes-threading :
    (win32 windows linux macx no_thread : Bool)
    → excludes (
        threading (record {
          win32 = win32;
          windows = windows;
          linux = linux;
          macx = macx;
          no_thread = no_thread;
        }))
      ≡ ((linux || macx || win32 || windows) && not no_thread)
unfolding threading
excludes-threading win32 windows linux macx no_thread = ground arith

-- For two different threads, the second waits for a lock that the first holds if the build names a
-- system and not `__NO_THREAD`; else it gets the lock at once.
pub acquire_lock-threading :
    (d : Defines) (t u : ℕ)
    → (t == u) ≡ false
    → acquire_lock (threading d) u (locked_by (threading d) t) ≡ (
        if (d.linux || d.macx || d.win32 || d.windows) && not d.no_thread
        then none
        else some (0, unlocked))
acquire_lock-threading d t u n =
    rw
      (
        acquire_excludes (threading d) t u n,
        excludes-threading d.win32 d.windows d.linux d.macx d.no_thread,
      )
      refl
