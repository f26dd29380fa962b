-- ===== src/Lock.antt =====
-- src/Lock.h: which implementation the preprocessor chooses, and the mutex.
pub mod Exclusion
pub mod Linear
pub mod ReadWrite
pub mod Scoped
pub mod Spin
pub mod Word
use find_friend_bot.Base.{
  ◌≡◌, refl, ℕ, zero, suc, Bool, not, ◌&&◌, ◌||◌, Option, none, some, ◌==◌, if◌then◌else◌,
}

-- The macros that select an implementation.
pub record Defines : Type 0 where
  pub win32 : Bool
  pub windows : Bool
  pub linux : Bool
  pub macx : Bool
  pub no_thread : Bool

-- `__TOK_PTHREAD`, `__TOK_WIN_THREAD`, or neither of them.
pub data Threading : Type 0 where
  pthread win_thread no_threads : Threading

unfoldable pub threading : Defines → Threading
threading d =
    if (d.linux || d.macx) && not d.no_thread
    then pthread
    else if (d.win32 || d.windows) && not d.no_thread
    then win_thread
    else no_threads

-- The lock object: who holds it, and how often it was entered.
pub record Mutex : Type 0 where
  pub holder : Option ℕ
  pub depth : ℕ

abbrev pub unlocked : Mutex
unlocked = record { holder = none; depth = 0 }

abbrev pub held : ℕ → ℕ → Mutex
held t n = record { holder = some t; depth = n }

-- `EBUSY`
abbrev pub busy : ℕ
busy = 16

abbrev pub enter_section : ℕ → Option ℕ → ℕ → Option (ℕ × Mutex)
enter_section t none n = some (0, held t 1)
enter_section t (some u) n = if u == t then some (0, held t (suc n)) else none

-- What the call returns and leaves; `none` means that the caller blocks. The thread is `t`.
unfoldable pub acquire_lock : Threading → ℕ → Mutex → Option (ℕ × Mutex)
acquire_lock pthread t m = elim m.holder [ none ↦ some (0, held t 1) | some u ↦ none ]
acquire_lock win_thread t m = enter_section t m.holder m.depth
acquire_lock no_threads t m = some (0, m)

-- On Windows the result of `TryEnterCriticalSection` is dropped.
unfoldable pub tryacquire_lock : Threading → ℕ → Mutex → ℕ × Mutex
tryacquire_lock pthread t m = elim m.holder [ none ↦ (0, held t 1) | some u ↦ (busy, m) ]
tryacquire_lock win_thread t m = elim (enter_section t m.holder m.depth) [
  | none ↦ (0, m)
  | some r ↦ r
]
tryacquire_lock no_threads t m = (0, m)

abbrev pub leave_section : ℕ → Mutex → Mutex
leave_section zero m = m
leave_section (suc zero) m = unlocked
leave_section (suc (suc n)) m = record m { depth = suc n }

-- The holder's call; any other use of it is undefined, and no use here.
unfoldable pub release_lock : Threading → Mutex → ℕ × Mutex
release_lock pthread m = (0, unlocked)
release_lock win_thread m = (0, leave_section m.depth m)
release_lock no_threads m = (0, m)

-- The lock behind an acquisition by `t`.
unfoldable pub locked_by : Threading → ℕ → Mutex
unfolding acquire_lock
locked_by k t = elim (acquire_lock k t unlocked) [ none ↦ unlocked | some (_, m) ↦ m ]

-- A free lock is acquired at once, whatever the build.
pub acquire_free : (k : Threading) (t : ℕ) → acquire_lock k t unlocked ≡ some (0, locked_by k t)
unfolding locked_by
acquire_free pthread t = refl
acquire_free win_thread t = refl
acquire_free no_threads t = refl

-- The release that follows frees it again.
pub release_taken : (k : Threading) (t : ℕ) → (release_lock k (locked_by k t)).1 ≡ unlocked
unfolding locked_by release_lock
release_taken pthread t = refl
release_taken win_thread t = refl
release_taken no_threads t = refl
