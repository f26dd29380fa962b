-- ===== src/Lock/Word.antt =====
-- src/Lock.h: `_Refcount_Base`, a word that threads change in steps: what the processor does at once
-- is a step, and any thread may make the next one.
use find_friend_bot.Base.{ℕ, ◌+◌, ◌-◌, ◌%◌, ◌^◌, ◌≡◌, Option, none, some, List, [], ◌∷◌, at}
use find_friend_bot.Lock.{
  Threading, pthread, win_thread, no_threads, Mutex, unlocked, acquire_lock, release_lock,
}

-- `_RC_t`: a `long` on Windows, a `size_t` elsewhere.
abbrev pub rc_width : Threading → ℕ
rc_width win_thread = 32
rc_width _ = 64

pub data Op : Type 0 where
  incr decr : Op

-- What the operation stores over a value; `decr` returns it too.
abbrev pub after : Threading → Op → ℕ → ℕ
after k incr n = (n + 1) % 2 ^ rc_width k
after k decr n = (n + (2 ^ rc_width k - 1)) % 2 ^ rc_width k

-- The word, the lock that its operations take, and the operations that stored into it with the value that each had loaded,
-- the latest first.
pub record Shared : Type 0 where
  pub word : ℕ
  pub lock : Mutex
  pub log : List (Op × ℕ)

-- Where a thread is: outside, in front of the lock, in front of the load, with the value it loaded,
-- and in front of the unlock.
pub data Pc : Type 0 where
  idle : Pc
  waiting : Op → Pc
  inside : Op → Pc
  loaded : Op → ℕ → Pc
  leaving : Pc

abbrev pub stored : Threading → Op → ℕ → Shared → Shared
stored k op n m = record m { word = after k op n; log = (op, n) ∷ m.log }

-- The next step of the thread `t`, which calls `call` if it is outside; `none` if it is blocked. An
-- interlocked function of Windows is one step.
unfoldable pub next : Threading → ℕ → Op → Shared → Pc → Option (Shared × Pc)
unfolding acquire_lock release_lock
next pthread t call m idle = some (m, waiting call)
next pthread t call m (waiting op) = elim (acquire_lock pthread t m.lock) [
  | none ↦ none
  | some (_, lock) ↦ some (record m { lock = lock }, inside op)
]
next pthread t call m (inside op) = some (m, loaded op m.word)
next pthread t call m (loaded op n) = some (stored pthread op n m, leaving)
next pthread t call m leaving = some (record m { lock = (release_lock pthread m.lock).1 }, idle)
next win_thread t call m idle = some (stored win_thread call m.word m, idle)
next win_thread t call m _ = none
next no_threads t call m idle = some (m, inside call)
next no_threads t call m (inside op) = some (m, loaded op m.word)
next no_threads t call m (loaded op n) = some (stored no_threads op n m, idle)
next no_threads t call m _ = none

pub record System : Type 0 where
  pub mem : Shared
  pub pc : ℕ → Pc

abbrev pub fresh : ℕ → System
fresh n = record { mem = record { word = n; lock = unlocked; log = [] }; pc = λ _. idle }

pub data Step (k : Threading) (s : System) : System → Type 0 where
  pick :
      (t : ℕ) (call : Op) {m : Shared} {p : Pc}
      → next k t call s.mem (s.pc t) ≡ some (m, p)
      → Step k s (record { mem = m; pc = at s.pc t p })

pub data Reach (k : Threading) (n : ℕ) : System → Type 0 where
  start : Reach k n (fresh n)
  later : {s s' : System} → Reach k n s → Step k s s' → Reach k n s'
