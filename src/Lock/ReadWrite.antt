-- ===== src/Lock/ReadWrite.antt =====
-- src/Lock.h: `rw_lock`.
use find_friend_bot.Base.{
  ℕ, ◌≡◌, refl, Option, none, some, List, [], ◌∷◌, ◌==◌, ◌⊎◌, inl, inr, if◌then◌else◌, subst,
}
use find_friend_bot.Lock.{Threading, pthread, win_thread, no_threads}

pub record RwLock : Type 0 where
  pub readers : List ℕ
  pub writer : Option ℕ

pub data Act : Type 0 where
  acquire_r_lock release_r_lock acquire_w_lock release_w_lock : Act

abbrev pub leave : ℕ → List ℕ → List ℕ
leave t [] = []
leave t (u ∷ us) = if u == t then us else u ∷ leave t us

-- What the call of the thread `t` leaves; `none` if it waits. The release is the holder's.
unfoldable pub call : ℕ → Act → RwLock → Option RwLock
call t acquire_r_lock l = elim l.writer [
  | none ↦ some (record l { readers = t ∷ l.readers })
  | some u ↦ none
]
call t release_r_lock l = some (record l { readers = leave t l.readers })
call t acquire_w_lock l = elim l.writer [
  | none ↦ elim l.readers [ [] ↦ some (record l { writer = some t }) | u ∷ us ↦ none ]
  | some u ↦ none
]
call t release_w_lock l = some (record l { writer = none })

-- Without threads in the build there are no such members.
unfoldable pub act : Threading → ℕ → Act → RwLock → Option RwLock
unfolding call
act pthread t a l = call t a l
act win_thread t a l = call t a l
act no_threads t a l = none

pub data Reach (k : Threading) : RwLock → Type 0 where
  start : Reach k (record { readers = []; writer = none })
  later : {l l' : RwLock} (t : ℕ) (a : Act) → Reach k l → act k t a l ≡ some l' → Reach k l'

-- Nobody reads while one writes.
abbrev pub IsExclusive : RwLock → Type 0
IsExclusive l = (l.readers ≡ []) ⊎ (l.writer ≡ none)

abbrev If : Option RwLock → Type 0
If none = Unit {0}
If (some l) = IsExclusive l

call-IsExclusive :
    (t : ℕ) (a : Act) (readers : List ℕ) (writer : Option ℕ)
    → IsExclusive (record { readers = readers; writer = writer })
    → If (call t a (record { readers = readers; writer = writer }))
unfolding call
call-IsExclusive t acquire_r_lock readers none h = inr refl
call-IsExclusive t acquire_r_lock readers (some u) h = tt
call-IsExclusive t release_r_lock readers writer (inl e) = inl (rw e refl)
call-IsExclusive t release_r_lock readers writer (inr e) = inr e
call-IsExclusive t acquire_w_lock [] none h = inl refl
call-IsExclusive t acquire_w_lock (r ∷ rs) none h = tt
call-IsExclusive t acquire_w_lock readers (some u) h = tt
call-IsExclusive t release_w_lock readers writer h = inr refl

act-IsExclusive : (k : Threading) (t : ℕ) (a : Act) (l : RwLock) → IsExclusive l → If (act k t a l)
unfolding act
act-IsExclusive pthread t a l h = call-IsExclusive t a l.readers l.writer h
act-IsExclusive win_thread t a l h = call-IsExclusive t a l.readers l.writer h
act-IsExclusive no_threads t a l h = tt

-- In whatever order the threads call, nobody reads while one writes.
pub Reach-IsExclusive : {k : Threading} {l : RwLock} → Reach k l → IsExclusive l
Reach-IsExclusive start = inl refl
Reach-IsExclusive {k} (later {l} t a r e) =
    subst If e (act-IsExclusive k t a l (Reach-IsExclusive r))
