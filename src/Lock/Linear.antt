-- ===== src/Lock/Linear.antt =====
-- The operations on a shared word take effect one behind the other, where the build has threads.
use find_friend_bot.Base.{
  ℕ, ◌+◌, ◌%◌, ◌^◌, ◌≡◌, ◌≢◌, refl, false, Option, none, some, List, [], ◌∷◌, ◌==◌, at, arith,
  Bool-cases, Option-cases, inl, inr, subst,
}
use find_friend_bot.Lock.{Threading, pthread, win_thread, no_threads, acquire_lock, release_lock}
use find_friend_bot.Lock.Word.{
  rc_width, Op, incr, decr, after, Shared, Pc, idle, waiting, inside, loaded, leaving, next, System,
  Step, pick, Reach, start, later,
}

-- Each operation loaded what the one before it stored, the first of them `n`, and the last stored
-- `word`.
abbrev pub IsReplay : Threading → ℕ → List (Op × ℕ) → ℕ → Type 0
IsReplay k n [] word = word ≡ n
IsReplay k n ((op, seen) ∷ log) word = (word ≡ after k op seen) × IsReplay k n log seen

-- What a thread behind the lock knows of its holder and of the word.
abbrev Knows : Threading → Option ℕ → ℕ → ℕ → Pc → Type 0
Knows pthread holder word t (inside op) = holder ≡ some t
Knows pthread holder word t (loaded op n) = (holder ≡ some t) × (n ≡ word)
Knows pthread holder word t leaving = holder ≡ some t
Knows pthread holder word t _ = Unit {0}
Knows win_thread holder word t idle = Unit {0}
Knows win_thread holder word t _ = ⊥
Knows no_threads holder word t p = ⊥

record Inv (k : Threading) (n : ℕ) (s : System) : Type 0 where
  replay : IsReplay k n s.mem.log s.mem.word
  knows : (t : ℕ) → Knows k s.mem.lock.holder s.mem.word t (s.pc t)

-- Who does not hold the lock knows nothing that could change.
outsider :
    (h h' : Option ℕ) (w w' u : ℕ) (q : Pc)
    → h ≢ some u
    → Knows pthread h w u q
    → Knows pthread h' w' u q
outsider h h' w w' u idle n k = tt
outsider h h' w w' u (waiting op) n k = tt
outsider h h' w w' u (inside op) n k = absurd (n k)
outsider h h' w w' u (loaded op v) n k = absurd (n k.0)
outsider h h' w w' u leaving n k = absurd (n k)

quiet :
    (h h' : Option ℕ) (w w' u : ℕ) (q : Pc) → Knows win_thread h w u q → Knows win_thread h' w' u q
quiet h h' w w' u idle k = tt
quiet h h' w w' u (waiting op) k = k
quiet h h' w w' u (inside op) k = k
quiet h h' w w' u (loaded op v) k = k
quiet h h' w w' u leaving k = k

abbrev AfterStep : (Shared → Pc → Type 0) → Option (Shared × Pc) → Type 0
AfterStep P none = Unit {0}
AfterStep P (some (m, p)) = P m p

-- The step of `t` keeps the replay, what it knows, and what another thread knows.
abbrev Keeps : Threading → ℕ → ℕ → Shared → Shared → Pc → Type 0
Keeps k n t m m' p' =
    IsReplay k n m'.log m'.word
    × Knows k m'.lock.holder m'.word t p'
    × ((u : ℕ) (q : Pc)
        → (u == t) ≡ false
        → Knows k m.lock.holder m.word u q
        → Knows k m'.lock.holder m'.word u q)

other_holder : (t u : ℕ) (h : Option ℕ) → h ≡ some t → (u == t) ≡ false → h ≢ some u
other_holder t u h e n f = ground arith

next-Keeps :
    (k : Threading) (n t : ℕ) (call : Op) (m : Shared) (p : Pc)
    → IsReplay k n m.log m.word
    → Knows k m.lock.holder m.word t p
    → AfterStep (Keeps k n t m) (next k t call m p)
unfolding next acquire_lock release_lock
next-Keeps pthread n t call m idle r h = (r, tt, λ u q _ h. h)
next-Keeps pthread n t call m (waiting op) r h = elim (Option-cases m.lock.holder) [
  | inl e ↦ rw e (r, refl, λ u q _. outsider _ _ _ _ u q (ground arith))
  | inr (u, e) ↦ rw e tt
]
next-Keeps pthread n t call m (inside op) r h = (r, (h, refl), λ u q _ h. h)
next-Keeps pthread n t call m (loaded op v) r (h, e) =
    ((refl, rw e r), h, λ u q d. outsider _ _ _ _ u q (other_holder t u m.lock.holder h d))
next-Keeps pthread n t call m leaving r h =
    (r, tt, λ u q d. outsider _ _ _ _ u q (other_holder t u m.lock.holder h d))
next-Keeps win_thread n t call m idle r h = (
  (refl, r),
  tt,
  λ u q d. quiet m.lock.holder m.lock.holder m.word (after win_thread call m.word) u q,
)
next-Keeps win_thread n t call m (waiting op) r h = tt
next-Keeps win_thread n t call m (inside op) r h = tt
next-Keeps win_thread n t call m (loaded op v) r h = tt
next-Keeps win_thread n t call m leaving r h = tt
next-Keeps no_threads n t call m p r h = absurd h

fresh-Knows : (k : Threading) (n t : ℕ) → k ≢ no_threads → Knows k none n t idle
fresh-Knows pthread n t d = tt
fresh-Knows win_thread n t d = tt
fresh-Knows no_threads n t d = absurd (d refl)

Step-Inv : {k : Threading} {n : ℕ} {s s' : System} → Inv k n s → Step k s s' → Inv k n s'
Step-Inv {k} {n} {s} inv (pick t call {m} {p} e) =
    let kept : Keeps k n t s.mem m p =
      subst (AfterStep (Keeps k n t s.mem)) e
        (next-Keeps k n t call s.mem (s.pc t) inv.replay (inv.knows t)) in
    record {
      replay = kept.0;
      knows = λ u. elim (Bool-cases (u == t)) [
        | inl f ↦ rw f (subst (λ v. Knows k m.lock.holder m.word v p) (ground (arith, f)) kept.1)
        | inr f ↦ rw f (kept.2 u (s.pc u) f (inv.knows u))
      ];
    }

Reach-Inv : {k : Threading} {n : ℕ} {s : System} → k ≢ no_threads → Reach k n s → Inv k n s
Reach-Inv {k} {n} d start = record { replay = refl; knows = λ t. fresh-Knows k n t d }
Reach-Inv d (later r move) = Step-Inv (Reach-Inv d r) move

-- In a build with threads the operations that were done form a chain: each loaded what the one
-- before it stored.
pub Reach-IsReplay :
    {k : Threading} {n : ℕ} {s : System}
    → k ≢ no_threads
    → Reach k n s
    → IsReplay k n s.mem.log s.mem.word
Reach-IsReplay d r = (Reach-Inv d r).replay

-- How often an operation was done.
abbrev pub incrs : List (Op × ℕ) → ℕ
incrs [] = 0
incrs ((incr, seen) ∷ log) = 1 + incrs log
incrs ((decr, seen) ∷ log) = incrs log

abbrev pub decrs : List (Op × ℕ) → ℕ
decrs [] = 0
decrs ((decr, seen) ∷ log) = 1 + decrs log
decrs ((incr, seen) ∷ log) = decrs log

incr_step :
    (k : Threading) (seen d n i : ℕ)
    → (seen + d) % 2 ^ rc_width k ≡ (n + i) % 2 ^ rc_width k
    → (after k incr seen + d) % 2 ^ rc_width k ≡ (n + (1 + i)) % 2 ^ rc_width k
incr_step pthread seen d n i h = omega (arith, h)
incr_step win_thread seen d n i h = omega (arith, h)
incr_step no_threads seen d n i h = omega (arith, h)

decr_step :
    (k : Threading) (seen d n i : ℕ)
    → (seen + d) % 2 ^ rc_width k ≡ (n + i) % 2 ^ rc_width k
    → (after k decr seen + (1 + d)) % 2 ^ rc_width k ≡ (n + i) % 2 ^ rc_width k
decr_step pthread seen d n i h = omega (arith, h)
decr_step win_thread seen d n i h = omega (arith, h)
decr_step no_threads seen d n i h = omega (arith, h)

IsReplay-counts :
    (k : Threading) (n word : ℕ) (log : List (Op × ℕ))
    → IsReplay k n log word
    → (word + decrs log) % 2 ^ rc_width k ≡ (n + incrs log) % 2 ^ rc_width k
IsReplay-counts k n word [] r = rw r refl
IsReplay-counts k n word ((incr, seen) ∷ log) (e, r) =
    rw e (incr_step k seen (decrs log) n (incrs log) (IsReplay-counts k n seen log r))
IsReplay-counts k n word ((decr, seen) ∷ log) (e, r) =
    rw e (decr_step k seen (decrs log) n (incrs log) (IsReplay-counts k n seen log r))

-- In a build with threads, however their steps interleave, the word plus the number of decrements
-- so far is the first value plus the number of increments, modulo the width of the word.
pub Reach-counts :
    {k : Threading} {n : ℕ} {s : System}
    → k ≢ no_threads
    → Reach k n s
    → (s.mem.word + decrs s.mem.log) % 2 ^ rc_width k ≡ (n + incrs s.mem.log) % 2 ^ rc_width k
Reach-counts {k} {n} {s} d r = IsReplay-counts k n s.mem.word s.mem.log (Reach-IsReplay d r)

-- One more step of a thread that is at a known place.
move_on :
    {n : ℕ} {s : System} {m : Shared} {p' : Pc} (t : ℕ)
    → Reach no_threads n s
    → (p : Pc) → s.pc t ≡ p
    → next no_threads t incr s.mem p ≡ some (m, p')
    → Reach no_threads n (record { mem = m; pc = at s.pc t p' })
move_on t r p e f = later r (pick t incr (rw e f))

-- Without threads in the build, two that increment the word can leave it one higher.
pub lost_update :
    (n t u : ℕ)
    → (u == t) ≡ false
    → (s : System) × Reach no_threads n s
      × (s.pc t ≡ idle)
      × (s.pc u ≡ idle)
      × (s.mem.word ≡ (n + 1) % 2 ^ 64)
      × (incrs s.mem.log ≡ 2)
unfolding next
lost_update n t u d =
    let t_in = move_on t start idle refl refl in
    let u_in = move_on u t_in idle (ground (arith, d)) refl in
    let t_read = move_on t u_in (inside incr) (ground (arith, d)) refl in
    let u_read = move_on u t_read (inside incr) (ground (arith, d)) refl in
    let t_out = move_on t u_read (loaded incr n) (ground (arith, d)) refl in
    let u_out = move_on u t_out (loaded incr n) (ground (arith, d)) refl in
    (_, u_out, ground (arith, d), ground (arith, d), refl, refl)
