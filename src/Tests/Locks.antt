-- ===== src/Tests/Locks.antt =====
-- The properties of the locks and of the containers behind them at concrete inputs.
use find_friend_bot.Base.{
  count, ℕ, ◌+◌, ◌%◌, ◌^◌, ◌≡◌, ◌≢◌, refl, some, ◌∷◌, fault, out_of_range, arith, [], length, ◌≤◌,
}
use find_friend_bot.Lock.{pthread, no_threads, unlocked, acquire_lock, release_lock}
use find_friend_bot.Lock.Word
use find_friend_bot.Lock.Word.{incr, decr}
use find_friend_bot.Lock.Linear.{incrs, decrs, Reach-counts}
use find_friend_bot.LockedQueue.Threads
use find_friend_bot.LockedQueue.Threads.{System}
use find_friend_bot.LockedQueue.Holders.{Reach-popping}
use find_friend_bot.LockedQueue.Knowing.{head}
use find_friend_bot.LockedQueue.Totals.{total}
use find_friend_bot.LockedQueue.Handing.{carried, gets, puts, Reach-count}
use find_friend_bot.LockedQueue.Limit.{Reach-length}
use find_friend_bot.LockedQueue.Races.{allocate_races}
use find_friend_bot.Member.{Member, pooled_member}
use find_friend_bot.Fixtures.{two_online}

with_threads : pthread ≢ no_threads
with_threads e = ground arith

-- A count of 7 that one thread increments while another one is in front of the lock to decrement it.
abbrev counted : (s : Word.System) × Word.Reach pthread 7 s
unfolding Word.next
counted =
    let called =
      Word.later (Word.later Word.start (Word.pick 1 incr refl)) (Word.pick 2 decr refl) in
    let read = Word.later (Word.later called (Word.pick 1 incr refl)) (Word.pick 1 incr refl) in
    let left = Word.later (Word.later read (Word.pick 1 incr refl)) (Word.pick 1 incr refl) in
    let again = Word.later (Word.later left (Word.pick 2 decr refl)) (Word.pick 2 decr refl) in
    (_, Word.later again (Word.pick 2 decr refl))

Reach-counts_example :
    (counted.0.mem.word + decrs counted.0.mem.log) % 2 ^ 64 ≡ (7 + incrs counted.0.mem.log) % 2 ^ 64
unfolding counted
Reach-counts_example = Reach-counts {k = pthread} {n = 7} {s = counted.0} with_threads counted.1

-- A thread behind `back()`.
abbrev popping : (s : System Member) × Threads.Reach pthread two_online.free_list s
unfolding Threads.next acquire_lock
popping =
    let called = Threads.later Threads.start (Threads.pick 1 Threads.allocate refl) in
    let locked = Threads.later called (Threads.pick 1 Threads.allocate refl) in
    (_, Threads.later locked (Threads.pick 1 Threads.allocate refl))

Reach-popping_example :
    (head popping.0.pool.free_list ≡ some 3)
    × (popping.0.pc 1 ≡ Threads.popping 3 → ◌≡◌ {A = ℕ} 1 1)
unfolding popping
Reach-popping_example =
    Reach-popping {k = pthread} {p = two_online.free_list} {s = popping.0} {t = 1} {u = 1} {q = 3}
      {r = 3} with_threads refl popping.1 refl

-- Two threads that have both seen room for their objects, one of which has put its object there.
abbrev both_returning : (s : System Member) × Threads.Reach pthread two_online.free_list s
unfolding Threads.next acquire_lock release_lock
both_returning =
    let first = Threads.later Threads.start (Threads.pick 0 (Threads.deallcate 1) refl) in
    let second = Threads.later first (Threads.pick 1 (Threads.deallcate 2) refl) in
    let locked = Threads.later second (Threads.pick 0 (Threads.deallcate 1) refl) in
    let pushed = Threads.later locked (Threads.pick 0 (Threads.deallcate 1) refl) in
    let left = Threads.later pushed (Threads.pick 0 (Threads.deallcate 1) refl) in
    (_, Threads.later left (Threads.pick 1 (Threads.deallcate 2) refl))

Reach-length_example : length both_returning.0.pool.free_list ≤ pooled_member.max_pool_size + 2
unfolding both_returning
Reach-length_example =
    Reach-length {k = pthread} {p = two_online.free_list} {s = both_returning.0} 2 both_returning.1
      (omega arith, (omega arith, (omega arith, (omega arith, (omega arith, (omega arith, tt))))))
      (omega arith)

Reach-count_example :
    count 1 both_returning.0.pool.free_list
      + total (carried 1) 2 both_returning.0.pc
      + gets 1 both_returning.1
    ≡ count 1 two_online.free_list.free_list + puts 1 both_returning.1
unfolding both_returning
Reach-count_example =
    Reach-count 1 {k = pthread} {p = two_online.free_list} {s = both_returning.0} 2 with_threads
      refl both_returning.1
      (omega arith, (omega arith, (omega arith, (omega arith, (omega arith, (omega arith, tt))))))

allocate_races_example :
    (s : System Member) × Threads.Reach no_threads
      (record (two_online.free_list) { free_list = 3 ∷ []; lock = unlocked })
      s
    × (Threads.next no_threads 2 Threads.allocate s.pool (s.pc 2) ≡ some (fault out_of_range))
allocate_races_example = allocate_races no_threads two_online.free_list 3 1 2 refl
