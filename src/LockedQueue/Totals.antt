-- ===== src/LockedQueue/Totals.antt =====
-- A number for each place that a thread of the pool can be at, added up over the first threads.
use find_friend_bot.Base.{
  ℕ, zero, suc, ◌+◌, ◌<◌, ◌≤◌, ◌≡◌, refl, false, ◌==◌, at, arith, ap, Bool-cases, inl, inr,
}
use find_friend_bot.LockedQueue.Threads.{Pc, idle}

module _ (weight : Pc → ℕ) where
  pub total : ℕ → (ℕ → Pc) → ℕ
  total zero pc = 0
  total (suc n) pc = total n pc + weight (pc n)

  pub total_idle : (n : ℕ) → weight idle ≡ 0 → total n (λ _. idle) ≡ 0
  unfolding total
  total_idle zero h = refl
  total_idle (suc n) h = omega (arith, total_idle n h, h)

  pub total_le : (n : ℕ) (pc : ℕ → Pc) → ((x : Pc) → weight x ≤ 1) → total n pc ≤ n
  unfolding total
  total_le zero pc h = omega arith
  total_le (suc n) pc h = omega (arith, total_le n pc h, h (pc n))

  -- A step of a thread that is not counted.
  total_out : (n t : ℕ) (pc : ℕ → Pc) (x : Pc) → n ≤ t → total n (at pc t x) ≡ total n pc
  unfolding total
  total_out zero t pc x l = refl
  total_out (suc n) t pc x l =
      let other : (n == t) ≡ false = ground (arith, l) in
      rw other (ground (arith, total_out n t pc x))

  -- A step of a thread that is counted moves the total by what it moves the thread's number.
  pub total-at :
      (n t : ℕ) (pc : ℕ → Pc) (x : Pc)
      → t < n
      → total n (at pc t x) + weight (pc t) ≡ total n pc + weight x
  unfolding total
  total-at zero t pc x l = absurd (ground (arith, l))
  total-at (suc n) t pc x l = elim (Bool-cases (n == t)) [
    | inl e ↦
        let same : n ≡ t = ground (arith, e) in
        let unmoved = total_out n t pc x (omega (arith, same)) in
        rw e (omega (arith, unmoved, ap (λ u. weight (pc u)) same))
    | inr e ↦
        let inner : t < n = ground (arith, e, l) in rw e (omega (arith, total-at n t pc x inner))
  ]
